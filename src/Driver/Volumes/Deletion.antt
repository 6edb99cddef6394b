-- ===== src/Driver/Volumes/Deletion.antt =====
-- The answers of `DeleteVolume`.
use datera_csi.Base.{◌∙◌, Bool-cases, inl, inr, String, ◌<>◌, ◌≡◌, refl, true, false, some, str_eq}
use datera_csi.Base.Text.{contains, contains-append}
use datera_csi.Base.Go.Binds.{bind-ok, attempt-err}
use datera_csi.Base.Go.{
  attempt, status, failed_precondition, invalid_argument, Result, ok, err, panic, ◌>>=◌,
}
use datera_csi.Client.Sdk.{AppInstance, Sdk, answer}
use datera_csi.Client.Volume.{Volume, ai_to_client_vol}
use datera_csi.Client.Snapshots.{has_snapshots}
use datera_csi.Client.Delete.{delete_volume}
use datera_csi.Client.Delete.Laws.{delete_volume_refused}
use datera_csi.Driver.Env.{Env, error_text}
use datera_csi.Driver.Volumes.{delete_body, delete_outcome}

has_snapshots_text :
    (name : String)
    → contains
        ("Volume " <> (name <> " cannot be deleted because it has snapshots"))
        "it has snapshots"
      ≡ true
unfolding contains
has_snapshots_text name =
    contains-append "Volume " (name <> " cannot be deleted because it has snapshots")
      "it has snapshots"
      (contains-append name " cannot be deleted because it has snapshots" "it has snapshots" refl)

-- If the id is not empty, the backend answers with an app instance that a volume can be built of, and
-- a snapshot of it is found, `DeleteVolume` answers FailedPrecondition, and no call follows the
-- listing of the snapshots: the backend stays in the state in which the listing left it.
pub delete_body_refused :
    (sdk : Sdk) (env : Env) (name : String) (ai : AppInstance) (v r : Volume) (s t u w : sdk.State)
    → str_eq name "" ≡ false
    → sdk.get_app_instance name s ≡ (answer ai, t)
    → ai_to_client_vol sdk (some ai) false false t ≡ (ok v, u)
    → has_snapshots sdk v u ≡ (ok (r, true), w)
    → delete_body sdk env name s ≡ (
      err (
          status failed_precondition
            "Volumes with snapshots cannot be deleted.  Delete snapshots first"),
      w,
    )
unfolding delete_body delete_outcome
delete_body_refused sdk env name ai v r s t u w n e f g =
    rw (delete_body, n)
      (bind-ok (attempt (delete_volume sdk name true)) (delete_outcome sdk env) s (
          attempt-err (delete_volume sdk name true) s
            (delete_volume_refused sdk name true ai v r s t u w e f g))
        ∙ rw (has_snapshots_text r.name))

-- The answers of a call.
pub data Answered : Result (Unit {0}) → Type 0 where
  done : Answered (ok tt)
  crashed : Answered panic
  no_id : Answered (err (status invalid_argument "VolumeId cannot be empty"))
  kept : Answered (
      err (
        status failed_precondition
          "Volumes with snapshots cannot be deleted.  Delete snapshots first"))

outcome-Answered :
    (sdk : Sdk) (env : Env) (r : Result (Unit {0})) (t : sdk.State)
    → Answered ((attempt (λ (s : sdk.State). (r, t)) >>= delete_outcome sdk env) t).0
unfolding delete_outcome
outcome-Answered sdk env panic t = crashed
outcome-Answered sdk env (err e) t =
    elim (Bool-cases (contains (error_text env e) "it has snapshots")) [
      | inl c ↦ rw c kept
      | inr c ↦ rw c done
    ]
outcome-Answered sdk env (ok _) t = done

-- In any state the body of `DeleteVolume` succeeds, panics, or answers one of two errors: that the id
-- is empty, or that the volume has snapshots. No other error of the client is passed on.
pub delete_body-Answered :
    (sdk : Sdk) (env : Env) (name : String) (s : sdk.State)
    → Answered (delete_body sdk env name s).0
unfolding delete_body
delete_body-Answered sdk env name s = elim (Bool-cases (str_eq name "")) [
  | inl e ↦ rw (delete_body, e) no_id
  | inr e ↦
      rw (delete_body, e)
        (outcome-Answered sdk env (delete_volume sdk name true s).0
          (delete_volume sdk name true s).1)
]

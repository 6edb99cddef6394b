-- ===== src/Driver/Snapshots/Answers.antt =====
-- The answers of `DeleteSnapshot`.
use datera_csi.Base.{String, ◌≡◌, false, Bool-cases, inl, inr, str_eq, ◌||◌}
use datera_csi.Base.Go.{Result, ok, err, panic, attempt, pure, ◌>>=◌}
use datera_csi.Common.SnapId.{parse_snap_id}
use datera_csi.Client.Sdk.{Sdk}
use datera_csi.Client.Volume.{Volume, get_volume}
use datera_csi.Client.Snapshots.{delete_snapshot}
use datera_csi.Driver.Env.{Env}
use datera_csi.Driver.Snapshots.{delete_snapshot_body, delete_known}

-- The answers of a call: no error of the backend is one.
pub data Deleted : Result (Unit {0}) → Type 0 where
  done : Deleted (ok tt)
  crashed : Deleted panic

attempt-Deleted :
    {S : Type 0} (r : Result (Unit {0})) (t : S)
    → Deleted ((attempt (λ (s : S). (r, t)) >>= λ _. pure tt) t).0
attempt-Deleted (ok _) t = done
attempt-Deleted (err _) t = done
attempt-Deleted panic t = crashed

known-Deleted :
    (sdk : Sdk) (env : Env) (sid : String) (r : Result Volume) (t : sdk.State)
    → Deleted ((attempt (λ (s : sdk.State). (r, t)) >>= delete_known sdk env sid) t).0
unfolding delete_known
known-Deleted sdk env sid (ok v) t =
    attempt-Deleted (delete_snapshot sdk v sid t).0 (delete_snapshot sdk v sid t).1
known-Deleted sdk env sid (err _) t = done
known-Deleted sdk env sid panic t = crashed

-- A call of `DeleteSnapshot` with an id that is not empty succeeds or panics: it answers no error,
-- whether the id is malformed, the volume or the snapshot is missing, or the backend fails.
pub delete_snapshot_body-Deleted :
    (sdk : Sdk) (env : Env) (snapshot_id : String) (s : sdk.State)
    → str_eq snapshot_id "" ≡ false
    → Deleted (delete_snapshot_body sdk env snapshot_id s).0
unfolding delete_snapshot_body
delete_snapshot_body-Deleted sdk env snapshot_id s n =
    rw (delete_snapshot_body, n)
      (elim (Bool-cases
        (str_eq (parse_snap_id snapshot_id).0 "" || str_eq (parse_snap_id snapshot_id).1 "")) [
          | inl e ↦ rw e done
          | inr e ↦
              let r = get_volume sdk (parse_snap_id snapshot_id).0 false false s in
              rw e (known-Deleted sdk env (parse_snap_id snapshot_id).1 r.0 r.1)
        ])

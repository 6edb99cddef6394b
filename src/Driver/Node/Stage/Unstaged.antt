-- ===== src/Driver/Node/Stage/Unstaged.antt =====
-- The answers of `NodeUnstageVolume`.
use datera_csi.Base.{
  String, List, Bool-cases, inl, inr, ◌≡◌, ◌≢◌, refl, Bool, true, false, Option, none, some, str_eq,
}
use datera_csi.Base.Dict.{Dict, insert, get}
use datera_csi.Base.Go.{
  status, invalid_argument, not_found, on_error, Result, ok, err, panic, Action, attempt, when,
  pure, ◌>>=◌,
}
use datera_csi.Base.Go.Outcomes.{NoError, done, attempt-all}
use datera_csi.Client.Sdk.{Sdk}
use datera_csi.Client.Volume.{Volume, get_volume, get_metadata, set_metadata, delete}
use datera_csi.Client.Acl.{Initiator, update_acl, unregister_acl}
use datera_csi.Client.Host.{Host, remote, local}
use datera_csi.Client.Mount.{unmount_volume}
use datera_csi.Client.Login.{logout}
use datera_csi.Driver.Env.{Env, as_code, error_text}
use datera_csi.Driver.Node.Stage.{
  unstage_body, detach, after_unmount, forget, leave, give_up, withdraw, delete_if, or_else,
  got_initiator, node_initiator,
}

when-NoError :
    {S A : Type 0} (test : Bool) (m : Action S A) (s : S) → NoError (when test (attempt m) s).0
when-NoError true m s = attempt-all NoError NoError.crashed (λ _. pure tt) m s (λ r t. done)
when-NoError false m s = done

module _ {ℓ} (sdk : Sdk) (host : Host) (env : Env) (P : Result (Unit {0}) → Type ℓ)
    (at_panic : P panic) where
  -- What holds of the end of the call, from giving up the access on, holds of its outcome.
  detach-ends :
      ((vol : Volume) (md : Dict String) (s : sdk.State × host.State)
        → P (give_up sdk host env vol md s).0)
      → (vol : Volume) (s : sdk.State × host.State) → P (detach sdk host env vol s).0
  unfolding detach after_unmount forget leave
  detach-ends h vol s =
      attempt-all P at_panic (λ out. after_unmount sdk host env (or_else vol out))
        (local sdk host (unmount_volume host vol)) s
        (λ out t.
          let v = or_else vol out in
          attempt-all P at_panic
            (λ found. forget sdk host env v (insert "mount_path" "" (or_else List.[] found)))
            (remote sdk host (get_metadata sdk v)) t
            (λ found u.
              let md = insert "mount_path" "" (or_else List.[] found) in
              attempt-all P at_panic (λ _. leave sdk host env v md)
                (remote sdk host (set_metadata sdk env.metadata_debug v md)) u
                (λ _ w.
                  attempt-all P at_panic (λ gone. give_up sdk host env (or_else v gone) md)
                    (local sdk host (logout host v)) w (λ gone x. h (or_else v gone) md x))))

-- The answers of a call.
pub data Answered : Result (Unit {0}) → Type 0 where
  succeeded : Answered (ok tt)
  crashed : Answered panic
  no_id : Answered (err (status invalid_argument "VolumeId cannot be empty"))
  no_path : Answered (err (status invalid_argument "StagingTargetPath cannot be empty"))
  missing : (text : String) → Answered (err (status not_found text))

quiet-Answered : {r : Result (Unit {0})} → NoError r → Answered r
quiet-Answered done = succeeded
quiet-Answered NoError.crashed = crashed

module _ (sdk : Sdk) (host : Host) (env : Env) where
  give_up-NoError :
      (vol : Volume) (md : Dict String) (s : sdk.State × host.State)
      → NoError (give_up sdk host env vol md s).0
  unfolding give_up withdraw delete_if
  give_up-NoError vol md s =
      attempt-all NoError NoError.crashed
        (λ init. withdraw sdk host env vol md (got_initiator init)) (node_initiator sdk host env) s
        (λ init t.
          attempt-all NoError NoError.crashed (λ _. delete_if sdk host env vol md)
            (remote sdk host (unregister_acl sdk vol (got_initiator init))) t
            (λ _ u.
              when-NoError (str_eq (get "delete_on_unmount" md) "true")
                (remote sdk host (delete sdk vol false)) u))

  detach-NoError :
      (vol : Volume) (s : sdk.State × host.State) → NoError (detach sdk host env vol s).0
  detach-NoError = detach-ends sdk host env NoError NoError.crashed (give_up-NoError)

  detach-Answered :
      (vol : Volume) (s : sdk.State × host.State) → Answered (detach sdk host env vol s).0
  detach-Answered vol s = quiet-Answered (detach-NoError vol s)

  read-Answered :
      (r : Result Volume) (t : sdk.State × host.State)
      → Answered
          ((on_error (as_code env not_found) (λ (s : sdk.State × host.State). (r, t))
              >>= detach sdk host env)
            t).0
  read-Answered (ok vol) t = detach-Answered vol t
  read-Answered (err e) t = missing (error_text env e)
  read-Answered panic t = crashed

  -- Unstaging succeeds, panics, or answers one of three errors: that the id or the staging path is
  -- empty, or NotFound where the volume is not read. No error of the unmount, the metadata, the logout,
  -- the access list or the deletion is passed on, whatever state the backend and the machine are in.
  pub unstage_body-Answered :
      (volume_id path : String) (s : sdk.State × host.State)
      → Answered (unstage_body sdk host env volume_id path s).0
  unfolding unstage_body
  unstage_body-Answered volume_id path s = elim (Bool-cases (str_eq volume_id "")) [
    | inl e ↦ rw (unstage_body, e) no_id
    | inr e ↦ elim (Bool-cases (str_eq path "")) [
      | inl h ↦ rw (unstage_body, e, h) no_path
      | inr h ↦
          let p = remote sdk host (get_volume sdk volume_id false true) s in
          rw (unstage_body, e, h) (read-Answered p.0 p.1)
    ]
  ]

  lost-panics :
      (vol : Volume) (md : Dict String) (r : Result (Option Initiator)) (t : sdk.State × host.State)
      → ((c : Initiator) → r ≢ ok (some c))
      → ((attempt (λ (s : sdk.State × host.State). (r, t)) >>= λ init.
            withdraw sdk host env vol md (got_initiator init))
          t).0
        ≡ panic
  unfolding withdraw unregister_acl update_acl
  lost-panics vol md (ok none) t h = refl
  lost-panics vol md (ok (some c)) t h = absurd (h c refl)
  lost-panics vol md (err e) t h = refl
  lost-panics vol md panic t h = refl

  -- But where the machine's initiator is not to be had, in no state, unstaging panics: the access list
  -- is changed for the initiator that was not got.
  pub detach_lost :
      (vol : Volume) (s : sdk.State × host.State)
      → ((u : sdk.State × host.State) (c : Initiator)
          → (node_initiator sdk host env u).0 ≢ ok (some c))
      → (detach sdk host env vol s).0 ≡ panic
  unfolding give_up
  detach_lost vol s lost =
      detach-ends sdk host env (λ r. r ≡ panic) refl
        (λ v md u. let r = node_initiator sdk host env u in lost-panics v md r.0 r.1 (lost u)) vol s

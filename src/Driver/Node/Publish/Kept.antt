-- ===== src/Driver/Node/Publish/Kept.antt =====
-- What a volume's metadata says once it is unpublished.
use datera_csi.Base.{String, ◌≡◌, refl, true, false, Option, none, some, List, str_eq}
use datera_csi.Base.Text.{split}
use datera_csi.Base.Dict.{Dict, get}
use datera_csi.Base.Go.Outcomes.{Ends, bind-Ends, skip-Ends, here-Ends, on_error-Ends}
use datera_csi.Base.Go.{
  status, invalid_argument, not_found, unknown, Result, ok, err, panic, Action, pure, deref,
  attempt, fail_if, on_error, ◌>>=◌,
}
use datera_csi.Client.Sdk.{Sdk}
use datera_csi.Client.Volume.{Volume, get_volume, get_metadata, set_metadata}
use datera_csi.Client.Volume.Instances.{InstanceOf, get_volume-Ends}
use datera_csi.Driver.Node.Stage.Steps.{remote-Ends}
use datera_csi.Client.Host.{Host, remote, local}
use datera_csi.Client.Mount.{unbind_mount}
use datera_csi.Driver.Env.{Env, as_code}
use datera_csi.Driver.Node.Publish.{without_pod, delete_all, unpublish, unpublish_body}
use datera_csi.Driver.Node.Publish.Entries.{get-without_pod}

module _ {S A : Type 0} where
  attempted_map :
      (Q : Unit {0} → S → Type 0) (r : Result A) (t : S)
      → Q tt t
      → Ends Q ((attempt (λ (s : S). (r, t)) >>= λ _. pure tt) t)
  attempted_map Q (ok a) t q = q
  attempted_map Q (err e) t q = q
  attempted_map Q panic t q = tt

  -- What holds of the state after a last step whose error is logged.
  attempted-Ends :
      (Q : Unit {0} → S → Type 0) (m : Action S A) (s : S)
      → Q tt (m s).1
      → Ends Q ((attempt m >>= λ _. pure tt) s)
  attempted-Ends Q m s = attempted_map Q (m s).0 (m s).1

  -- Following a pointer leaves the state.
  deref_kept : (o : Option A) (t : S) → Ends (λ (_ : A) (x : S). t ≡ x) (deref o t)
  deref_kept none t = tt
  deref_kept (some a) t = refl

module _ (sdk : Sdk) (host : Host) (env : Env) (id : String) where
  abbrev Site : Type 0
  Site = sdk.State × host.State

  -- The metadata that was read and that which was written then have the same entry of the bind mounts,
  -- and belong to an app instance that the backend gave for the id; what was done last was to unmount the target.
  abbrev pub Keeps : String → Unit {0} → sdk.State × host.State → Type 0
  Keeps target _ t =
      (vol : Volume) × (md : Dict String) × (new : Dict String) × (u : sdk.State × host.State)
      × (v : sdk.State × host.State) × (w : sdk.State × host.State) × (written : Dict String)
      × (bound : Volume) × (remote sdk host (get_metadata sdk vol) u ≡ (ok md, v))
      × (remote sdk host (set_metadata sdk env.metadata_debug vol new) v ≡ (ok written, w))
      × InstanceOf sdk id vol.ai
      × (get "bind_mount" new ≡ get "bind_mount" md)
      × ((local sdk host (unbind_mount host bound target) w).1 ≡ t)

  unpublish-Keeps :
      (target : String) (vol : Volume) (s : Site)
      → InstanceOf sdk id vol.ai
      → Ends (Keeps target) (unpublish sdk host env target vol s)
  unfolding unpublish
  unpublish-Keeps target vol s inst =
      let Q = Keeps target in
      let read = remote sdk host (get_metadata sdk vol) in
      let write = λ (md : Dict String).
        remote sdk host (set_metadata sdk env.metadata_debug vol (without_pod md)) in
      let bound = λ (md : Dict String) (known : List String). record vol {
        bind_mount_paths = some (delete_all (split b',' (get "bind_mount" md)) known);
      } in
      let last = λ (md : Dict String) (known : List String).
        attempt (local sdk host (unbind_mount host (bound md known) target)) >>= λ _.
        pure {S = Site} tt in
      let known_of = deref {S = Site} vol.bind_mount_paths in
      let rest = λ (md : Dict String) (known : List String).
        on_error (as_code env unknown) (write md) >>= λ _. last md known in
      let R = λ (md : Dict String) (v : Site). read s ≡ (ok md, v) in
      bind-Ends R Q (on_error (as_code env unknown) read) (λ md. known_of >>= rest md) s
        (on_error-Ends R (as_code env unknown) read s (here-Ends read s))
        (λ md v e.
          bind-Ends (λ (_ : List String) (x : Site). v ≡ x) Q known_of (rest md) v
            (deref_kept vol.bind_mount_paths v)
            (λ known x k.
              let R2 = λ (written : Dict String) (w : Site). write md x ≡ (ok written, w) in
              bind-Ends R2 Q (on_error (as_code env unknown) (write md)) (λ _. last md known) x
                (on_error-Ends R2 (as_code env unknown) (write md) x (here-Ends (write md) x))
                (λ written w f.
                  attempted-Ends Q (local sdk host (unbind_mount host (bound md known) target)) w (
                    vol,
                    md,
                    without_pod md,
                    s,
                    v,
                    w,
                    written,
                    bound md known,
                    e,
                    rw k f,
                    inst,
                    get-without_pod md,
                    refl,
                  ))))

  -- Unpublishing, if it succeeds, has read the metadata of an app instance that the backend gave for the
  -- volume's id, has then written to it metadata with the entry of the bind mounts as it was read, and
  -- ends by unmounting the target, whatever that answers.
  pub unpublish_body-Keeps :
      (target : String) (s : sdk.State × host.State)
      → Ends (Keeps target) (unpublish_body sdk host env id target s)
  unfolding unpublish_body
  unpublish_body-Keeps target s =
      let Q = Keeps target in
      let no_id =
        fail_if {S = Site} (str_eq id "") (status invalid_argument "VolumeId cannot be empty") in
      let no_target =
        fail_if {S = Site} (str_eq target "")
          (status invalid_argument "TargetPath cannot be empty") in
      let read =
        on_error (as_code env not_found) (remote sdk host (get_volume sdk id false true)) in
      let is_read = λ (u : Site).
        on_error-Ends (λ v (_ : Site). InstanceOf sdk id v.ai) (as_code env not_found)
          (remote sdk host (get_volume sdk id false true)) u
          (remote-Ends sdk host (λ (v : Volume). InstanceOf sdk id v.ai)
            (get_volume sdk id false true) u (get_volume-Ends sdk id false true u.0)) in
      let last = unpublish sdk host env target in
      skip-Ends Q no_id (λ _. no_target >>= λ _. read >>= last) s
        (λ _ t.
          skip-Ends Q no_target (λ _. read >>= last) t
            (λ _ u.
              bind-Ends (λ v (_ : Site). InstanceOf sdk id v.ai) Q read last u (is_read u)
                (λ vol w inst. unpublish-Keeps target vol w inst)))

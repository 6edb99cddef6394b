-- ===== src/Driver/Node/Publish/Recorded.antt =====
-- What a volume's metadata says once it is published.
use datera_csi.Base.{String, ◌≡◌, ◌∙◌, true, false, Option, some, List, str_eq}
use datera_csi.Base.Text.{split, join}
use datera_csi.Base.Dict.{Dict, insert, get, get-insert_same}
use datera_csi.Base.Go.Outcomes.{Ends, bind-Ends, skip-Ends, deref-Ends, here-Ends, on_error-Ends}
use datera_csi.Base.Go.{
  status, invalid_argument, unknown, Result, ok, err, panic, pure, lift, deref, attempt, fail_if,
  on_error, ◌>>=◌,
}
use datera_csi.Client.Sdk.{Sdk}
use datera_csi.Client.Volume.{Volume, string_set, get_volume, get_metadata, set_metadata}
use datera_csi.Client.Volume.Instances.{InstanceOf, get_volume-Ends}
use datera_csi.Client.Host.{Host, remote, local}
use datera_csi.Client.Mount.{bind_mount, bound}
use datera_csi.Client.Mount.Binds.{is_bound}
use datera_csi.Client.Mount.Targets.{bind_mount-Ends, is_bound-bound}
use datera_csi.Driver.Env.{Env, as_code}
use datera_csi.Driver.Capability.{Capability, register_volume_capability}
use datera_csi.Driver.Node.Stage.Steps.{local-Ends}
use datera_csi.Driver.Node.Publish.{published, record_bind, bind, after_read, publish_body}
use datera_csi.Driver.Node.Publish.Entries.{get-with_pod}

module _ (sdk : Sdk) (host : Host) (env : Env) (id : String) where
  abbrev Site : Type 0
  Site = sdk.State × host.State

  -- The last that the call did was to write metadata whose entry of the bind mounts lists a set of
  -- paths with the target, to an app instance that the backend gave for the id.
  abbrev pub Lists : String → Unit {0} → sdk.State × host.State → Type 0
  Lists target _ t =
      (vol : Volume) × (md : Dict String) × (u : sdk.State × host.State) × (written : Dict String)
      × (paths : List String) × (remote sdk host (set_metadata sdk env.metadata_debug vol md) u
          ≡ (ok written, t))
      × InstanceOf sdk id vol.ai
      × (get "bind_mount" md ≡ join "," paths)
      × (is_bound target paths ≡ true)

  record_bind-Ends :
      (target : String) (context : Option (Dict String)) (md : Dict String) (vol : Volume)
      (known : Option (List String)) (u : Site)
      → vol.bind_mount_paths ≡ some (bound target known)
      → InstanceOf sdk id vol.ai
      → Ends (Lists target) (record_bind sdk host env context md vol u)
  unfolding record_bind published
  record_bind-Ends target context md vol known u e inst =
      let new = λ (paths : List String). published paths context md in
      let m = λ (paths : List String).
        remote sdk host (set_metadata sdk env.metadata_debug vol (new paths)) in
      let last = λ (paths : List String).
        on_error (as_code env unknown) (m paths) >>= λ _. pure {S = Site} tt in
      bind-Ends (λ paths (_ : Site). paths ≡ bound target known) (Lists target)
        (deref {S = Site} vol.bind_mount_paths) last u
        (deref-Ends vol.bind_mount_paths (bound target known) u e)
        (λ paths t h.
          let R = λ (written : Dict String) (w : Site). m paths t ≡ (ok written, w) in
          bind-Ends R (Lists target) (on_error (as_code env unknown) (m paths))
            (λ _. pure {S = Site} tt) t
            (on_error-Ends R (as_code env unknown) (m paths) t (here-Ends (m paths) t))
            (λ written w q. (
              vol,
              new paths,
              t,
              written,
              paths,
              q,
              inst,
              get-with_pod context (insert "bind_mount" (join "," paths) md)
                  ∙ get-insert_same "bind_mount" (join "," paths) md,
              rw h (is_bound-bound target known),
            )))

  bind-Lists :
      (target : String) (vc : Capability) (context : Option (Dict String)) (vol : Volume) (s : Site)
      → InstanceOf sdk id vol.ai
      → Ends (Lists target) (bind sdk host env target vc context vol s)
  unfolding bind
  bind-Lists target vc context vol s inst =
      let Q = Lists target in
      let read = on_error (as_code env unknown) (remote sdk host (get_metadata sdk vol)) in
      let register = λ (found : Dict String).
        on_error {S = Site} (as_code env invalid_argument)
          (lift (register_volume_capability (some vc) found)) in
      let vol_of = λ (md : Dict String) (known : List String). record vol {
        bind_mount_paths = some (string_set (split b',' (get "bind_mount" md)) known);
      } in
      let m = λ (md : Dict String) (known : List String).
        bind_mount host (vol_of md known) target (get "fs_type" md) in
      let run = λ (md : Dict String) (known : List String).
        on_error (as_code env unknown) (local sdk host (m md known)) in
      let last = record_bind sdk host env context in
      let known_of = deref {S = Site} vol.bind_mount_paths in
      skip-Ends Q read
        (λ found. register found >>= λ md. known_of >>= λ known. run md known >>= last md) s
        (λ found t.
          skip-Ends Q (register found) (λ md. known_of >>= λ known. run md known >>= last md) t
            (λ md u.
              skip-Ends Q known_of (λ known. run md known >>= last md) u
                (λ known w.
                  let R = λ (v : Volume).
                    (v.bind_mount_paths ≡ some (bound target (vol_of md known).bind_mount_paths))
                    × (v.ai ≡ vol.ai) in
                  bind-Ends (λ v (_ : Site). R v) Q (run md known) (last md) w
                    (on_error-Ends (λ v (_ : Site). R v) (as_code env unknown)
                      (local sdk host (m md known)) w
                      (local-Ends sdk host R (m md known) w
                        (bind_mount-Ends host (vol_of md known) target (get "fs_type" md) w.1)))
                    (λ v x e.
                      record_bind-Ends target context md v (vol_of md known).bind_mount_paths x e.0
                        (rw e.1 inst)))))

  -- The volume, if it was read, stands for an app instance of the id.
  abbrev IsRead : Result Volume → Type 0
  IsRead (ok v) = InstanceOf sdk id v.ai
  IsRead _ = Unit

  remote-IsRead :
      (r : Result Volume) (t : sdk.State) (s : Site)
      → Ends (λ v (_ : sdk.State). InstanceOf sdk id v.ai) (r, t)
      → Ends (λ r (_ : Site). IsRead r) (attempt (remote sdk host (λ (_ : sdk.State). (r, t))) s)
  remote-IsRead (ok v) t s h = h
  remote-IsRead (err e) t s h = tt
  remote-IsRead panic t s h = tt

  after_read-Lists :
      (target : String) (vc : Capability) (context : Option (Dict String)) (vol : Result Volume)
      (s : Site)
      → IsRead vol
      → Ends (Lists target) (after_read sdk host env target (some vc) context vol s)
  unfolding after_read
  after_read-Lists target vc context (ok vol) s inst = bind-Lists target vc context vol s inst
  after_read-Lists target vc context (err e) s h = tt
  after_read-Lists target vc context panic s h = tt

  -- Publishing a volume, if it succeeds, ends by writing metadata to an app instance that the backend
  -- gave for the volume's id, and leaves the backend and the machine as that call left them. The entry of the bind mounts in the metadata written lists
  -- a set of paths that has the target.
  pub publish_body-Lists :
      (path target : String) (vc : Capability) (context : Option (Dict String))
      (s : sdk.State × host.State)
      → Ends (Lists target) (publish_body sdk host env id path target (some vc) context s)
  unfolding publish_body
  publish_body-Lists path target vc context s =
      let Q = Lists target in
      let no_id =
        fail_if {S = Site} (str_eq id "") (status invalid_argument "VolumeId cannot be empty") in
      let no_path =
        fail_if {S = Site} (str_eq path "")
          (status invalid_argument "StagingTargetPath cannot be empty") in
      let no_target =
        fail_if {S = Site} (str_eq target "")
          (status invalid_argument "TargetPath cannot be empty") in
      let read = attempt (remote sdk host (get_volume sdk id false true)) in
      let is_read = λ (w : Site).
        let run = get_volume sdk id false true w.0 in
        remote-IsRead run.0 run.1 w (get_volume-Ends sdk id false true w.0) in
      let last = after_read sdk host env target (some vc) context in
      skip-Ends Q no_id (λ _. no_path >>= λ _. no_target >>= λ _. read >>= last) s
        (λ _ t.
          skip-Ends Q no_path (λ _. no_target >>= λ _. read >>= last) t
            (λ _ u.
              skip-Ends Q no_target (λ _. read >>= last) u
                (λ _ w.
                  bind-Ends (λ r (_ : Site). IsRead r) Q read last w (is_read w)
                    (λ vol x h. after_read-Lists target vc context vol x h))))

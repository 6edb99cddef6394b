-- ===== src/Driver/Node/Stage/Staged.antt =====
-- What a volume's metadata says once it is staged.
use datera_csi.Base.{String, ◌≡◌, ◌∙◌, true, false, not, Option, some, str_eq}
use datera_csi.Base.Dict.{Dict, insert, get, get-insert_same}
use datera_csi.Base.Go.Outcomes.{Ends, bind-Ends, skip-Ends, here-Ends, on_error-Ends}
use datera_csi.Base.Go.{
  unknown, not_found, invalid_argument, status, ok, pure, lift, fail_if, on_error, ◌>>=◌,
}
use datera_csi.Client.Sdk.{Sdk}
use datera_csi.Client.Volume.{Volume, get_volume, get_metadata, online, set_metadata}
use datera_csi.Client.Volume.Views.{online-Ends}
use datera_csi.Client.Volume.Instances.{InstanceOf, get_volume-Ends}
use datera_csi.Client.Acl.{Initiator, register_acl}
use datera_csi.Client.Host.{Host, remote, local}
use datera_csi.Client.Login.{login}
use datera_csi.Client.Login.Devices.{login-Ends}
use datera_csi.Driver.Env.{Env, as_code}
use datera_csi.Driver.Capability.{Capability, register_volume_capability, Access}
use datera_csi.Driver.Node.Stage.{
  stage_body, attach, after_online, after_login, write_back, prepare, node_initiator,
}
use datera_csi.Driver.Node.Stage.Steps.{local-Ends, remote-Ends}
use datera_csi.Driver.Node.Stage.Prepared.{Describes, IsReady, prepare-Ends}

module _ (sdk : Sdk) (host : Host) (env : Env) (id : String) where
  abbrev Site : Type 0
  Site = sdk.State × host.State

  -- The last that the call did was to write metadata that describes the volume, with a device path, to
  -- an app instance that the backend gave for the id.
  abbrev pub Recorded : Access → String → Unit {0} → Site → Type 0
  Recorded access path _ t =
      (vol : Volume) × (md : Dict String) × (u : Site) × (written : Dict String) × (remote sdk host
          (set_metadata sdk env.metadata_debug vol md) u
        ≡ (ok written, t))
      × InstanceOf sdk id vol.ai
      × (str_eq (get "device_path" md) "" ≡ false)
      × Describes access path md

  write_back-Ends :
      (access : Access) (path : String) (vol : Volume) (md : Dict String) (u : Site)
      → IsReady sdk host env access path vol md
      → str_eq vol.device_path "" ≡ false
      → InstanceOf sdk id vol.ai
      → Ends (Recorded access path) (write_back sdk host env vol md u)
  unfolding write_back
  write_back-Ends access path vol md u ready e inst =
      let m = remote sdk host (set_metadata sdk env.metadata_debug vol md) in
      let R = λ (written : Dict String) (t : Site). m u ≡ (ok written, t) in
      bind-Ends R (Recorded access path) (on_error (as_code env unknown) m) (λ _. pure tt) u
        (on_error-Ends R (as_code env unknown) m u (here-Ends m u))
        (λ written t h. (vol, md, u, written, h, inst, rw ready.1 e, ready.0))

  after_login-Ends :
      (access : Access) (path : String) (md : Dict String) (vol : Volume) (s : Site)
      → str_eq vol.device_path "" ≡ false
      → vol.formatted ≡ false
      → InstanceOf sdk id vol.ai
      → Ends (Recorded access path) (after_login sdk host env path access md vol s)
  unfolding after_login
  after_login-Ends access path md vol s e f inst =
      let new = insert "device_path" vol.device_path md in
      bind-Ends (λ new (_ : Site). IsReady sdk host env access path vol new) (Recorded access path)
        (prepare sdk host env access path vol new) (write_back sdk host env vol) s
        (prepare-Ends sdk host env access path vol new s f
          (get-insert_same "device_path" vol.device_path md))
        (λ done t h. write_back-Ends access path vol done t h e inst)

  after_online-Ends :
      (access : Access) (path : String) (chap md : Dict String) (vol : Volume) (s : Site)
      → vol.formatted ≡ false
      → InstanceOf sdk id vol.ai
      → Ends (Recorded access path) (after_online sdk host env path access chap md vol s)
  unfolding after_online
  after_online-Ends access path chap md vol s e inst =
      let robin = str_eq (get "round_robin" md) "true" in
      let m = login host (not env.disable_multipath) robin chap vol in
      let R = λ (v : Volume).
        (str_eq v.device_path "" ≡ false) × (v.formatted ≡ vol.formatted) × (v.ai ≡ vol.ai) in
      bind-Ends (λ v (_ : Site). R v) (Recorded access path)
        (on_error (as_code env unknown) (local sdk host m))
        (after_login sdk host env path access md) s
        (on_error-Ends (λ v (_ : Site). R v) (as_code env unknown) (local sdk host m) s
          (local-Ends sdk host R m s
            (login-Ends host vol (not env.disable_multipath) robin chap s.1)))
        (λ v t h. after_login-Ends access path md v t h.0 (h.1 ∙ e) (rw h.2 inst))

  attach-Recorded :
      (access : Access) (path : String) (chap md : Dict String) (vol : Volume)
      (s : sdk.State × host.State)
      → InstanceOf sdk id vol.ai
      → Ends (Recorded access path) (attach sdk host env path access chap vol md s)
  unfolding attach
  attach-Recorded access path chap md vol s inst =
      let Q = Recorded access path in
      let Fresh = λ (v : Volume). (v.formatted ≡ false) × InstanceOf sdk id v.ai in
      let admit = λ (init : Option Initiator).
        on_error (as_code env unknown) (remote sdk host (register_acl sdk vol init)) in
      let raise = on_error (as_code env unknown) (remote sdk host (online sdk vol)) in
      let last = after_online sdk host env path access chap md in
      skip-Ends Q (on_error (as_code env unknown) (node_initiator sdk host env))
        (λ init. admit init >>= λ _. raise >>= last) s
        (λ init t.
          skip-Ends Q (admit init) (λ _. raise >>= last) t
            (λ _ u.
              bind-Ends (λ (v : Volume) (_ : Site). Fresh v) Q raise last u
                (on_error-Ends (λ (v : Volume) (_ : Site). Fresh v) (as_code env unknown)
                  (remote sdk host (online sdk vol)) u
                  (remote-Ends sdk host Fresh (online sdk vol) u (online-Ends sdk id vol u.0 inst)))
                (λ v w h. after_online-Ends access path chap md v w h.0 h.1)))

  -- Staging a volume for a capability, if it succeeds, ends by writing metadata to an app instance that
  -- the backend gave for the volume's id, or gave when that was loaded again, and leaves the backend and
  -- the machine as that call left them. The metadata written has a device path
  -- that is not empty; for a mounted volume it has the staging path as the mount path and counts as
  -- formatted, and for a block device its mount path is the device path.
  pub stage_body-Recorded :
      (path : String) (vc : Capability) (chap : Dict String) (s : sdk.State × host.State)
      → Ends (Recorded vc.access path) (stage_body sdk host env id path (some vc) chap s)
  unfolding stage_body
  stage_body-Recorded path vc chap s =
      let Q = Recorded vc.access path in
      let no_id =
        fail_if {S = Site} (str_eq id "") (status invalid_argument "VolumeId cannot be empty") in
      let no_path = fail_if {S = Site} (str_eq path "") (
        status invalid_argument
          "StagingTargetPath cannot be empty. Kubelet on the worker node is responsible for creating this StagingTargetPath directory.") in
      let read =
        on_error (as_code env not_found) (remote sdk host (get_volume sdk id false true)) in
      let is_read = λ (u : Site).
        on_error-Ends (λ v (_ : Site). InstanceOf sdk id v.ai) (as_code env not_found)
          (remote sdk host (get_volume sdk id false true)) u
          (remote-Ends sdk host (λ (v : Volume). InstanceOf sdk id v.ai)
            (get_volume sdk id false true) u (get_volume-Ends sdk id false true u.0)) in
      let md_of =
        λ (vol : Volume). on_error (as_code env unknown) (remote sdk host (get_metadata sdk vol)) in
      let register = λ (found : Dict String).
        on_error {S = Site} (as_code env invalid_argument)
          (lift (register_volume_capability (some vc) found)) in
      let last = attach sdk host env path vc.access chap in
      let rest = λ (vol : Volume). md_of vol >>= λ found. register found >>= last vol in
      skip-Ends Q no_id (λ _. no_path >>= λ _. read >>= rest) s
        (λ _ t.
          skip-Ends Q no_path (λ _. read >>= rest) t
            (λ _ u.
              bind-Ends (λ v (_ : Site). InstanceOf sdk id v.ai) Q read rest u (is_read u)
                (λ vol v inst.
                  skip-Ends Q (md_of vol) (λ found. register found >>= last vol) v
                    (λ found w.
                      skip-Ends Q (register found) (last vol) w
                        (λ md x. attach-Recorded vc.access path chap md vol x inst)))))

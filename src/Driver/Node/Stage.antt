-- ===== src/Driver/Node/Stage.antt =====
-- `NodeStageVolume` and `NodeUnstageVolume` of pkg/driver/node.go, behind their guard.
pub mod Steps
pub mod Prepared
pub mod Staged
pub mod Unstaged
use datera_csi.Base.{
  String, Bool, true, false, not, ◌&&◌, Option, none, some, List, [], ◌∷◌, str_eq, if◌then◌else◌,
}
use datera_csi.Base.Text.{split}
use datera_csi.Base.Dict.{Dict, insert, get}
use datera_csi.Base.Go.{
  status, invalid_argument, not_found, unknown, Result, ok, err, panic, Action, pure, throw, lift,
  attempt, when, fail_if, on_error, ◌>>=◌, ◌>>◌,
}
use datera_csi.Common.Name.{gen_name}
use datera_csi.Client.Sdk.{Sdk}
use datera_csi.Client.Volume.{Volume, get_volume, get_metadata, set_metadata, online, delete}
use datera_csi.Client.Acl.{Initiator, create_get_initiator, register_acl, unregister_acl}
use datera_csi.Client.Host.{Host, remote, local}
use datera_csi.Client.Format.{format_volume}
use datera_csi.Client.Mount.{mount_volume, unmount_volume}
use datera_csi.Client.Login.{login, logout}
use datera_csi.Driver.Env.{Env, as_code}
use datera_csi.Driver.Capability.{
  Access, mount, block, unset, Capability, register_volume_capability,
}

-- `DefaultFsArgs[fsType]`
unfoldable pub default_fs_args : String → List String
default_fs_args fs =
    if str_eq fs "ext4"
    then split b' ' "-E lazy_itable_init=0,lazy_journal_init=0,nodiscard -F"
    else []

-- `strings.Split((*md)["fs_args"], " ")`, or the default if that has no parts.
unfoldable pub stage_fs_args : Dict String → String → List String
unfolding default_fs_args
stage_fs_args md fs = elim (split b' ' (get "fs_args" md)) [
  | [] ↦ default_fs_args fs
  | arg ∷ args ↦ arg ∷ args
]

-- `fsType := (*md)["fs_type"]`, ext4 if it is empty.
unfoldable pub stage_fs_type : Dict String → String
stage_fs_type md = if str_eq (get "fs_type" md) "" then "ext4" else get "fs_type" md

-- What is left of a call whose error is logged.
abbrev pub or_else {ℓ} : {A : Type ℓ} → A → Result A → A
or_else a (ok b) = b
or_else a _ = a

-- `if vc == nil { return nil, status.Errorf(...) }`
abbrev needed : {S : Type 0} → Option Capability → Action S Capability
needed none = throw (status invalid_argument "VolumeCapability cannot be nil")
needed (some vc) = pure vc

abbrev got_initiator : Result (Option Initiator) → Option Initiator
got_initiator (ok init) = init
got_initiator _ = none

module _ (sdk : Sdk) (host : Host) (env : Env) where
  -- `d.dc.CreateGetInitiator()`, which reads the initiator's name on this machine.
  unfoldable pub node_initiator : Action (sdk.State × host.State) (Option Initiator)
  node_initiator = do
    file ← local sdk host (λ s. let (r, t) = host.initiator_file s in (ok r, t))
    remote sdk host (create_get_initiator sdk file (gen_name env.rune_cap env.fresh_id ""))

  -- `if !vol.Formatted && (*md)["formatted"] != "true" { ... }`
  format_new : Volume → Dict String → Action (sdk.State × host.State) (Volume × Dict String)
  format_new vol md =
      if not vol.formatted && not (str_eq (get "formatted" md) "true")
      then (do
        vol ← on_error (as_code env unknown) (
            local sdk host (
              format_volume host vol (stage_fs_type md) (stage_fs_args md (stage_fs_type md))
                env.format_timeout))
        pure (record vol { formatted = true }, insert "formatted" "true" md))
      else pure (vol, md)

  -- The volume is made ready as the capability asks; the result is its metadata.
  unfoldable pub prepare :
      Access → String → Volume → Dict String → Action (sdk.State × host.State) (Dict String)
  unfolding format_new
  prepare (mount _ _) path vol md = do
    (vol, md) ← format_new vol md
    vol ← on_error (as_code env unknown) (
        local sdk host
          (mount_volume host vol path (split b' ' (get "m_args" md)) (stage_fs_type md)))
    pure (insert "mount_path" vol.mount_path md)
  prepare block path vol md = pure (insert "mount_path" vol.device_path md)
  prepare unset path vol md = throw (status invalid_argument "Unknown volume capability")

  -- `vol.SetMetadata(md)`, with its error as that of the call
  write_back : Volume → Dict String → Action (sdk.State × host.State) (Unit {0})
  write_back vol md = do
    on_error (as_code env unknown) (remote sdk host (set_metadata sdk env.metadata_debug vol md))
    pure tt

  -- After the login.
  after_login : String → Access → Dict String → Volume → Action (sdk.State × host.State) (Unit {0})
  unfolding prepare write_back
  after_login path access md vol = do
    md ← prepare access path vol (insert "device_path" vol.device_path md)
    write_back vol md

  -- After the volume is online.
  after_online :
      String
      → Access
      → Dict String
      → Dict String
      → Volume
      → Action (sdk.State × host.State) (Unit {0})
  unfolding after_login
  after_online path access chap md vol = do
    vol ← on_error (as_code env unknown) (
        local sdk host
          (login host (not env.disable_multipath) (str_eq (get "round_robin" md) "true") chap vol))
    after_login path access md vol

  -- After the metadata has the capability.
  unfoldable pub attach :
      String
      → Access
      → Dict String
      → Volume
      → Dict String
      → Action (sdk.State × host.State) (Unit {0})
  unfolding after_online
  attach path access chap vol md = do
    init ← on_error (as_code env unknown) node_initiator
    on_error (as_code env unknown) (remote sdk host (register_acl sdk vol init))
    vol ← on_error (as_code env unknown) (remote sdk host (online sdk vol))
    after_online path access chap md vol

  unfoldable pub stage_body :
      String → String → Option Capability → Dict String → Action (sdk.State × host.State) (Unit {0})
  stage_body volume_id path capability chap = do
    fail_if (str_eq volume_id "") (status invalid_argument "VolumeId cannot be empty")
    fail_if (str_eq path "") (
        status invalid_argument
          "StagingTargetPath cannot be empty. Kubelet on the worker node is responsible for creating this StagingTargetPath directory.")
    vc ← needed capability
    vol ← on_error (as_code env not_found) (remote sdk host (get_volume sdk volume_id false true))
    found ← on_error (as_code env unknown) (remote sdk host (get_metadata sdk vol))
    md ← on_error (as_code env invalid_argument) (lift (register_volume_capability (some vc) found))
    attach path vc.access chap vol md

  -- The steps of `NodeUnstageVolume` after the volume is found, from the last to the first. Each logs
  -- its error and goes on; `md` is the metadata that the call wrote.
  delete_if : Volume → Dict String → Action (sdk.State × host.State) (Unit {0})
  delete_if vol md =
      when (str_eq (get "delete_on_unmount" md) "true")
        (attempt (remote sdk host (delete sdk vol false)))

  withdraw : Volume → Dict String → Option Initiator → Action (sdk.State × host.State) (Unit {0})
  unfolding delete_if
  withdraw vol md init = do
    attempt (remote sdk host (unregister_acl sdk vol init))
    delete_if vol md

  give_up : Volume → Dict String → Action (sdk.State × host.State) (Unit {0})
  unfolding withdraw
  give_up vol md = do init ← attempt node_initiator; withdraw vol md (got_initiator init)

  leave : Volume → Dict String → Action (sdk.State × host.State) (Unit {0})
  unfolding give_up
  leave vol md = do out ← attempt (local sdk host (logout host vol)); give_up (or_else vol out) md

  forget : Volume → Dict String → Action (sdk.State × host.State) (Unit {0})
  unfolding leave
  forget vol md = do
    attempt (remote sdk host (set_metadata sdk env.metadata_debug vol md))
    leave vol md

  after_unmount : Volume → Action (sdk.State × host.State) (Unit {0})
  unfolding forget
  after_unmount vol = do
    found ← attempt (remote sdk host (get_metadata sdk vol))
    forget vol (insert "mount_path" "" (or_else [] found))

  unfoldable pub detach : Volume → Action (sdk.State × host.State) (Unit {0})
  unfolding after_unmount
  detach vol = do
    out ← attempt (local sdk host (unmount_volume host vol))
    after_unmount (or_else vol out)

  unfoldable pub unstage_body : String → String → Action (sdk.State × host.State) (Unit {0})
  unfolding detach
  unstage_body volume_id path = do
    fail_if (str_eq volume_id "") (status invalid_argument "VolumeId cannot be empty")
    fail_if (str_eq path "") (status invalid_argument "StagingTargetPath cannot be empty")
    vol ← on_error (as_code env not_found) (remote sdk host (get_volume sdk volume_id false true))
    detach vol

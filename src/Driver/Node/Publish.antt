-- ===== src/Driver/Node/Publish.antt =====
-- `NodePublishVolume` and `NodeUnpublishVolume` of pkg/driver/node.go, behind their guard.
pub mod Entries
pub mod Recorded
pub mod Kept
use datera_csi.Base.{
  String, Bool, true, false, Option, none, some, List, [], ◌∷◌, str_eq, if◌then◌else◌,
}
use datera_csi.Base.Text.{split, join}
use datera_csi.Base.Dict.{Dict, insert, get}
use datera_csi.Base.Go.{
  status, invalid_argument, not_found, unknown, Result, ok, err, panic, Action, pure, throw, crash,
  lift, deref, attempt, fail_if, on_error, ◌>>=◌, ◌>>◌,
}
use datera_csi.Client.Sdk.{Sdk}
use datera_csi.Client.Volume.{Volume, string_set, get_volume, get_metadata, set_metadata}
use datera_csi.Client.Host.{Host, remote, local}
use datera_csi.Client.Mount.{bind_mount, unbind_mount, delete_from_set}
use datera_csi.Driver.Env.{Env, as_code}
use datera_csi.Driver.Capability.{Capability, register_volume_capability}

-- `if v != "" { (*md)[key] = v }`
abbrev record_entry : String → String → Dict String → Dict String
record_entry key v md = if str_eq v "" then md else insert key v md

-- The pod that the volume is published for, from the volume context.
unfoldable pub with_pod : Option (Dict String) → Dict String → Dict String
with_pod none md = md
with_pod (some context) md =
    record_entry "k8s_service_account" (get "csi.storage.k8s.io/serviceAccount.name" context) (
      record_entry "pod_uid" (get "csi.storage.k8s.io/pod.uid" context) (
        record_entry "pod_namespace" (get "csi.storage.k8s.io/pod.namespace" context)
          (record_entry "pod_name" (get "csi.storage.k8s.io/pod.name" context) md)))

-- `(*md)["bind_mount"] = strings.Join(vol.BindMountPaths.List(), ",")`, then the pod. The list of a set
-- is in some order.
unfoldable pub published : List String → Option (Dict String) → Dict String → Dict String
unfolding with_pod
published paths context md = with_pod context (insert "bind_mount" (join "," paths) md)

unfoldable pub without_pod : Dict String → Dict String
without_pod md =
    insert "k8s_service_account" ""
      (insert "pod_uid" "" (insert "pod_namespace" "" (insert "pod_name" "" md)))

-- `for _, bm := range strings.Split((*md)["bind_mount"], ",") { vol.BindMountPaths.Delete(bm) }`
unfoldable pub delete_all : List String → List String → List String
delete_all [] set = set
delete_all (x ∷ xs) set = delete_all xs (delete_from_set x set)

module _ (sdk : Sdk) (host : Host) (env : Env) where
  -- The new set of bind mounts and the pod are written to the metadata.
  record_bind :
      Option (Dict String) → Dict String → Volume → Action (sdk.State × host.State) (Unit {0})
  unfolding published
  record_bind context md vol = do
    paths ← deref vol.bind_mount_paths
    on_error (as_code env unknown)
        (remote sdk host (set_metadata sdk env.metadata_debug vol (published paths context md)))
    pure tt

  unfoldable pub bind :
      String
      → Capability
      → Option (Dict String)
      → Volume
      → Action (sdk.State × host.State) (Unit {0})
  unfolding record_bind
  bind target vc context vol = do
    found ← on_error (as_code env unknown) (remote sdk host (get_metadata sdk vol))
    md ← on_error (as_code env invalid_argument) (lift (register_volume_capability (some vc) found))
    known ← deref vol.bind_mount_paths
    vol ← on_error (as_code env unknown) (
        local sdk host (
          bind_mount host
            (record vol {
              bind_mount_paths = some (string_set (split b',' (get "bind_mount" md)) known);
            })
            target (get "fs_type" md)))
    record_bind context md vol

  -- `vol` is nil if the volume was not read: its error is not looked at.
  after_read :
      String
      → Option Capability
      → Option (Dict String)
      → Result Volume
      → Action (sdk.State × host.State) (Unit {0})
  unfolding bind
  after_read target none context vol =
      throw (status invalid_argument "VolumeCapability cannot be nil")
  after_read target (some vc) context (ok vol) = bind target vc context vol
  after_read target (some vc) context _ = crash

  unfoldable pub publish_body :
      String
      → String
      → String
      → Option Capability
      → Option (Dict String)
      → Action (sdk.State × host.State) (Unit {0})
  unfolding after_read
  publish_body volume_id path target vc context = do
    fail_if (str_eq volume_id "") (status invalid_argument "VolumeId cannot be empty")
    fail_if (str_eq path "") (status invalid_argument "StagingTargetPath cannot be empty")
    fail_if (str_eq target "") (status invalid_argument "TargetPath cannot be empty")
    vol ← attempt (remote sdk host (get_volume sdk volume_id false true))
    after_read target vc context vol

  -- `NodeUnpublishVolume` after the volume is found.
  unfoldable pub unpublish : String → Volume → Action (sdk.State × host.State) (Unit {0})
  unfolding without_pod delete_all
  unpublish target vol = do
    md ← on_error (as_code env unknown) (remote sdk host (get_metadata sdk vol))
    known ← deref vol.bind_mount_paths
    on_error (as_code env unknown)
        (remote sdk host (set_metadata sdk env.metadata_debug vol (without_pod md)))
    attempt (
        local sdk host (
          unbind_mount host
            (record vol {
              bind_mount_paths = some (delete_all (split b',' (get "bind_mount" md)) known);
            })
            target))
    pure tt

  unfoldable pub unpublish_body : String → String → Action (sdk.State × host.State) (Unit {0})
  unfolding unpublish
  unpublish_body volume_id target = do
    fail_if (str_eq volume_id "") (status invalid_argument "VolumeId cannot be empty")
    fail_if (str_eq target "") (status invalid_argument "TargetPath cannot be empty")
    vol ← on_error (as_code env not_found) (remote sdk host (get_volume sdk volume_id false true))
    unpublish target vol

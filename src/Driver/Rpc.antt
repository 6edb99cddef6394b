-- ===== src/Driver/Rpc.antt =====
-- The methods of the controller service, pkg/driver/controller.go: each stands behind the guard of
-- `InitFunc`. `shown` is the request as `fmt.Sprintf("%+v", req)` writes it; `CreateVolume` and
-- `DeleteVolume` take the secrets out of it first.
use datera_csi.Base.{String, Bool, Option, List, [], ◌∷◌}
use datera_csi.Base.Int.{ℤ}
use datera_csi.Base.Dict.{Dict}
use datera_csi.Base.Go.{Action, pure}
use datera_csi.Client.Sdk.{Sdk}
use datera_csi.Driver.Env.{Env}
use datera_csi.Driver.Guard.{World, request_key, guarded}
use datera_csi.Driver.Capability.{Capability}
use datera_csi.Driver.CreateVolume.{CapacityRange, CreateVolumeRequest, VolumeReply, create_body}
use datera_csi.Driver.Volumes.{
  Entry, delete_body, validate_body, list_volumes_body, get_capacity_body, expand_body,
  not_implemented,
}
use datera_csi.Driver.Snapshots.{
  SnapshotReply, create_snapshot_body, delete_snapshot_body, list_snapshots_body,
}

-- `csi.ControllerServiceCapability_RPC_Type`, those that the service has
pub data ControllerCapability : Type 0 where
  can_list_volumes create_delete_volume can_get_capacity create_delete_snapshot :
      ControllerCapability
  can_list_snapshots clone_volume expand_volume : ControllerCapability

module _ (sdk : Sdk) (env : Env) where
  unfoldable pub create_volume_rpc :
      String → CreateVolumeRequest → Action (World sdk.State) VolumeReply
  create_volume_rpc shown req =
      guarded (request_key "controller" "CreateVolume" shown) (create_body sdk env req)

  unfoldable pub delete_volume_rpc : String → String → Action (World sdk.State) (Unit {0})
  delete_volume_rpc shown volume_id =
      guarded (request_key "controller" "DeleteVolume" shown) (delete_body sdk env volume_id)

  unfoldable pub controller_publish_volume : String → Action (World sdk.State) (Unit {0})
  controller_publish_volume shown =
      guarded (request_key "controller" "ControllerPublishVolume" shown)
        (not_implemented sdk env "ControllerPublishVolume Not Implemented")

  unfoldable pub controller_unpublish_volume : String → Action (World sdk.State) (Unit {0})
  controller_unpublish_volume shown =
      guarded (request_key "controller" "ControllerUnpublishVolume" shown)
        (not_implemented sdk env "ControllerUnPublishVolume Not Implemented")

  unfoldable pub validate_volume_capabilities :
      String → String → Bool → Action (World sdk.State) (List Capability)
  validate_volume_capabilities shown volume_id has_capabilities =
      guarded (request_key "controller" "ValidateVolumeCapabilities" shown)
        (validate_body sdk env volume_id has_capabilities)

  unfoldable pub list_volumes_rpc : String → ℤ → String → Action (World sdk.State) (List Entry)
  list_volumes_rpc shown max_entries token =
      guarded (request_key "controller" "ListVolumes" shown)
        (list_volumes_body sdk env max_entries token)

  unfoldable pub get_capacity : String → Dict String → Action (World sdk.State) ℤ
  get_capacity shown parameters =
      guarded (request_key "controller" "GetCapacity" shown) (get_capacity_body sdk env parameters)

  unfoldable pub create_snapshot_rpc :
      String → String → String → Dict String → Action (World sdk.State) SnapshotReply
  create_snapshot_rpc shown source_volume_id name parameters =
      guarded (request_key "controller" "CreateSnapshot" shown)
        (create_snapshot_body sdk env source_volume_id name parameters)

  unfoldable pub delete_snapshot_rpc : String → String → Action (World sdk.State) (Unit {0})
  delete_snapshot_rpc shown snapshot_id =
      guarded (request_key "controller" "DeleteSnapshot" shown)
        (delete_snapshot_body sdk env snapshot_id)

  unfoldable pub list_snapshots_rpc :
      String → String → String → ℤ → String → Action (World sdk.State) (List SnapshotReply × String)
  list_snapshots_rpc shown snapshot_id source_volume_id max_entries token =
      guarded (request_key "controller" "ListSnapshots" shown)
        (list_snapshots_body sdk env snapshot_id source_volume_id max_entries token)

  unfoldable pub controller_expand_volume :
      String → String → Option CapacityRange → Action (World sdk.State) ℤ
  controller_expand_volume shown volume_id cr =
      guarded (request_key "controller" "ControllerExpandVolume" shown)
        (expand_body sdk env volume_id cr)

  unfoldable pub controller_get_capabilities :
      String → Action (World sdk.State) (List ControllerCapability)
  controller_get_capabilities shown =
      guarded (request_key "controller" "ControllerGetCapabilities" shown) (
        pure (
          can_list_volumes ∷ create_delete_volume ∷ can_get_capacity ∷ create_delete_snapshot
          ∷ can_list_snapshots ∷ clone_volume ∷ expand_volume ∷ []))

-- ===== src/Driver/Node.antt =====
-- The methods of the node service, pkg/driver/node.go: each stands behind the guard of `InitFunc`.
-- `shown` is the request as `fmt.Sprintf("%+v", req)` writes it; `NodeStageVolume` takes the secrets
-- out of it first.
pub mod Stage
pub mod Publish
pub mod Usage
use datera_csi.Base.{String, Option, List, [], ◌∷◌}
use datera_csi.Base.Int.{ℤ}
use datera_csi.Base.Dict.{Dict}
use datera_csi.Base.Go.{Action, pure}
use datera_csi.Common.Chap.{strip}
use datera_csi.Client.Sdk.{Sdk}
use datera_csi.Client.Host.{Host}
use datera_csi.Driver.Env.{Env}
use datera_csi.Driver.Guard.{World, request_key, guarded}
use datera_csi.Driver.Capability.{Capability}
use datera_csi.Driver.CreateVolume.{CapacityRange}
use datera_csi.Driver.Node.Stage.{stage_body, unstage_body}
use datera_csi.Driver.Node.Publish.{publish_body, unpublish_body}
use datera_csi.Driver.Node.Usage.{VolumeUsage, stats_body, node_expand_body}

-- `csi.NodeServiceCapability_RPC_Type`, those that the service has
pub data NodeCapability : Type 0 where
  stage_unstage_volume get_volume_stats expand_volume : NodeCapability

-- `csi.NodeGetInfoResponse`
pub record NodeInfo : Type 0 where
  pub node_id : String
  pub max_volumes_per_node : ℤ

module _ (sdk : Sdk) (host : Host) (env : Env) where
  abbrev Call {ℓ} : Type ℓ → Type ℓ
  Call A = Action (World (sdk.State × host.State)) A

  unfoldable pub node_stage_volume :
      String → String → String → Option Capability → Dict String → Call (Unit {0})
  node_stage_volume shown volume_id path vc secrets =
      guarded (request_key "node" "NodeStageVolume" shown)
        (stage_body sdk host env volume_id path vc (strip secrets).1)

  unfoldable pub node_unstage_volume : String → String → String → Call (Unit {0})
  node_unstage_volume shown volume_id path =
      guarded (request_key "node" "NodeUnstageVolume" shown)
        (unstage_body sdk host env volume_id path)

  unfoldable pub node_publish_volume :
      String → String → String → String → Option Capability → Option (Dict String) → Call (Unit {0})
  node_publish_volume shown volume_id path target vc context =
      guarded (request_key "node" "NodePublishVolume" shown)
        (publish_body sdk host env volume_id path target vc context)

  unfoldable pub node_unpublish_volume : String → String → String → Call (Unit {0})
  node_unpublish_volume shown volume_id target =
      guarded (request_key "node" "NodeUnpublishVolume" shown)
        (unpublish_body sdk host env volume_id target)

  -- The name in the key is that of `NodeGetVolumeStats`.
  unfoldable pub node_get_capabilities : String → Call (List NodeCapability)
  node_get_capabilities shown =
      guarded (request_key "node" "NodeGetVolumeStats" shown)
        (pure (stage_unstage_volume ∷ get_volume_stats ∷ expand_volume ∷ []))

  unfoldable pub node_get_info : String → Call NodeInfo
  node_get_info shown =
      guarded (request_key "node" "NodeGetInfo" shown)
        (pure (record { node_id = env.nid; max_volumes_per_node = env.vol_per_node }))

  unfoldable pub node_get_volume_stats : String → String → Call VolumeUsage
  node_get_volume_stats shown volume_id =
      guarded (request_key "node" "NodeGetVolumeStats" shown) (stats_body sdk host env volume_id)

  unfoldable pub node_expand_volume : String → String → String → Option CapacityRange → Call ℤ
  node_expand_volume shown volume_id path range =
      guarded (request_key "node" "NodeExpandVolume" shown)
        (node_expand_body sdk host env volume_id path range)

-- ===== src/Driver/Node/Usage.antt =====
-- `NodeGetVolumeStats` and `NodeExpandVolume` of pkg/driver/node.go, behind their guard.
pub mod Grown
use datera_csi.Base.{String, false, Option}
use datera_csi.Base.Int.{ℤ, pos, quot_ℤ, gib}
use datera_csi.Base.Dict.{get}
use datera_csi.Base.Go.{
  not_found, unknown, failed_precondition, Action, pure, lift, deref, on_error, ◌>>=◌, ◌>>◌,
}
use datera_csi.Client.Sdk.{Sdk}
use datera_csi.Client.Volume.{get_volume, get_metadata, get_usage}
use datera_csi.Client.Host.{Host, remote, local}
use datera_csi.Client.ExpandFs.{expand_volume_fs}
use datera_csi.Driver.Env.{Env, as_code}
use datera_csi.Driver.CreateVolume.{CapacityRange, fill_limit, to_bytes}

-- `csi.VolumeUsage`, in bytes
pub record VolumeUsage : Type 0 where
  pub available : ℤ
  pub total : ℤ
  pub used : ℤ

unfoldable pub usage_of : ℤ × ℤ × ℤ → VolumeUsage
usage_of (size, used, avail) = record {
  available = to_bytes avail;
  total = to_bytes size;
  used = to_bytes used;
}

module _ (sdk : Sdk) (host : Host) (env : Env) where
  unfoldable pub stats_body : String → Action (sdk.State × host.State) VolumeUsage
  unfolding usage_of
  stats_body volume_id = do
    v ← on_error (as_code env not_found) (remote sdk host (get_volume sdk volume_id false false))
    usage ← lift (get_usage v)
    pure (usage_of usage)

  -- The bytes that were asked for are reported. A request without a range is read through nil.
  unfoldable pub node_expand_body :
      String → String → Option CapacityRange → Action (sdk.State × host.State) ℤ
  node_expand_body volume_id path range = do
    v ← on_error (as_code env not_found) (remote sdk host (get_volume sdk volume_id false false))
    md ← on_error (as_code env unknown) (remote sdk host (get_metadata sdk v))
    cr ← deref range
    on_error (as_code env failed_precondition) (
        local sdk host (
          expand_volume_fs host path (get "fs_type" md)
            (quot_ℤ (fill_limit cr).required (pos gib))))
    pure (fill_limit cr).required

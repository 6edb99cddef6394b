-- ===== src/Client/Policy.antt =====
-- `VolOpts` and `SetPerformancePolicy` of pkg/client/volume.go: the limits on a volume's traffic.
pub mod Caps
use datera_csi.Base.{String, Bool, some, List, if◌then◌else◌}
use datera_csi.Base.Int.{ℤ, pos, ◌*ℤ◌, wrap64, ltb_ℤ, eqb_ℤ}
use datera_csi.Base.Go.{Action, pure, lift, deref, ◌>>=◌}
use datera_csi.Client.Sdk.{PerformancePolicy, Sdk, call}
use datera_csi.Client.Volume.{Volume, backend_volume}

pub record VolOpts : Type 0 where
  pub size : ℤ
  pub replica : ℤ
  pub template : String
  pub fs_type : String
  pub fs_args : List String
  pub placement_mode : String
  pub placement_policy : String
  pub clone_src : String
  pub clone_vol_src : String
  pub clone_snap_src : String
  pub ip_pool : String
  pub round_robin : Bool
  pub delete_on_unmount : Bool
  pub disable_template_override : Bool
  pub write_iops_max : ℤ
  pub read_iops_max : ℤ
  pub total_iops_max : ℤ
  pub write_bandwidth_max : ℤ
  pub read_bandwidth_max : ℤ
  pub total_bandwidth_max : ℤ
  pub iops_per_gb : ℤ
  pub bandwidth_per_gb : ℤ

-- `if perGb != 0 {x := perGb * size; if x < max {max = x } }`
unfoldable pub capped : ℤ → ℤ → ℤ → ℤ
capped max per_gb size =
    if eqb_ℤ per_gb (pos 0)
    then max
    else if ltb_ℤ (wrap64 (per_gb *ℤ size)) max
    then wrap64 (per_gb *ℤ size)
    else max

-- The policy that is requested.
unfoldable pub policy_of : VolOpts → PerformancePolicy
unfolding capped
policy_of o = record {
  read_iops_max = o.read_iops_max;
  write_iops_max = o.write_iops_max;
  total_iops_max = capped o.total_iops_max o.iops_per_gb o.size;
  read_bandwidth_max = o.read_bandwidth_max;
  write_bandwidth_max = o.write_bandwidth_max;
  total_bandwidth_max = capped o.total_bandwidth_max o.bandwidth_per_gb o.size;
}

-- `(*Volume).SetPerformancePolicy`: the volume takes over the limits that the backend answers.
unfoldable pub set_performance_policy : (sdk : Sdk) → Volume → VolOpts → Action sdk.State Volume
unfolding policy_of
set_performance_policy sdk vol o = do
  v ← lift (backend_volume vol.ai)
  answered ← call (sdk.create_policy v (policy_of o))
  pp ← deref answered
  pure (record vol { qos = some pp })

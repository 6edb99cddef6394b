-- ===== src/Driver/Params.antt =====
-- `parseVolParams` and `parseSnapParams` of pkg/driver/controller.go.
pub mod Defaults
pub mod Laws
use datera_csi.Base.{String, Bool, false, Option, none, some, List, [], ◌∷◌}
use datera_csi.Base.Int.{ℤ, pos}
use datera_csi.Base.Num.{Parsed, value, refused, parse_int, parse_bool, num_error_text}
use datera_csi.Base.Dict.{Dict, lookup, insert, get}
use datera_csi.Base.Go.{Result, ok, err, plain}
use datera_csi.Base.Res.{◌>>=◌}
use datera_csi.Client.Policy.{VolOpts}
use datera_csi.Client.Snapshots.{SnapOpts}

-- `if _, ok := params[key]; !ok { params[key] = def }`
unfoldable pub set_default : String → String → Dict String → Dict String
set_default key def params = elim (lookup key params) [
  | none ↦ insert key def params
  | some _ ↦ params
]

unfoldable pub vol_defaults : Dict String → Dict String
unfolding set_default
vol_defaults params = set_default "delete_on_unmount" "false" (
    set_default "total_bandwidth_max" "0" (
      set_default "write_bandwidth_max" "0" (
        set_default "read_bandwidth_max" "0" (
          set_default "total_iops_max" "0" (
            set_default "write_iops_max" "0" (
              set_default "read_iops_max" "0" (
                set_default "disable_template_override" "false" (
                  set_default "template" "" (
                    set_default "ip_pool" "default" (
                      set_default "replica_count" "3" (
                        set_default "round_robin" "false" (
                          set_default "placement_policy" "default" (
                            set_default "placement_mode" "hybrid" (
                              set_default "bandwidth_per_gb" "0"
                                (set_default "iops_per_gb" "0" params)))))))))))))))

unfoldable pub int_param : String → Dict String → Result ℤ
int_param key params = elim (parse_int (get key params)) [
  | value n ↦ ok n
  | refused e ↦ err (plain (num_error_text "ParseInt" (get key params) e))
]

unfoldable pub bool_param : String → Dict String → Result Bool
bool_param key params = elim (parse_bool (get key params)) [
  | value b ↦ ok b
  | refused e ↦ err (plain (num_error_text "ParseBool" (get key params) e))
]

unfoldable pub read_params : Dict String → Result VolOpts
read_params p = do
  iops_per_gb ← int_param "iops_per_gb" p
  bandwidth_per_gb ← int_param "bandwidth_per_gb" p
  round_robin ← bool_param "round_robin" p
  replica ← int_param "replica_count" p
  disable_template_override ← bool_param "disable_template_override" p
  read_iops_max ← int_param "read_iops_max" p
  write_iops_max ← int_param "write_iops_max" p
  total_iops_max ← int_param "total_iops_max" p
  read_bandwidth_max ← int_param "read_bandwidth_max" p
  write_bandwidth_max ← int_param "write_bandwidth_max" p
  total_bandwidth_max ← int_param "total_bandwidth_max" p
  delete_on_unmount ← bool_param "delete_on_unmount" p
  ok (record {
    size = pos 0;
    replica = replica;
    template = get "template" p;
    fs_type = "";
    fs_args = [];
    placement_mode = get "placement_mode" p;
    placement_policy = get "placement_policy" p;
    clone_src = "";
    clone_vol_src = "";
    clone_snap_src = "";
    ip_pool = get "ip_pool" p;
    round_robin = round_robin;
    delete_on_unmount = delete_on_unmount;
    disable_template_override = disable_template_override;
    write_iops_max = write_iops_max;
    read_iops_max = read_iops_max;
    total_iops_max = total_iops_max;
    write_bandwidth_max = write_bandwidth_max;
    read_bandwidth_max = read_bandwidth_max;
    total_bandwidth_max = total_bandwidth_max;
    iops_per_gb = iops_per_gb;
    bandwidth_per_gb = bandwidth_per_gb;
  })

-- A nil map is an empty one.
unfoldable pub parse_vol_params : Dict String → Result VolOpts
unfolding read_params
parse_vol_params params = read_params (vol_defaults params)

unfoldable pub parse_snap_params : Dict String → SnapOpts
unfolding set_default
parse_snap_params params =
    let p = set_default "type" "local" (set_default "remote_provider_uuid" "" params) in
    record { remote_provider_uuid = get "remote_provider_uuid" p; kind = get "type" p }

-- ===== src/Driver/Params/Laws.antt =====
-- What `parseVolParams` accepts, and what it makes of it.
use datera_csi.Base.{◌↔◌, String, ◌≡◌, ◌∙◌, Bool, [], arith}
use datera_csi.Base.Int.{ℤ, pos}
use datera_csi.Base.Num.{value, parse_int, parse_bool}
use datera_csi.Base.Dict.{Dict, get}
use datera_csi.Base.Go.{ok}
use datera_csi.Client.Policy.{VolOpts}
use datera_csi.Driver.Params.{vol_defaults, int_param, bool_param, parse_vol_params, read_params}
use datera_csi.Driver.Params.Defaults.{text, get-vol_defaults}

-- The options are what the settings say, number for number and text for text; nothing else is set.
pub record Reads (p : Dict String) (o : VolOpts) : Type 0 where
  pub iops_per_gb : parse_int (text "iops_per_gb" p) ≡ value o.iops_per_gb
  pub bandwidth_per_gb : parse_int (text "bandwidth_per_gb" p) ≡ value o.bandwidth_per_gb
  pub round_robin : parse_bool (text "round_robin" p) ≡ value o.round_robin
  pub replica : parse_int (text "replica_count" p) ≡ value o.replica
  pub disable_template_override :
      parse_bool (text "disable_template_override" p) ≡ value o.disable_template_override
  pub read_iops_max : parse_int (text "read_iops_max" p) ≡ value o.read_iops_max
  pub write_iops_max : parse_int (text "write_iops_max" p) ≡ value o.write_iops_max
  pub total_iops_max : parse_int (text "total_iops_max" p) ≡ value o.total_iops_max
  pub read_bandwidth_max : parse_int (text "read_bandwidth_max" p) ≡ value o.read_bandwidth_max
  pub write_bandwidth_max : parse_int (text "write_bandwidth_max" p) ≡ value o.write_bandwidth_max
  pub total_bandwidth_max : parse_int (text "total_bandwidth_max" p) ≡ value o.total_bandwidth_max
  pub delete_on_unmount : parse_bool (text "delete_on_unmount" p) ≡ value o.delete_on_unmount
  pub placement_mode : o.placement_mode ≡ text "placement_mode" p
  pub placement_policy : o.placement_policy ≡ text "placement_policy" p
  pub ip_pool : o.ip_pool ≡ text "ip_pool" p
  pub template : o.template ≡ text "template" p
  pub no_size : o.size ≡ pos 0
  pub no_file_system : (o.fs_type ≡ "") × (o.fs_args ≡ [])
  pub no_clone : (o.clone_src ≡ "") × (o.clone_vol_src ≡ "") × (o.clone_snap_src ≡ "")

int_param_lem :
    (k : String) (p : Dict String) (n : ℤ)
    → int_param k (vol_defaults p) ≡ ok n
    → parse_int (text k p) ≡ value n
unfolding int_param
int_param_lem k p n h = rw (← get-vol_defaults k p) (ground arith)

bool_param_lem :
    (k : String) (p : Dict String) (b : Bool)
    → bool_param k (vol_defaults p) ≡ ok b
    → parse_bool (text k p) ≡ value b
unfolding bool_param
bool_param_lem k p b h = rw (← get-vol_defaults k p) (ground arith)

int_param-value :
    (k : String) (p : Dict String) {n : ℤ}
    → parse_int (text k p) ≡ value n
    → int_param k (vol_defaults p) ≡ ok n
unfolding int_param
int_param-value k p h = rw (int_param, get-vol_defaults k p, h)

bool_param-value :
    (k : String) (p : Dict String) {b : Bool}
    → parse_bool (text k p) ≡ value b
    → bool_param k (vol_defaults p) ≡ ok b
unfolding bool_param
bool_param-value k p h = rw (bool_param, get-vol_defaults k p, h)

-- Accepted parameters have options that are what the settings say: one lemma for each option.
module _ (p : Dict String) (o : VolOpts) (accepted : parse_vol_params p ≡ ok o) where
  iops_per_gb_read : int_param "iops_per_gb" (vol_defaults p) ≡ ok o.iops_per_gb
  unfolding parse_vol_params
  iops_per_gb_read = ground arith

  bandwidth_per_gb_read : int_param "bandwidth_per_gb" (vol_defaults p) ≡ ok o.bandwidth_per_gb
  unfolding parse_vol_params
  bandwidth_per_gb_read = ground arith

  round_robin_read : bool_param "round_robin" (vol_defaults p) ≡ ok o.round_robin
  unfolding parse_vol_params
  round_robin_read = ground arith

  replica_read : int_param "replica_count" (vol_defaults p) ≡ ok o.replica
  unfolding parse_vol_params
  replica_read = ground arith

  disable_template_override_read :
      bool_param "disable_template_override" (vol_defaults p) ≡ ok o.disable_template_override
  unfolding parse_vol_params
  disable_template_override_read = ground arith

  read_iops_max_read : int_param "read_iops_max" (vol_defaults p) ≡ ok o.read_iops_max
  unfolding parse_vol_params
  read_iops_max_read = ground arith

  write_iops_max_read : int_param "write_iops_max" (vol_defaults p) ≡ ok o.write_iops_max
  unfolding parse_vol_params
  write_iops_max_read = ground arith

  total_iops_max_read : int_param "total_iops_max" (vol_defaults p) ≡ ok o.total_iops_max
  unfolding parse_vol_params
  total_iops_max_read = ground arith

  read_bandwidth_max_read :
      int_param "read_bandwidth_max" (vol_defaults p) ≡ ok o.read_bandwidth_max
  unfolding parse_vol_params
  read_bandwidth_max_read = ground arith

  write_bandwidth_max_read :
      int_param "write_bandwidth_max" (vol_defaults p) ≡ ok o.write_bandwidth_max
  unfolding parse_vol_params
  write_bandwidth_max_read = ground arith

  total_bandwidth_max_read :
      int_param "total_bandwidth_max" (vol_defaults p) ≡ ok o.total_bandwidth_max
  unfolding parse_vol_params
  total_bandwidth_max_read = ground arith

  delete_on_unmount_read : bool_param "delete_on_unmount" (vol_defaults p) ≡ ok o.delete_on_unmount
  unfolding parse_vol_params
  delete_on_unmount_read = ground arith

  texts_read :
      (o.placement_mode ≡ get "placement_mode" (vol_defaults p))
      × (o.placement_policy ≡ get "placement_policy" (vol_defaults p))
      × (o.ip_pool ≡ get "ip_pool" (vol_defaults p))
      × (o.template ≡ get "template" (vol_defaults p))
  unfolding parse_vol_params
  texts_read = ground arith

  unset_read :
      (o.size ≡ pos 0)
      × ((o.fs_type ≡ "") × (o.fs_args ≡ []))
      × ((o.clone_src ≡ "") × (o.clone_vol_src ≡ "") × (o.clone_snap_src ≡ ""))
  unfolding parse_vol_params
  unset_read = ground arith

  parse_vol_params-Reads : Reads p o
  parse_vol_params-Reads = record {
    iops_per_gb = int_param_lem "iops_per_gb" p o.iops_per_gb iops_per_gb_read;
    bandwidth_per_gb = int_param_lem "bandwidth_per_gb" p o.bandwidth_per_gb bandwidth_per_gb_read;
    round_robin = bool_param_lem "round_robin" p o.round_robin round_robin_read;
    replica = int_param_lem "replica_count" p o.replica replica_read;
    disable_template_override =
        bool_param_lem "disable_template_override" p o.disable_template_override
          disable_template_override_read;
    read_iops_max = int_param_lem "read_iops_max" p o.read_iops_max read_iops_max_read;
    write_iops_max = int_param_lem "write_iops_max" p o.write_iops_max write_iops_max_read;
    total_iops_max = int_param_lem "total_iops_max" p o.total_iops_max total_iops_max_read;
    read_bandwidth_max =
        int_param_lem "read_bandwidth_max" p o.read_bandwidth_max read_bandwidth_max_read;
    write_bandwidth_max =
        int_param_lem "write_bandwidth_max" p o.write_bandwidth_max write_bandwidth_max_read;
    total_bandwidth_max =
        int_param_lem "total_bandwidth_max" p o.total_bandwidth_max total_bandwidth_max_read;
    delete_on_unmount =
        bool_param_lem "delete_on_unmount" p o.delete_on_unmount delete_on_unmount_read;
    placement_mode = texts_read.0 ∙ get-vol_defaults "placement_mode" p;
    placement_policy = texts_read.1 ∙ get-vol_defaults "placement_policy" p;
    ip_pool = texts_read.2 ∙ get-vol_defaults "ip_pool" p;
    template = texts_read.3 ∙ get-vol_defaults "template" p;
    no_size = unset_read.0;
    no_file_system = unset_read.1;
    no_clone = unset_read.2;
  }

parse_vol_params_complete : (p : Dict String) (o : VolOpts) → Reads p o → parse_vol_params p ≡ ok o
unfolding parse_vol_params
parse_vol_params_complete p o r =
    rw
      (
        parse_vol_params,
        read_params,
        int_param-value "iops_per_gb" p r.iops_per_gb,
        int_param-value "bandwidth_per_gb" p r.bandwidth_per_gb,
        bool_param-value "round_robin" p r.round_robin,
        int_param-value "replica_count" p r.replica,
        bool_param-value "disable_template_override" p r.disable_template_override,
        int_param-value "read_iops_max" p r.read_iops_max,
        int_param-value "write_iops_max" p r.write_iops_max,
        int_param-value "total_iops_max" p r.total_iops_max,
        int_param-value "read_bandwidth_max" p r.read_bandwidth_max,
        int_param-value "write_bandwidth_max" p r.write_bandwidth_max,
        int_param-value "total_bandwidth_max" p r.total_bandwidth_max,
        bool_param-value "delete_on_unmount" p r.delete_on_unmount,
      )
      (ground (
        arith,
        get-vol_defaults "placement_mode" p,
        get-vol_defaults "placement_policy" p,
        get-vol_defaults "ip_pool" p,
        get-vol_defaults "template" p,
      ))

-- The parameters are accepted with some options exactly if every setting that is a number or a truth
-- value parses to the option of its name, every other option is the setting's text, and the options
-- that no parameter sets are 0 or empty. A setting is the value that was passed, else the source's default. No
-- parameter sets the file system and its arguments, although the README lists both.
pub parse_vol_params_iff : (p : Dict String) (o : VolOpts) → (parse_vol_params p ≡ ok o) ↔ Reads p o
parse_vol_params_iff p o = (parse_vol_params-Reads p o, parse_vol_params_complete p o)

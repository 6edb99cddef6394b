-- ===== src/Tests/Backend.antt =====
-- A small backend: its state counts the calls. It has one volume with one snapshot, which becomes
-- available at the third call.
use datera_csi.Base.{ℕ, ◌+◌, false, some, [], ◌∷◌, str_eq, ltb, if◌then◌else◌}
use datera_csi.Base.Int.{pos}
use datera_csi.Base.Go.{ok}
use datera_csi.Common.Errors.{ApiError}
use datera_csi.Client.Sdk.{
  BackendSnapshot, BackendVolume, StorageInstance, AppInstance, PerformancePolicy, Sdk, answer,
  denied,
}
use datera_csi.Driver.Env.{Env}

abbrev pub snap_1 : BackendSnapshot
snap_1 = record {
  uuid = "u1";
  utc_ts = "1550370547.1";
  path = "/snapshots/1";
  op_state = "creating";
}

abbrev pub disk : BackendVolume
disk = record {
  size = pos 5;
  capacity_in_use = pos 1;
  replica_count = pos 3;
  placement_mode = "hybrid";
  snapshots = snap_1 ∷ [];
}

abbrev pub storage : StorageInstance
storage = record {
  op_state = "available";
  ips = "10.0.0.1" ∷ [];
  iqn = "iqn.1";
  initiators = [];
  volumes = disk ∷ [];
}

abbrev pub app : AppInstance
app = record {
  name = "CSI-pvc";
  admin_state = "online";
  repair_priority = "default";
  template = "";
  storage_instances = storage ∷ [];
}

abbrev no_limits : PerformancePolicy
no_limits = record {
  read_iops_max = pos 0;
  write_iops_max = pos 0;
  total_iops_max = pos 0;
  read_bandwidth_max = pos 0;
  write_bandwidth_max = pos 0;
  total_bandwidth_max = pos 0;
}

abbrev pub missing : ApiError
missing = record { name = "NotFound"; code = 1; message = "no such resource" }

abbrev pub backend : Sdk
backend = record {
  State = ℕ;
  get_app_instance =
      λ name s. (if str_eq name "CSI-pvc" then answer app else denied missing, s + 1);
  list_app_instances = λ max start s. (answer (some app ∷ []), s + 1);
  create_app_instance = λ request s. (answer app, s + 1);
  set_admin_state = λ ai admin force s. (answer ai, s + 1);
  delete_app_instance = λ ai force s. (answer ai, s + 1);
  reload_app_instance = λ ai s. (answer ai, s + 1);
  get_metadata = λ ai s. (answer [], s + 1);
  set_metadata = λ ai md s. (answer md, s + 1);
  set_volume_size = λ v size s. (answer v, s + 1);
  get_policy = λ v s. (answer no_limits, s + 1);
  create_policy = λ v policy s. (answer policy, s + 1);
  list_snapshots = λ v s. (answer v.snapshots, s + 1);
  create_snapshot = λ v request s. (answer snap_1, s + 1);
  reload_snapshot =
      λ b s. (answer (record b { op_state = if ltb s 2 then "creating" else "available" }), s + 1);
  delete_snapshot = λ b s. (answer b, s + 1);
  get_acl = λ si s. (answer si.initiators, s + 1);
  set_acl = λ si inits s. (answer inits, s + 1);
  get_initiator = λ name s. (denied missing, s + 1);
  create_initiator = λ name iqn s. (denied missing, s + 1);
  delete_initiator = λ i id s. (answer i, s + 1);
  get_system = λ s. (denied missing, s + 1);
  get_ip_pool = λ name s. (denied missing, s + 1);
  set_ip_pool = λ si path s. (answer si, s + 1);
}

abbrev pub setting_up : Env
setting_up = record {
  uuid5 = λ name. name;
  rune_cap = λ n. n;
  fresh_id = "fresh";
  status_text = λ c text. text;
  float_timestamp = λ s. ok 0;
  schedule = λ vols. vols;
  replica_override = false;
  metadata_debug = false;
  disable_multipath = false;
  format_timeout = pos 1;
  vol_per_node = pos 256;
  nid = "node-1";
}

-- ===== src/Tests/Machine.antt =====
-- A small machine: its state counts the calls. A device of 5 GiB is attached, and nothing is mounted.
use datera_csi.Base.{ℕ, ◌+◌, none, some, false, [], ◌∷◌, str_eq, if◌then◌else◌}
use datera_csi.Base.Int.{pos}
use datera_csi.Base.Go.{plain, ok, err}
use datera_csi.Client.Sdk.{BackendInitiator, System, Sdk, answer}
use datera_csi.Client.Host.{Host}
use datera_csi.Client.Volume.{Volume, bare_volume}
use datera_csi.Tests.Backend.{backend, disk, storage, app}

abbrev pub machine : Host
machine = record {
  State = ℕ;
  exec = λ prefix args s. (
    if str_eq prefix "blockdev"
        then ("5368709120\n", none)
        else if str_eq prefix "sh"
        then ("", some (plain "exit status 1"))
        else if str_eq prefix "grep"
        then ("", some (plain "exit status 1"))
        else ("", none),
    s + 1,
  );
  is_not_exist = λ path s. (false, s + 1);
  mkdir_all = λ path s. (none, s + 1);
  write_file = λ path text s. (none, s + 1);
  remove_all = λ path s. (none, s + 1);
  lsblk = λ out. ok (some (some "" ∷ []));
  intn = λ n s. (1, s + 1);
  initiator_file = λ s. (ok "InitiatorName=iqn.node\n", s + 1);
  connect = λ c s. (("/dev/sda", none), s + 1);
  disconnect = λ iqn ips s. (none, s + 1);
}

-- The same with the device mounted.
abbrev pub mounted : Host
mounted = record machine {
  exec = λ prefix args s. (
    if str_eq prefix "blockdev"
        then ("5368709120\n", none)
        else if str_eq prefix "sh"
        then ("/dev/sda /stage ext4 rw 0 0\n", none)
        else if str_eq prefix "readlink"
        then ("/dev/sda\n", none)
        else ("", none),
    s + 1,
  );
}

-- The same without an initiator's name, and with no size of the device to be had.
abbrev pub nameless : Host
nameless = record machine {
  exec = λ prefix args s. (("", none), s + 1);
  initiator_file = λ s. (err (plain "no such file"), s + 1);
}

abbrev initiator : BackendInitiator
initiator = record { name = "node"; path = "/initiators/iqn.node"; id = "iqn.node"; tenant = "" }

abbrev pub system_1 : System
system_1 = record {
  build_version = "1";
  callhome_enabled = false;
  compression_enabled = false;
  health = "ok";
  l3_enabled = false;
  name = "datera";
  op_state = "available";
  sw_version = "3.3.0.0";
  timezone = "UTC";
  uuid = "u";
  total_capacity = pos 100;
  total_provisioned_capacity = pos 10;
  all_flash_total_capacity = pos 50;
  all_flash_provisioned_capacity = pos 5;
  hybrid_total_capacity = pos 50;
  hybrid_provisioned_capacity = pos 5;
}

-- The backend, with the machine's initiator, an answer for the system, and the metadata of a volume
-- that is staged.
abbrev pub joined : Sdk
joined = record backend {
  get_initiator = λ name s. (answer initiator, s + 1);
  get_system = λ s. (answer system_1, s + 1);
  get_metadata = λ ai s. (
    answer (("device_path", "/dev/sda") ∷ ("mount_path", "/stage") ∷ ("fs_type", "ext4") ∷ []),
    s + 1,
  );
}

-- A volume that is attached, mounted and bound to a path.
abbrev pub staged : Volume
staged = record (bare_volume app storage disk none) {
  device_path = "/dev/sda";
  mount_path = "/stage";
  bind_mount_paths = some ("/a" ∷ []);
}

-- ===== src/Tests/Requests.antt =====
-- Requests: credentials, ids, capabilities, limits, and volumes and snapshots that exist.
use datera_csi.Base.{◌≡◌, refl, String, some, none, [], ◌∷◌, arith}
use datera_csi.Base.Int.{pos}
use datera_csi.Base.Dict.{Dict}
use datera_csi.Common.Name.{gen_name}
use datera_csi.Client.Volume.{bare_volume}
use datera_csi.Client.Policy.{VolOpts, policy_of}
use datera_csi.Client.Policy.Caps.{IsCap, policy_of-totals}
use datera_csi.Driver.Capability.{mount, register_volume_capability}
use datera_csi.Driver.Capability.Laws.{entry_in, accepted, entry-register_volume_capability}
use datera_csi.Driver.CreateVolume.{CreateVolumeRequest, create_body}
use datera_csi.Driver.CreateVolume.Size.{repeat_answer}
use datera_csi.Base.Go.{err, status, already_exists}
use datera_csi.Driver.Snapshots.{delete_snapshot_body}
use datera_csi.Driver.Snapshots.Answers.{Deleted, delete_snapshot_body-Deleted}
use datera_csi.Tests.Backend.{backend, setting_up, disk, storage, app}
use datera_csi.Tests.Calls.{default_opts}

abbrev secrets : Dict String
secrets = ("node.session.auth.username", "admin") ∷ ("node.session.auth.password", "pw") ∷ []

abbrev limited : VolOpts
limited = record default_opts { size = pos 5; total_iops_max = pos 100; iops_per_gb = pos 10 }

policy_of-totals_example :
    IsCap 100 10 5 (policy_of limited).total_iops_max
    × IsCap 0 0 5 (policy_of limited).total_bandwidth_max
policy_of-totals_example =
    policy_of-totals limited 100 10 0 0 5 refl refl refl refl refl (ground arith) (ground arith)

entry-register_volume_capability_example :
    entry_in "fs_type" (
      register_volume_capability
        (some (record { access = mount "xfs" []; mode = some "SINGLE_NODE_WRITER" }))
        [])
    ≡ some (some "xfs")
unfolding datera_csi.Driver.Capability.Laws.accepted datera_csi.Driver.Capability.Laws.entry_for
    datera_csi.Driver.Capability.is_supported_fs datera_csi.Driver.Capability.Laws.chosen_fs
entry-register_volume_capability_example =
    entry-register_volume_capability (mount "xfs" []) (some "SINGLE_NODE_WRITER") [] "fs_type"

-- A request for one byte more than 5 GiB, and a volume of 5 GiB.
abbrev again : CreateVolumeRequest
again = record {
  name = "pvc";
  capacity = some (record { required = pos 5368709121; limit = pos 0 });
  topology = none;
  rpc_metadata = none;
  capabilities = none;
  parameters = [];
  snapshot = none;
  secrets = [];
}

repeat_answer_example :
    create_body backend setting_up again 0
    ≡ (err (status already_exists "Requested volume exists, but has a different size"), 1)
unfolding datera_csi.Common.Name.gen_name datera_csi.Client.Volume.get_volume
    datera_csi.Client.Volume.ai_to_client_vol datera_csi.Client.Volume.first_instance
    datera_csi.Client.Volume.first_volume datera_csi.Driver.CreateVolume.volume_size
    datera_csi.Driver.CreateVolume.fill_limit datera_csi.Base.Int.quot_ℤ bare_volume
repeat_answer_example =
    repeat_answer backend setting_up again "CSI-pvc" (bare_volume app storage disk none) 0 1
      5368709121 (ground arith) (ground arith) refl refl refl refl refl

delete_snapshot_body-Deleted_example :
    Deleted (delete_snapshot_body backend setting_up "CSI-pvc:9" 0).0
delete_snapshot_body-Deleted_example =
    delete_snapshot_body-Deleted backend setting_up "CSI-pvc:9" 0 refl

abbrev service : String
service = "c"

abbrev method : String
method = "A"

abbrev request : String
request = "{x|y}"

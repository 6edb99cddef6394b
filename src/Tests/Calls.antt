-- ===== src/Tests/Calls.antt =====
-- Calls: the guard, the requests, and the client's calls on a small backend.
use datera_csi.Base.{
  ◌↔◌, ◌≡◌, ◌≤◌, ◌+◌, refl, String, ℕ, Bool, true, false, if◌then◌else◌, some, none, not, ◌==◌, ◌%◌,
  ◌<◌, str_eq, [], ◌∷◌, List, arith,
}
use datera_csi.Base.Int.{pos, gib}
use datera_csi.Base.Dict.{Dict, lookup, get}
use datera_csi.Base.Go.{ok, err, status, failed_precondition, pure}
use datera_csi.Common.SnapId.{mk_snap_id, parse_snap_id, parse_snap_id-mk_snap_id}
use datera_csi.Common.Version.{dat_version_gte}
use datera_csi.Common.Version.Order.{IsVersion, dat_version_gte-lex}
use datera_csi.Common.Chap.{strip, lookup-strip}
use datera_csi.Client.Volume.{bare_volume}
use datera_csi.Client.SnapshotList.{Snapshot, snapshot_of}
use datera_csi.Client.Snapshots.{poll}
use datera_csi.Client.Snapshots.Await.{BecomesAvailable, poll_iff}
use datera_csi.Client.Policy.{VolOpts}
use datera_csi.Driver.Guard.{World, in_progress, init_func, guarded}
use datera_csi.Driver.Guard.Exclusion.{
  Reach, Alone, occurrences, idle, tests, enters, Reach-exclusive, guarded-rpc_status,
}
use datera_csi.Driver.Params.{parse_vol_params}
use datera_csi.Driver.Params.Laws.{Reads, parse_vol_params_iff}
use datera_csi.Driver.CreateVolume.{volume_size, to_bytes, volume_metadata}
use datera_csi.Driver.CreateVolume.Size.{created_within}
use datera_csi.Driver.CreateVolume.Metadata.{fs_type_lost}
use datera_csi.Driver.Volumes.{delete_body}
use datera_csi.Driver.Volumes.Deletion.{Answered, delete_body_refused, delete_body-Answered}
use datera_csi.Tests.Backend.{backend, setting_up, snap_1, disk, storage, app}

-- A call has found its key free and entered it.
one_running : Reach Alone (record { rpc_status = "k" ∷ []; pending = []; running = "k" ∷ [] })
unfolding in_progress datera_csi.Driver.Guard.Exclusion.remove_one datera_csi.Driver.Guard.enter
one_running = enters "k" (tests "k" idle refl refl) refl

Reach-exclusive_example :
    (occurrences "k" [] + occurrences "k" ("k" ∷ []) ≤ 1)
    × ((init_func "k" ("k" ∷ [])).0 ≡ in_progress "k" ("k" ∷ []))
Reach-exclusive_example = Reach-exclusive "k" one_running

guarded-rpc_status_example :
    in_progress "k"
      (guarded {S = ℕ} {A = ℕ} "k"
        (pure 1)
        (record { rpc_status = "j" ∷ []; backend = 7 })).1.rpc_status
    ≡ in_progress "k" ("j" ∷ [])
guarded-rpc_status_example =
    guarded-rpc_status {S = ℕ} {A = ℕ} "k" "k" (pure 1)
      (record { rpc_status = "j" ∷ []; backend = 7 })

parse_snap_id-mk_snap_id_example : parse_snap_id (mk_snap_id "v1" "7.5") ≡ ("v1", "7.5")
parse_snap_id-mk_snap_id_example =
    parse_snap_id-mk_snap_id "v1" "7.5" (refl, (refl, tt)) (refl, (refl, (refl, tt)))

IsVersion-3_3 : IsVersion "3.3.0.1" 3 3 0 1
unfolding datera_csi.Base.Text.split datera_csi.Base.Num.parse_int
IsVersion-3_3 = record {
  major = "3";
  minor = "3";
  patch = "0";
  subpatch = "1";
  parts = refl;
  is_major = refl;
  is_minor = refl;
  is_patch = refl;
  is_subpatch = refl;
  major_lt = ground arith;
  minor_lt = ground arith;
  patch_lt = ground arith;
  subpatch_lt = ground arith;
}

IsVersion-3_2 : IsVersion "3.2.9.9" 3 2 9 9
unfolding datera_csi.Base.Text.split datera_csi.Base.Num.parse_int
IsVersion-3_2 = record {
  major = "3";
  minor = "2";
  patch = "9";
  subpatch = "9";
  parts = refl;
  is_major = refl;
  is_minor = refl;
  is_patch = refl;
  is_subpatch = refl;
  major_lt = ground arith;
  minor_lt = ground arith;
  patch_lt = ground arith;
  subpatch_lt = ground arith;
}

dat_version_gte-lex_example : dat_version_gte "3.3.0.1" "3.2.9.9" ≡ ok true
unfolding datera_csi.Common.Version.Order.lex_gte
dat_version_gte-lex_example =
    dat_version_gte-lex "3.3.0.1" "3.2.9.9" 3 3 0 1 3 2 9 9 IsVersion-3_3 IsVersion-3_2

abbrev pub credentials : Dict String
credentials = ("node.session.auth.username", "admin") ∷ ("token", "t") ∷ []

lookup-strip_example :
    (lookup "token" (strip credentials).0 ≡ some "t")
    × (lookup "token" (strip credentials).1 ≡ none)
unfolding lookup
lookup-strip_example = lookup-strip "token" credentials

created_within_example :
    (n : ℕ) × (to_bytes (volume_size (some (record { required = pos 1; limit = pos 5000000000 })))
      ≡ pos n)
    × (n ≤ 5000000000)
    × (5000000000 < n + gib)
created_within_example = created_within (pos 1) 5000000000 (ground arith) (ground arith)

delete_body-Answered_example : Answered (delete_body backend setting_up "CSI-pvc" 0).0
delete_body-Answered_example = delete_body-Answered backend setting_up "CSI-pvc" 0

abbrev waiting : Snapshot
waiting = snapshot_of (bare_volume app storage disk none) snap_1

abbrev waited : Snapshot
waited = record waiting { snap = record snap_1 { op_state = "available" }; status = "available" }

poll_iff_example :
    (poll backend 30 waiting 0 ≡ (ok waited, 3)) ↔ BecomesAvailable backend 30 waiting 0 waited 3
poll_iff_example = poll_iff backend 30 waiting waited 0 3

delete_body_refused_example : delete_body backend setting_up "CSI-pvc" 0 ≡ (
  err (
      status failed_precondition
        "Volumes with snapshots cannot be deleted.  Delete snapshots first"),
  3,
)
unfolding datera_csi.Client.Snapshots.has_snapshots datera_csi.Client.Snapshots.volume_snapshots
    datera_csi.Client.Volume.ai_to_client_vol datera_csi.Client.Volume.reload
    datera_csi.Client.Volume.first_instance datera_csi.Client.Volume.first_volume bare_volume
    datera_csi.Client.Volume.backend_volume datera_csi.Client.SnapshotList.select_snapshots
delete_body_refused_example =
    delete_body_refused backend setting_up "CSI-pvc" app (bare_volume app storage disk none)
      (bare_volume app storage disk none) 0 1 1 3 refl refl refl refl

abbrev pub default_opts : VolOpts
default_opts = record {
  size = pos 0;
  replica = pos 3;
  template = "";
  fs_type = "";
  fs_args = [];
  placement_mode = "hybrid";
  placement_policy = "default";
  clone_src = "";
  clone_vol_src = "";
  clone_snap_src = "";
  ip_pool = "default";
  round_robin = false;
  delete_on_unmount = false;
  disable_template_override = false;
  write_iops_max = pos 0;
  read_iops_max = pos 0;
  total_iops_max = pos 0;
  write_bandwidth_max = pos 0;
  read_bandwidth_max = pos 0;
  total_bandwidth_max = pos 0;
  iops_per_gb = pos 0;
  bandwidth_per_gb = pos 0;
}

parse_vol_params_iff_example : (parse_vol_params [] ≡ ok default_opts) ↔ Reads [] default_opts
parse_vol_params_iff_example = parse_vol_params_iff [] default_opts

abbrev mounted : Dict String
mounted = ("access_type", "mount") ∷ ("fs_type", "xfs") ∷ []

defaults_accepted : parse_vol_params [] ≡ ok default_opts
unfolding parse_vol_params datera_csi.Driver.Params.vol_defaults datera_csi.Driver.Params.int_param
    datera_csi.Base.Num.parse_int get datera_csi.Base.Dict.insert
    datera_csi.Driver.Params.bool_param datera_csi.Base.Num.parse_bool
defaults_accepted = refl

fs_type_lost_example : lookup "fs_type" (volume_metadata default_opts mounted) ≡ some ""
fs_type_lost_example = fs_type_lost [] mounted default_opts defaults_accepted

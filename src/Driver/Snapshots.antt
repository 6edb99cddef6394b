-- ===== src/Driver/Snapshots.antt =====
-- The snapshot calls of pkg/driver/controller.go.
pub mod Answers
use datera_csi.Base.{String, ℕ, false, not, ◌&&◌, ◌||◌, List, [], ◌∷◌, str_eq, if◌then◌else◌}
use datera_csi.Base.Int.{ℤ, pos, eqb_ℤ}
use datera_csi.Base.Text.{contains}
use datera_csi.Base.Num.{format_int}
use datera_csi.Base.Dict.{Dict}
use datera_csi.Base.Go.{
  status, invalid_argument, not_found, unknown, Result, ok, err, panic, Action, pure, lift, attempt,
  fail_if, on_error, ◌>>=◌, ◌>>◌,
}
use datera_csi.Common.SnapId.{mk_snap_id, parse_snap_id}
use datera_csi.Client.Sdk.{Sdk}
use datera_csi.Client.Volume.{Volume, get_volume}
use datera_csi.Client.SnapshotList.{Snapshot}
use datera_csi.Client.Snapshots.{create_snapshot, delete_snapshot, list_snapshots}
use datera_csi.Driver.Env.{Env, as_code, error_text}
use datera_csi.Driver.Params.{parse_snap_params}
use datera_csi.Driver.CreateVolume.{to_bytes}
use datera_csi.Driver.Volumes.{parse_token}

-- `csi.Snapshot`
pub record SnapshotReply : Type 0 where
  pub snapshot_id : String
  pub source_volume_id : String
  pub size_bytes : ℤ
  pub creation_time : ℕ

module _ (env : Env) where
  -- The reply for one snapshot of a listing; an id that is no timestamp ends the call.
  unfoldable pub reply_of : Snapshot → Result SnapshotReply
  reply_of s = elim (env.float_timestamp s.id) [
    | ok time ↦ ok (record {
      snapshot_id = mk_snap_id s.vol.name s.id;
      source_volume_id = s.vol.name;
      size_bytes = to_bytes s.vol.size;
      creation_time = time;
    })
    | err e ↦ err e
    | panic ↦ panic
  ]

  unfoldable pub replies_of : List Snapshot → Result (List SnapshotReply)
  unfolding reply_of
  replies_of [] = ok []
  replies_of (s ∷ ss) = elim (reply_of s) [
    | err e ↦ err e
    | panic ↦ panic
    | ok r ↦ elim (replies_of ss) [ ok rs ↦ ok (r ∷ rs) | err e ↦ err e | panic ↦ panic ]
  ]

  -- The next token of the response: 0 is written as none.
  unfoldable pub token_of : ℤ → String
  token_of next = if eqb_ℤ next (pos 0) then "" else format_int next

module _ (sdk : Sdk) (env : Env) where
  unfoldable pub create_snapshot_body :
      String → String → Dict String → Action sdk.State SnapshotReply
  create_snapshot_body source_volume_id name parameters = do
    fail_if (str_eq source_volume_id "") (status invalid_argument "SourceVolumeId cannot be empty")
    fail_if (str_eq name "") (status invalid_argument "Name field cannot be empty")
    vol ← on_error (as_code env not_found) (get_volume sdk source_volume_id false false)
    snap ←
        on_error (as_code env unknown)
          (create_snapshot sdk env.uuid5 vol name (parse_snap_params parameters))
    time ← lift (env.float_timestamp snap.id)
    pure (record {
      snapshot_id = mk_snap_id vol.name snap.id;
      source_volume_id = vol.name;
      size_bytes = to_bytes vol.size;
      creation_time = time;
    })

  delete_known : String → Result Volume → Action sdk.State (Unit {0})
  delete_known sid (ok vol) = do done ← attempt (delete_snapshot sdk vol sid); pure tt
  delete_known sid _ = pure tt

  -- `DeleteSnapshot`: an id that is malformed or names nothing is deleted already, and so is one whose
  -- deletion failed.
  unfoldable pub delete_snapshot_body : String → Action sdk.State (Unit {0})
  unfolding delete_known
  delete_snapshot_body snapshot_id =
      let (vid, sid) = parse_snap_id snapshot_id in
      do
        fail_if (str_eq snapshot_id "")
            (status invalid_argument "SnapshotId is invalid (empty string)")
        if str_eq vid "" || str_eq sid ""
            then pure tt
            else (do found ← attempt (get_volume sdk vid false false); delete_known sid found)

  -- What `ListSnapshots` makes of the client's answer.
  list_outcome :
      String → Result (List Snapshot × ℤ) → Action sdk.State (List SnapshotReply × String)
  list_outcome source_volume_id panic s = (panic, s)
  list_outcome source_volume_id (err e) s =
      if not (str_eq source_volume_id "") && contains (error_text env e) "NotFound"
      then (ok ([], ""), s)
      else if contains (error_text env e) "must be of format"
      then (ok ([], ""), s)
      else (err (as_code env unknown e), s)
  list_outcome source_volume_id (ok (snaps, next)) s = elim (replies_of env snaps) [
    | ok rs ↦ (ok (rs, token_of env next), s)
    | err e ↦ (err e, s)
    | panic ↦ (panic, s)
  ]

  unfoldable pub list_snapshots_body :
      String → String → ℤ → String → Action sdk.State (List SnapshotReply × String)
  unfolding list_outcome
  list_snapshots_body snapshot_id source_volume_id max_entries token = do
    start ← lift (parse_token token)
    found ← attempt (list_snapshots sdk env.schedule snapshot_id source_volume_id max_entries start)
    list_outcome source_volume_id found

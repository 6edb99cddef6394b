-- ===== src/Client/Snapshots.antt =====
-- pkg/client/snapshots.go: the snapshots of a volume, their listing by pages, and their creation.
pub mod Poll
pub mod Await
pub mod Listing
use datera_csi.Base.{
  String, ◌<>◌, ℕ, zero, suc, Bool, true, false, Option, none, some, List, [], ◌∷◌, ◌++◌, str_eq,
  not, ◌-◌, ◌&&◌, ◌||◌, ltb, ◌==◌, length, take, drop, if◌then◌else◌,
}
use datera_csi.Base.Int.{ℤ, pos, negsuc, ◌+ℤ◌, ◌-ℤ◌, wrap64, ltb_ℤ, eqb_ℤ}
use datera_csi.Base.Num.{format_int}
use datera_csi.Base.Text.{split, text_lt}
use datera_csi.Base.Go.{
  Error, plain, Result, ok, err, panic, Action, pure, throw, crash, lift, deref, attempt, ◌>>=◌,
  ◌>>◌,
}
use datera_csi.Common.SnapId.{colon, parse_snap_id}
use datera_csi.Common.Errors.{err_translator}
use datera_csi.Client.Sdk.{AppInstance, BackendSnapshot, BackendVolume, SnapshotRequest, Sdk, call}
use datera_csi.Client.SnapshotList.{
  Snapshot, snapshot_of, sort_by_id, paginate, select_snapshots, find_snapshot, with_uuid,
}
use datera_csi.Client.Volume.{
  Volume, backend_volume, ai_to_client_vol, get_volume, list_volumes, reload,
}

pub record SnapOpts : Type 0 where
  pub remote_provider_uuid : String
  pub kind : String

abbrev or_empty : {A : Type 0} → Option (List A) → List A
or_empty none = []
or_empty (some xs) = xs

module _ (sdk : Sdk) where
  list_after_reload : String → Volume → Action sdk.State (Volume × List Snapshot)
  list_after_reload snap_id vol = do
    v ← lift (backend_volume vol.ai)
    snaps ← call (sdk.list_snapshots v)
    view ← ai_to_client_vol sdk (some vol.ai) false false
    pure (vol, select_snapshots snap_id view (or_empty snaps))

  -- `(*Volume).ListSnapshots`, with the volume as it is afterwards: `Reload` writes it. A volume that
  -- cannot be read again has no snapshots.
  unfoldable pub volume_snapshots : Volume → String → Action sdk.State (Volume × List Snapshot)
  unfolding list_after_reload
  volume_snapshots vol snap_id = do
    fresh ← attempt (reload sdk vol false false)
    elim fresh [ ok v ↦ list_after_reload snap_id v | _ ↦ pure (vol, []) ]

  -- `(*Volume).HasSnapshots`
  unfoldable pub has_snapshots : Volume → Action sdk.State (Volume × Bool)
  has_snapshots vol = do found ← volume_snapshots vol ""; pure (found.0, ltb 0 (length found.1))

  -- One snapshot of one volume: the error of the listing is not looked at.
  one_snapshot : String → String → Action sdk.State (List Snapshot)
  one_snapshot vid sid = do
    v ← get_volume sdk vid false false
    found ← attempt (volume_snapshots v sid)
    pure (elim found [ ok (_, snaps) ↦ snaps | _ ↦ [] ])

  only_path : String → List Snapshot → Action sdk.State String
  only_path csi_id (s ∷ []) = pure s.path
  only_path csi_id snaps = throw (
      plain (
        "Unexpected number of snapshots found for csi snapshot ID: "
        <> (csi_id <> (", expected 1 found " <> format_int (pos (length snaps))))))

  -- `parts[0]` and `parts[1]`, which panics on an id without a colon.
  first_two : List String → Result (String × String)
  first_two (vid ∷ ts ∷ _) = ok (vid, ts)
  first_two _ = panic

  -- `(*DateraClient).SnapshotPathFromCsiId`
  unfoldable pub snapshot_path_from_csi_id : String → Action sdk.State String
  unfolding only_path first_two
  snapshot_path_from_csi_id csi_id = do
    parts ← lift (first_two (colon csi_id))
    vol ← get_volume sdk parts.0 false false
    found ← attempt (volume_snapshots vol parts.1)
    only_path csi_id (elim found [ ok (_, snaps) ↦ snaps | _ ↦ [] ])

  -- `(*Snapshot).Reload`
  unfoldable pub reload_snapshot : Snapshot → Action sdk.State Snapshot
  reload_snapshot s = do
    answered ← call (sdk.reload_snapshot s.snap)
    new ← deref answered
    pure (record s { snap = new; status = new.op_state })

  -- The loop of `CreateSnapshot`, by the rounds that are left; each round waits a second.
  unfoldable pub poll : ℕ → Snapshot → Action sdk.State Snapshot
  poll zero s = throw (plain ("Snapshot " <> (s.id <> " did not become available before timeout")))
  poll (suc timeout) s = do
    new ← reload_snapshot s
    if str_eq new.status "available" then pure new else poll timeout new

  found_by_uuid : Volume → String → Option BackendSnapshot → Action sdk.State Snapshot
  found_by_uuid vol id none = throw (plain ("No snapshot found with UUID " <> id))
  found_by_uuid vol id (some s) = do
    view ← ai_to_client_vol sdk (some vol.ai) false false
    pure (snapshot_of view s)

  -- `(*Volume).GetSnapshotByUuid`
  unfoldable pub get_snapshot_by_uuid : Volume → String → Action sdk.State Snapshot
  unfolding found_by_uuid
  get_snapshot_by_uuid vol id = do
    v ← lift (backend_volume vol.ai)
    snaps ← call (sdk.list_snapshots v)
    found_by_uuid vol id (with_uuid id (or_empty snaps))

  delete_found : Option BackendSnapshot → Action sdk.State (Unit {0})
  delete_found none = pure tt
  delete_found (some s) = do call (sdk.delete_snapshot s); pure tt

  delete_after_reload : String → Volume → Action sdk.State (Unit {0})
  delete_after_reload id vol = do
    v ← lift (backend_volume vol.ai)
    delete_found (find_snapshot id v.snapshots none)

  -- `(*Volume).DeleteSnapshot`
  unfoldable pub delete_snapshot : Volume → String → Action sdk.State (Unit {0})
  unfolding delete_after_reload delete_found
  delete_snapshot vol id = do
    fresh ← attempt (reload sdk vol false false)
    elim fresh [ ok v ↦ delete_after_reload id v | _ ↦ pure tt ]

-- `schedule` is the order in which the goroutines of `ListSnapshots` add their results.
module _ (sdk : Sdk) (schedule : List Volume → List Volume) where
  -- Errors of the single volumes are logged and left out.
  gather : List Volume → String → Action sdk.State (List Snapshot)
  gather [] sid = pure []
  gather (v ∷ vs) sid =
      let rest = gather vs sid in
      do
        found ← attempt (volume_snapshots sdk v sid)
        more ← rest
        pure (elim found [ ok (_, snaps) ↦ snaps ++ more | _ ↦ more ])

  -- The volumes whose snapshots are listed: one, or all.
  source_volumes : String → Action sdk.State (List Volume)
  source_volumes source_vol =
      if str_eq source_vol ""
      then list_volumes sdk (pos 0) (pos 0)
      else do v ← get_volume sdk source_vol false false; pure (v ∷ [])

  unfoldable pub find_snapshots : String → String → Action sdk.State (List Snapshot)
  unfolding gather source_volumes one_snapshot
  find_snapshots snap_id source_vol =
      if str_eq snap_id ""
      then (do vols ← source_volumes source_vol; gather (schedule vols) "")
      else let (vid, sid) = parse_snap_id snap_id in
        if str_eq vid "" || str_eq sid ""
        then throw (plain "SnapshotId must be of format app_instance_name:snapshot_timestamp")
        else one_snapshot sdk vid sid

  -- `(*DateraClient).ListSnapshots`
  unfoldable pub list_snapshots : String → String → ℤ → ℤ → Action sdk.State (List Snapshot × ℤ)
  list_snapshots snap_id source_vol max_entries start_token = do
    snaps ← find_snapshots snap_id source_vol
    lift (paginate (sort_by_id snaps) start_token max_entries)

-- `uuid5` is `uuid.NewSHA1` in the plugin's domain.
module _ (sdk : Sdk) (uuid5 : String → String) where
  snapshot_request : String → SnapOpts → SnapshotRequest
  snapshot_request name opts = record {
    uuid = uuid5 name;
    remote =
        if str_eq opts.remote_provider_uuid ""
        then none
        else some (opts.remote_provider_uuid, opts.kind);
  }

  -- The new snapshot is waited for.
  await_snapshot : Volume → Option BackendSnapshot → Action sdk.State Snapshot
  await_snapshot vol answered = do
    view ← ai_to_client_vol sdk (some vol.ai) false false
    s ← deref answered
    poll sdk 30 (snapshot_of view s)

  -- `(*Volume).CreateSnapshot`: here the API error is looked at first.
  unfoldable pub create_snapshot : Volume → String → SnapOpts → Action sdk.State Snapshot
  unfolding snapshot_request await_snapshot
  create_snapshot vol name opts = do
    v ← lift (backend_volume vol.ai)
    reply ← (λ s. let (r, t) = sdk.create_snapshot v (snapshot_request name opts) s in (ok r, t))
    elim reply.api_error [
      | some a ↦
          if str_eq a.name "InvalidRequestError" && (a.code == 15)
          then get_snapshot_by_uuid sdk vol (uuid5 name)
          else throw (err_translator a)
      | none ↦ elim reply.failure [ some e ↦ throw e | none ↦ await_snapshot vol reply.value ]
    ]

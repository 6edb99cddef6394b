-- ===== src/Client/SnapshotList.antt =====
-- The pure parts of pkg/client/snapshots.go: lists of snapshots, their order, selection and pages.
pub mod Schedule
pub mod Order
pub mod Pages
pub mod Window
use datera_csi.Base.{
  String, ◌<>◌, ℕ, zero, suc, Bool, true, false, Option, none, some, List, [], ◌∷◌, ◌++◌, str_eq,
  not, ◌-◌, ◌&&◌, ◌||◌, ltb, ◌==◌, length, take, drop, if◌then◌else◌,
}
use datera_csi.Base.Int.{ℤ, pos, negsuc, ◌+ℤ◌, ◌-ℤ◌, wrap64, ltb_ℤ, eqb_ℤ}
use datera_csi.Base.Text.{split, text_lt}
use datera_csi.Base.Go.{
  Error, plain, Result, ok, err, panic, Action, pure, throw, crash, lift, deref, attempt, ◌>>=◌,
  ◌>>◌,
}
use datera_csi.Common.SnapId.{colon, parse_snap_id}
use datera_csi.Common.Errors.{err_translator}
use datera_csi.Client.Sdk.{AppInstance, BackendSnapshot, BackendVolume, SnapshotRequest, Sdk, call}
use datera_csi.Client.Volume.{
  Volume, backend_volume, ai_to_client_vol, get_volume, list_volumes, reload,
}

pub record Snapshot : Type 0 where
  pub snap : BackendSnapshot
  pub vol : Volume
  pub id : String
  pub path : String
  pub status : String

-- The literal `&Snapshot{...}`
unfoldable pub snapshot_of : Volume → BackendSnapshot → Snapshot
snapshot_of v s = record { snap = s; vol = v; id = s.utc_ts; path = s.path; status = s.op_state }

-- `sort.Slice` by `Id`. Which of two snapshots with one id comes first is not specified in Go; here it
-- is the one that stood first.
unfoldable pub insert_by_id : Snapshot → List Snapshot → List Snapshot
insert_by_id s [] = s ∷ []
insert_by_id s (t ∷ ts) =
    let rest = insert_by_id s ts in if text_lt t.id s.id then t ∷ rest else s ∷ t ∷ ts

unfoldable pub sort_by_id : List Snapshot → List Snapshot
unfolding insert_by_id
sort_by_id [] = []
sort_by_id (s ∷ ss) = insert_by_id s (sort_by_id ss)

-- `xs[from:to]` for a `to` that is at most the length: it panics unless 0 <= from <= to.
unfoldable pub slice : {A : Type 0} → List A → ℤ → ℤ → Result (List A)
slice xs (negsuc _) to = panic
slice xs (pos from) (negsuc _) = panic
slice xs (pos from) (pos to) = if ltb to from then panic else ok (take (to - from) (drop from xs))

unfoldable pub cut : {A : Type 0} → List A → ℤ → ℤ → Result (List A × ℤ)
unfolding slice
cut xs start end = elim (slice xs start end) [
  | ok page ↦ ok (page, end)
  | err e ↦ err e
  | panic ↦ panic
]

-- The end of the page: `snapEnd` where the sum is 0 or passes it.
unfoldable pub page_end : ℕ → ℤ → ℤ → ℤ
page_end n start max =
    let entries = if eqb_ℤ max (pos 0) then wrap64 (pos n -ℤ start) else max in
    let end = wrap64 (start +ℤ entries) in
    if eqb_ℤ end (pos 0) || ltb_ℤ (pos n) end then pos n else end

-- The last part of `ListSnapshots`, after the sort: the entries and the next token.
unfoldable pub paginate : {A : Type 0} → List A → ℤ → ℤ → Result (List A × ℤ)
unfolding cut page_end
paginate snaps start max =
    if (length snaps == 0) || ltb_ℤ (pos (length snaps)) start
    then ok (snaps, pos 0)
    else cut snaps start (page_end (length snaps) start max)

-- `for _, s := range rsnaps { if snapId == "" || snapId == s.UtcTs { ... } }`
unfoldable pub select_snapshots : String → Volume → List BackendSnapshot → List Snapshot
unfolding snapshot_of
select_snapshots snap_id v [] = []
select_snapshots snap_id v (s ∷ ss) =
    let rest = select_snapshots snap_id v ss in
    if str_eq snap_id "" || str_eq snap_id s.utc_ts then snapshot_of v s ∷ rest else rest

-- The last snapshot whose uuid or timestamp is the id.
unfoldable pub find_snapshot :
    String → List BackendSnapshot → Option BackendSnapshot → Option BackendSnapshot
find_snapshot id [] found = found
find_snapshot id (s ∷ ss) found =
    find_snapshot id ss (if str_eq s.uuid id || str_eq s.utc_ts id then some s else found)

-- The first snapshot with the uuid.
unfoldable pub with_uuid : String → List BackendSnapshot → Option BackendSnapshot
with_uuid id [] = none
with_uuid id (s ∷ ss) = if str_eq s.uuid id then some s else with_uuid id ss

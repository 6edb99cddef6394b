-- ===== src/Client/Snapshots/Listing.antt =====
-- The listing of snapshots as a whole.
use mathlib.Core.Path.{subst}
use datera_csi.Base.{String, ◌≡◌, ap, List}
use datera_csi.Base.Int.{ℤ}
use datera_csi.Base.Go.Binds.{bind-eq-ok}
use datera_csi.Base.Go.{Result, ok, lift}
use datera_csi.Client.Sdk.{Sdk}
use datera_csi.Client.Volume.{Volume}
use datera_csi.Client.SnapshotList.{Snapshot, sort_by_id, paginate}
use datera_csi.Client.SnapshotList.Order.{IsSorted, sort_by_id-IsSorted}
use datera_csi.Client.SnapshotList.Window.{PageSorted, paginate-PageSorted}
use datera_csi.Client.Snapshots.{list_snapshots, find_snapshots}

-- Every page that `ListSnapshots` of the client returns is sorted by id, in whatever order the
-- goroutines add what they found.
pub list_snapshots-IsSorted :
    (sdk : Sdk) (schedule : List Volume → List Volume) (snap_id source_vol : String) (max start : ℤ)
    (s t : sdk.State) (page : List Snapshot) (next : ℤ)
    → list_snapshots sdk schedule snap_id source_vol max start s ≡ (ok (page, next), t)
    → IsSorted page
unfolding list_snapshots
list_snapshots-IsSorted sdk schedule snap_id source_vol max start s t page next h =
    let (snaps, _, k) =
      bind-eq-ok (find_snapshots sdk schedule snap_id source_vol)
        (λ snaps. lift (paginate (sort_by_id snaps) start max)) s h in
    subst PageSorted (ap (λ (r : Result (List Snapshot × ℤ) × sdk.State). r.0) k)
      (paginate-PageSorted (sort_by_id snaps) start max (sort_by_id-IsSorted snaps))

-- ===== src/Tests/Lists.antt =====
-- Lists: pages, order, access lists.
use mathlib.Core.List.{Permᴰ, Pairwise, not-mem-nil}
use mathlib.Core.List.Memᴰ
use mathlib.Core.Logic.{∥∥₁_elim}
use mathlib.Core.HLevel.{⊥_prop}
use datera_csi.Base.{◌≡◌, ◌≢◌, ◌∙◌, ap, eq_iff, refl, String, false, List, [], ◌∷◌, arith}
use datera_csi.Base.Int.{pos}
use datera_csi.Base.Go.{ok}
use datera_csi.Client.Sdk.{BackendInitiator}
use datera_csi.Client.Volume.{bare_volume}
use datera_csi.Client.SnapshotList.{Snapshot, snapshot_of, sort_by_id}
use datera_csi.Client.SnapshotList.Pages.{walk, walk_complete}
use datera_csi.Client.SnapshotList.Schedule.{DistinctIds, sort_by_id-perm_eq}
use datera_csi.Client.Acl.{Initiator, unregistered}
use datera_csi.Client.Acl.Laws.{has_path, has_other, has_path-unregistered}
use datera_csi.Tests.Backend.{snap_1, disk, storage, app}
use Prim.Native.Nat.{ℕ}
use mathlib.Core.Option.{none}

abbrev five : List ℕ
five = 1 ∷ 2 ∷ 3 ∷ 4 ∷ 5 ∷ []

walk_complete_example : walk 3 five 2 (pos 0) ≡ ok five
walk_complete_example =
    walk_complete 3 five 0 2 (ground arith) (ground arith) (ground arith) (ground arith)
      (ground arith) (ground arith)

abbrev snap_of : String → Snapshot
snap_of t = snapshot_of (bare_volume app storage disk none) (record snap_1 { utc_ts = t })

abbrev found : List Snapshot
found = snap_of "b" ∷ snap_of "a" ∷ []

abbrev found_later : List Snapshot
found_later = snap_of "a" ∷ snap_of "b" ∷ []

clash : ◌≢◌ {A = String} "b" "a"
clash h = ground (arith, eq_iff "b" "a")

found_distinct : DistinctIds found
unfolding snapshot_of
found_distinct =
    Pairwise.cons (λ s m e. ∥∥₁_elim m ⊥_prop (λ d. different s (Memᴰ.eq_of_singleton d) e))
      (Pairwise.cons (λ s m. absurd (not-mem-nil m)) Pairwise.nil)
  where
    different : (s : Snapshot) → s ≡ snap_of "a" → "b" ≢ s.id
    different s d e = clash (e ∙ ap (λ (t : Snapshot). t.id) d)

sort_by_id-perm_eq_example : sort_by_id found ≡ sort_by_id found_later
sort_by_id-perm_eq_example = sort_by_id-perm_eq (Permᴰ.swap refl refl) found_distinct

abbrev host : Initiator
host = record { name = "host"; path = "/initiators/h"; iqn = "iqn.h" }

abbrev access : List BackendInitiator
access =
    record { name = "h"; path = "/initiators/h"; id = ""; tenant = "" }
    ∷ record { name = "g"; path = "/initiators/g"; id = ""; tenant = "" }
    ∷ []

has_path-unregistered_example : has_path "/initiators/g" (unregistered host access) ≡ false
unfolding has_other
has_path-unregistered_example = has_path-unregistered host access "/initiators/g"

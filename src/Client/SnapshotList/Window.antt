-- ===== src/Client/SnapshotList/Window.antt =====
-- The order within a page of `ListSnapshots`.
use datera_csi.Base.{
  ℕ, zero, suc, ◌≡◌, ◌-◌, false, List, [], ◌∷◌, length, take, drop, ltb, All, Bool-cases, inl, inr,
  ◌||◌, ◌==◌,
}
use datera_csi.Base.Int.{ℤ, pos, negsuc, ltb_ℤ}
use datera_csi.Base.Text.{text_lt}
use datera_csi.Base.Go.{Result, ok}
use datera_csi.Client.SnapshotList.{Snapshot, paginate, cut, slice, page_end}
use datera_csi.Client.SnapshotList.Order.{IsSorted}

All-take : (P : Snapshot → Type 0) (n : ℕ) (l : List Snapshot) → All P l → All P (take n l)
All-take P zero l h = tt
All-take P (suc n) [] h = tt
All-take P (suc n) (s ∷ l) (h, hs) = (h, All-take P n l hs)

drop-IsSorted : (n : ℕ) (l : List Snapshot) → IsSorted l → IsSorted (drop n l)
drop-IsSorted zero l h = h
drop-IsSorted (suc n) [] h = tt
drop-IsSorted (suc n) (s ∷ l) (h, hs) = drop-IsSorted n l hs

take-IsSorted : (n : ℕ) (l : List Snapshot) → IsSorted l → IsSorted (take n l)
take-IsSorted zero l h = tt
take-IsSorted (suc n) [] h = tt
take-IsSorted (suc n) (s ∷ l) (h, hs) =
    (All-take (λ t. text_lt t.id s.id ≡ false) n l h, take-IsSorted n l hs)

-- What a result holds is sorted.
abbrev pub PageSorted : Result (List Snapshot × ℤ) → Type 0
PageSorted (ok (page, next)) = IsSorted page
PageSorted _ = Unit {0}

cut-PageSorted : (l : List Snapshot) (start end : ℤ) → IsSorted l → PageSorted (cut l start end)
unfolding cut slice
cut-PageSorted l (negsuc _) end h = tt
cut-PageSorted l (pos a) (negsuc _) h = tt
cut-PageSorted l (pos a) (pos b) h = elim (Bool-cases (ltb b a)) [
  | inl e ↦ rw (PageSorted, cut, slice, e) tt
  | inr e ↦ rw (PageSorted, cut, slice, e) (take-IsSorted (b - a) (drop a l) (drop-IsSorted a l h))
]

-- Whatever the start and the limit are, a page of a sorted list is sorted.
pub paginate-PageSorted :
    (l : List Snapshot) (start max : ℤ) → IsSorted l → PageSorted (paginate l start max)
unfolding paginate
paginate-PageSorted l start max h =
    elim (Bool-cases ((length l == 0) || ltb_ℤ (pos (length l)) start)) [
      | inl e ↦ rw (PageSorted, paginate, e) h
      | inr e ↦
          rw (PageSorted, paginate, e) (cut-PageSorted l start (page_end (length l) start max) h)
    ]

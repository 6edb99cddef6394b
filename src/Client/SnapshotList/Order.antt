-- ===== src/Client/SnapshotList/Order.antt =====
-- The order of the listing of `ListSnapshots`, and what it holds.
use mathlib.Core.List.{Perm}
use mathlib.Core.List.Perm
use datera_csi.Base.{
  String, ◌≡◌, refl, true, false, List, [], ◌∷◌, arith, All, Bool-cases, inl, inr,
}
use text.Mathlib.TextEquality.{Char-path}
use datera_csi.Base.Text.{text_lt}
use datera_csi.Client.SnapshotList.{Snapshot, insert_by_id, sort_by_id}

-- Two texts of which neither is before the other are equal.
pub text_lt_antisym : (s t : String) → text_lt s t ≡ false → text_lt t s ≡ false → s ≡ t
unfolding text_lt
text_lt_antisym String.[] String.[] h k = refl
text_lt_antisym String.[] (String.◌∷◌ d t) h k = cc
text_lt_antisym (String.◌∷◌ c s) String.[] h k = cc
text_lt_antisym (String.◌∷◌ c s) (String.◌∷◌ d t) h k =
    ground (arith, text_lt_antisym s t, Char-path c d)

text_lt_asym : (s t : String) → text_lt s t ≡ true → text_lt t s ≡ false
unfolding text_lt
text_lt_asym String.[] String.[] h = cc
text_lt_asym String.[] (String.◌∷◌ d t) h = refl
text_lt_asym (String.◌∷◌ c s) String.[] h = cc
text_lt_asym (String.◌∷◌ c s) (String.◌∷◌ d t) h = ground (arith, text_lt_asym s t)

text_lt_trans : (s t u : String) → text_lt s t ≡ true → text_lt t u ≡ true → text_lt s u ≡ true
unfolding text_lt
text_lt_trans String.[] String.[] u h k = k
text_lt_trans String.[] (String.◌∷◌ d t) String.[] h k = k
text_lt_trans String.[] (String.◌∷◌ d t) (String.◌∷◌ e u) h k = refl
text_lt_trans (String.◌∷◌ c s) String.[] u h k = cc
text_lt_trans (String.◌∷◌ c s) (String.◌∷◌ d t) String.[] h k = cc
text_lt_trans (String.◌∷◌ c s) (String.◌∷◌ d t) (String.◌∷◌ e u) h k =
    ground (arith, text_lt_trans s t u)

text_le_trans : (s t u : String) → text_lt s t ≡ false → text_lt t u ≡ false → text_lt s u ≡ false
text_le_trans s t u h k = elim (Bool-cases (text_lt s u)) [
  | inr e ↦ e
  | inl e ↦ elim (Bool-cases (text_lt t s)) [
    | inl ts ↦ ground (arith, text_lt_trans t s u ts e)
    | inr ts ↦ ground (arith, text_lt_antisym s t h ts)
  ]
]

-- No entry is before one that stands in front of it.
abbrev pub IsSorted : List Snapshot → Type 0
IsSorted [] = Unit {0}
IsSorted (s ∷ ss) = All (λ t. text_lt t.id s.id ≡ false) ss × IsSorted ss

All-insert :
    (x s : Snapshot) (l : List Snapshot)
    → text_lt s.id x.id ≡ false
    → All (λ (t : Snapshot). text_lt t.id x.id ≡ false) l
    → All (λ (t : Snapshot). text_lt t.id x.id ≡ false) (insert_by_id s l)
unfolding insert_by_id
All-insert x s [] h k = (h, tt)
All-insert x s (u ∷ l) h (k, ks) = ground (arith, All-insert x s l h ks)

All-weaken :
    (s u : Snapshot) (l : List Snapshot)
    → text_lt u.id s.id ≡ false
    → All (λ (t : Snapshot). text_lt t.id u.id ≡ false) l
    → All (λ (t : Snapshot). text_lt t.id s.id ≡ false) l
All-weaken s u [] h k = tt
All-weaken s u (t ∷ l) h (k, ks) = (text_le_trans t.id u.id s.id k h, All-weaken s u l h ks)

insert-IsSorted : (s : Snapshot) (l : List Snapshot) → IsSorted l → IsSorted (insert_by_id s l)
unfolding insert_by_id
insert-IsSorted s [] h = (tt, tt)
insert-IsSorted s (u ∷ l) (k, h) = elim (Bool-cases (text_lt u.id s.id)) [
  | inl e ↦ rw e (All-insert u s l (text_lt_asym u.id s.id e) k, insert-IsSorted s l h)
  | inr e ↦ rw e ((e, All-weaken s u l e k), (k, h))
]

-- The sorted listing is in order: no entry has an id that is before that of an entry in front of it.
pub sort_by_id-IsSorted : (l : List Snapshot) → IsSorted (sort_by_id l)
unfolding sort_by_id
sort_by_id-IsSorted [] = tt
sort_by_id-IsSorted (s ∷ l) = insert-IsSorted s (sort_by_id l) (sort_by_id-IsSorted l)

insert-perm : (s : Snapshot) (l : List Snapshot) → Perm (insert_by_id s l) (s ∷ l)
unfolding insert_by_id
insert-perm s [] = Perm.refl (s ∷ [])
insert-perm s (u ∷ l) = elim (Bool-cases (text_lt u.id s.id)) [
  | inl e ↦ rw e (Perm.trans (Perm.cons u (insert-perm s l)) (Perm.swap s u l))
  | inr e ↦ rw e (Perm.refl (s ∷ u ∷ l))
]

-- The sorted listing has every snapshot as often as it was found.
pub sort_by_id-perm : (l : List Snapshot) → Perm (sort_by_id l) l
unfolding sort_by_id
sort_by_id-perm [] = Perm.refl []
sort_by_id-perm (s ∷ l) =
    Perm.trans (insert-perm s (sort_by_id l)) (Perm.cons s (sort_by_id-perm l))

-- Two inserts, the id of one being before that of the other, can be made in either order.
pub insert_comm :
    (s t : Snapshot) (l : List Snapshot)
    → (text_lt s.id t.id ≡ true)
    → insert_by_id s (insert_by_id t l) ≡ insert_by_id t (insert_by_id s l)
unfolding insert_by_id
insert_comm s t [] h = ground (arith, text_lt_asym s.id t.id)
insert_comm s t (u ∷ l) h = ground (
  arith,
  text_lt_asym s.id t.id,
  text_lt_asym u.id t.id,
  text_lt_asym u.id s.id,
  text_lt_trans s.id t.id u.id,
  text_lt_trans u.id s.id t.id,
  text_lt_trans u.id t.id s.id,
  insert_comm s t l h,
)

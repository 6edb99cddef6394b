-- ===== src/Client/SnapshotList/Schedule.antt =====
-- The sorted listing and the order in which the snapshots were found.
use mathlib.Core.List.{Permᴰ, Pairwise, Pairwise-cons, rel_of_Pairwise-cons, mem-cons_self}
use mathlib.Core.HLevel.{¬_prop}
use mathlib.Core.List
use datera_csi.Base.{◌≡◌, ◌≢◌, refl, sym, ◌∙◌, List, inl, inr, Bool-cases}
use datera_csi.Base.Text.{text_lt}
use datera_csi.Client.SnapshotList.{Snapshot, insert_by_id, sort_by_id}
use datera_csi.Client.SnapshotList.Order.{text_lt_antisym, insert_comm}

-- No two of the snapshots have one id.
abbrev pub DistinctIds : List Snapshot → Type 0
DistinctIds = Pairwise (λ (s t : Snapshot). s.id ≢ t.id)

insert_comm_ne :
    (s t : Snapshot) (l : List Snapshot)
    → s.id ≢ t.id
    → insert_by_id s (insert_by_id t l) ≡ insert_by_id t (insert_by_id s l)
insert_comm_ne s t l h = elim (Bool-cases (text_lt s.id t.id)) [
  | inl e ↦ insert_comm s t l e
  | inr e ↦ elim (Bool-cases (text_lt t.id s.id)) [
    | inl f ↦ sym (insert_comm t s l f)
    | inr f ↦ absurd (h (text_lt_antisym s.id t.id e f))
  ]
]

-- However the snapshots were found, the sorted listing is the same, if no two have one id.
pub sort_by_id-perm_eq :
    {xs ys : List Snapshot} → Permᴰ xs ys → DistinctIds xs → sort_by_id xs ≡ sort_by_id ys
unfolding sort_by_id
sort_by_id-perm_eq Permᴰ.nil d = refl
sort_by_id-perm_eq (Permᴰ.cons {b = b} {l₁ = l₁} e p) d =
    rw (e, sort_by_id-perm_eq p ((Pairwise-cons {R = λ (s t : Snapshot). s.id ≢ t.id}).0 d).1)
sort_by_id-perm_eq (Permᴰ.swap {a = a} {b = b} {l = l} e f) d =
    rw (← e, ← f)
      (insert_comm_ne a b (sort_by_id l)
        (rel_of_Pairwise-cons {R = λ (s t : Snapshot). s.id ≢ t.id} d mem-cons_self))
sort_by_id-perm_eq (Permᴰ.trans p q) d =
    sort_by_id-perm_eq p d
    ∙ sort_by_id-perm_eq q (List.Permᴰ.pairwise (λ a b. ¬_prop) (λ x y r e. r (sym e)) p d)

-- ===== src/Client/SnapshotList/Pages.antt =====
-- The pages of `ListSnapshots`.
use Prim.Native.Nat.add
use native.Mathlib.Nat.{zero-add, add-zero}
use mathlib.Core.List.{append-nil}
use datera_csi.Base.{
  take-append-drop, ℕ, zero, suc, ◌+◌, ◌-◌, ◌*◌, ◌^◌, ◌≤◌, ◌<◌, ◌≡◌, refl, ◌≢◌, false, List, [],
  ◌∷◌, ◌++◌, arith, ltb, length, take, drop, if◌then◌else◌, length-drop, Bool-cases, inl, inr,
}
use datera_csi.Base.Int.{ℤ, pos, negsuc, ◌-ℤ◌, eqb_ℤ, add-pos, wrap64-eq_self}
use datera_csi.Base.Go.{Result, ok, err, panic}
use datera_csi.Client.SnapshotList.{paginate, cut, page_end}

page_end-limit :
    (n s m : ℕ)
    → n < 2 ^ 62
    → s ≤ n
    → 0 < m
    → m < 2 ^ 62
    → page_end n (pos s) (pos m) ≡ pos (if ltb n (s + m) then n else s + m)
unfolding page_end
page_end-limit n s m big s_le m_pos m_lt =
    let e : eqb_ℤ (pos m) (pos 0) ≡ false = ground arith in
    rw (page_end, e, add-pos, wrap64-eq_self (pos (s + m)) (omega arith)) (ground arith)

page_end_rest : (n s : ℕ) → n < 2 ^ 62 → s ≤ n → 0 < n → page_end n (pos s) (pos 0) ≡ pos n
unfolding page_end
page_end_rest n s big s_le n_pos =
    let d : pos n -ℤ pos s ≡ pos (n - s) = unfold ◌-ℤ◌ in ground arith in
    let e : s + (n - s) ≡ n = omega arith in
    rw
      (
        page_end,
        d,
        wrap64-eq_self (pos (n - s)) (omega arith),
        add-pos,
        e,
        wrap64-eq_self (pos n) (omega arith),
      )
      (ground arith)

take_all {ℓ} : {A : Type ℓ} (k : ℕ) (ys : List A) → length ys ≤ k → take k ys ≡ ys
take_all zero [] h = refl
take_all zero (y ∷ ys) h = absurd (omega arith)
take_all (suc k) [] h = refl
take_all (suc k) (y ∷ ys) h = rw (take_all k ys (omega arith))

drop_all {ℓ} : {A : Type ℓ} (k : ℕ) (ys : List A) → length ys ≤ k → drop k ys ≡ []
drop_all zero [] h = refl
drop_all zero (y ∷ ys) h = absurd (omega arith)
drop_all (suc k) [] h = refl
drop_all (suc k) (y ∷ ys) h = drop_all k ys (omega arith)

drop-drop {ℓ} : {A : Type ℓ} (n m : ℕ) (ys : List A) → drop m (drop n ys) ≡ drop (n + m) ys
drop-drop zero m ys = rw zero-add
drop-drop (suc n) zero [] = rw add-zero
drop-drop (suc n) (suc m) [] = rw add.suc
drop-drop (suc n) m (y ∷ ys) = rw (add.suc, drop-drop n m ys)

module _ {A : Type 0} where
  cut-pos :
      (xs : List A) (s t : ℕ)
      → s ≤ t
      → cut xs (pos s) (pos t) ≡ ok (take (t - s) (drop s xs), pos t)
  unfolding cut
  cut-pos xs s t h = ground arith

  paginate-cut :
      (xs : List A) (s : ℕ) (max : ℤ)
      → 0 < length xs
      → s ≤ length xs
      → paginate xs (pos s) max ≡ cut xs (pos s) (page_end (length xs) (pos s) max)
  unfolding paginate
  paginate-cut xs s max h k = ground arith

  -- A page of a list of fewer than 2^62 entries that is not empty, from a start within the list and
  -- with a limit m above 0 and below 2^62: the m entries from the start on, or those that are left, and the token of the entry
  -- behind them.
  pub paginate_page :
      (xs : List A) (s m : ℕ)
      → length xs < 2 ^ 62
      → 0 < length xs
      → s ≤ length xs
      → 0 < m
      → m < 2 ^ 62
      → paginate xs (pos s) (pos m)
        ≡ ok (take m (drop s xs), pos (if ltb (length xs) (s + m) then length xs else s + m))
  paginate_page xs s m big some_left s_le m_pos m_lt =
      rw
        (
          paginate-cut xs s (pos m) some_left s_le,
          page_end-limit (length xs) s m big s_le m_pos m_lt,
        )
        (elim (Bool-cases (ltb (length xs) (s + m))) [
          | inl past ↦ rw (
            past,
            cut-pos xs s (length xs) s_le,
            take_all (length xs - s) (drop s xs) (omega (arith, length-drop s xs)),
            take_all m (drop s xs) (ground (arith, length-drop s xs)),
          )
          | inr within ↦
              let e : s + m - s ≡ m = omega arith in
              rw (within, cut-pos xs s (s + m) (omega arith), e)
        ])

  -- With no limit the page is the rest of the list, and the token is its length: for a list of fewer
  -- than 2^62 entries that is not empty, and a start within it.
  pub paginate_rest :
      (xs : List A) (s : ℕ)
      → length xs < 2 ^ 62
      → 0 < length xs
      → s ≤ length xs
      → paginate xs (pos s) (pos 0) ≡ ok (drop s xs, pos (length xs))
  paginate_rest xs s big some_left s_le = rw (
    paginate-cut xs s (pos 0) some_left s_le,
    page_end_rest (length xs) s big s_le some_left,
    cut-pos xs s (length xs) s_le,
    take_all (length xs - s) (drop s xs) (omega (arith, length-drop s xs)),
  )

  -- A negative start panics, whatever the limit, on a list that is not empty.
  pub paginate_negative :
      (xs : List A) (k : ℕ) (max : ℤ) → 0 < length xs → paginate xs (negsuc k) max ≡ panic
  unfolding paginate
  paginate_negative xs k max h = ground arith

  -- Following the tokens of pages of m entries, for a number of rounds.
  pub walk : ℕ → List A → ℕ → ℤ → Result (List A)
  walk zero xs m token = ok []
  walk (suc rounds) xs m token = elim (paginate xs token (pos m)) [
    | ok (page, next) ↦ elim (walk rounds xs m next) [
      | ok more ↦ ok (page ++ more)
      | err e ↦ err e
      | panic ↦ panic
    ]
    | err e ↦ err e
    | panic ↦ panic
  ]

  -- Enough pages show every entry once and in order: whatever the size of the pages, the walk from
  -- a position shows what stands from there on, if its rounds times the page size reach the end. The
  -- list is not empty and has fewer than 2^62 entries, the position is within it, and the page size is
  -- above 0 and below 2^62.
  pub walk_complete :
      (rounds : ℕ) (xs : List A) (s m : ℕ)
      → length xs < 2 ^ 62
      → 0 < length xs
      → s ≤ length xs
      → 0 < m
      → m < 2 ^ 62
      → length xs ≤ s + rounds * m
      → walk rounds xs m (pos s) ≡ ok (drop s xs)
  unfolding walk
  walk_complete zero xs s m big some_left s_le m_pos m_lt reach = rw (drop_all s xs (omega arith))
  walk_complete (suc rounds) xs s m big some_left s_le m_pos m_lt reach =
      rw (walk, paginate_page xs s m big some_left s_le m_pos m_lt)
        (elim (Bool-cases (ltb (length xs) (s + m))) [
          | inl past ↦ rw (
            past,
            walk_complete rounds xs (length xs) m big some_left (omega arith) m_pos m_lt
                (omega arith),
            drop_all (length xs) xs (omega arith),
            take_all m (drop s xs) (ground (arith, length-drop s xs)),
            append-nil,
          )
          | inr within ↦ rw (
            within,
            walk_complete rounds xs (s + m) m big some_left (ground arith) m_pos m_lt (grind arith),
            ← drop-drop s m xs,
            take-append-drop,
          )
        ])

  -- From any position within a list that is not empty, of fewer than 2^62 entries, with any limit
  -- from 0 to 2^62 the token of a page is never 0, which the response
  -- writes as the empty token: it names the entry behind the page, also where there is none.
  pub paginate-token :
      (xs : List A) (s m : ℕ) (page : List A) (next : ℤ)
      → length xs < 2 ^ 62
      → 0 < length xs
      → s ≤ length xs
      → m < 2 ^ 62
      → paginate xs (pos s) (pos m) ≡ ok (page, next)
      → next ≢ pos 0
  paginate-token xs s zero page next big some_left s_le m_lt h =
      ground (arith, paginate_rest xs s big some_left s_le)
  paginate-token xs s (suc m) page next big some_left s_le m_lt h =
      ground (arith, paginate_page xs s (suc m) big some_left s_le (omega arith) m_lt)

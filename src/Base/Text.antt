-- ===== src/Base/Text.antt =====
-- The functions of Go's `strings` and `strconv` that the program calls, over native texts.
pub mod Fields
use Prim.Native.Char.{Char, code}
use Prim.Native.String.{String, [], ◌∷◌, ◌++◌ as ◌<>◌}
use Prim.Native.Nat.{ℕ}
use mathlib.Core.Path.{◌≡◌, refl}
use text.Mathlib.TextEquality.{Char-path}
use mathlib.Core.Logic.{inl, inr}
use mathlib.Core.Bool.{Bool, true, false, ◌&&◌, ◌||◌}
use mathlib.Core.List.{List}
use native.Mathlib.Omega.{arith}
pub use text.Mathlib.Text.{starts_with}
use text.Mathlib.Text.{◌==◌ as ◌str_eq◌}
use text.Mathlib.TextLemmas.{nil-append, cons-append}
use datera_csi.Base.Tests.{ltb, leb, ◌==◌, if◌then◌else◌, Bool-cases}

-- One more character in front of the first part.
abbrev pub cons_first : Char → List String → List String
cons_first c List.[] = List.◌∷◌ (c ∷ []) List.[]
cons_first c (List.◌∷◌ p ps) = List.◌∷◌ (c ∷ p) ps

-- `strings.Split` at a separator of one character, given by its code.
unfoldable pub split : ℕ → String → List String
split sep [] = List.◌∷◌ [] List.[]
split sep (c ∷ s) =
    let parts = split sep s in if code c == sep then List.◌∷◌ [] parts else cons_first c parts

-- `strings.Join`.
unfoldable pub join : String → List String → String
join sep List.[] = []
join sep (List.◌∷◌ p List.[]) = p
join sep (List.◌∷◌ p (List.◌∷◌ q ps)) = p <> (sep <> join sep (List.◌∷◌ q ps))

-- `strings.Contains`.
unfoldable pub contains : String → String → Bool
contains [] sub = starts_with [] sub
contains (c ∷ s) sub = starts_with (c ∷ s) sub || contains s sub

-- The text holds no character of this code.
abbrev pub Lacks : ℕ → String → Type 0
Lacks sep [] = Unit {0}
Lacks sep (c ∷ s) = ((code c == sep) ≡ false) × Lacks sep s

-- A text without the separator is one part.
pub split-Lacks : (sep : ℕ) (s : String) → Lacks sep s → split sep s ≡ List.◌∷◌ s List.[]
unfolding split
split-Lacks sep [] h = refl
split-Lacks sep (c ∷ s) (x, h) = ground (arith, split-Lacks sep s h)

-- A part without the separator is cut off at the first separator.
pub split-append :
    (c : Char) (s t : String)
    → Lacks (code c) s
    → split (code c) (s <> (c ∷ t)) ≡ List.◌∷◌ s (split (code c) t)
unfolding split
split-append c [] t h = rw nil-append (ground arith)
split-append c (d ∷ s) t (x, h) = rw cons-append (ground (arith, split-append c s t h))

-- The same, with the separator as a text of its own.
pub split-join :
    (c : Char) (s t : String)
    → Lacks (code c) s
    → split (code c) (s <> ((c ∷ []) <> t)) ≡ List.◌∷◌ s (split (code c) t)
split-join c s t h = rw (cons-append c [] t, nil-append) (split-append c s t h)

join-cons_first :
    (sep : String) (c : Char) (ps : List String) → join sep (cons_first c ps) ≡ c ∷ join sep ps
unfolding join
join-cons_first sep c List.[] = refl
join-cons_first sep c (List.◌∷◌ p List.[]) = refl
join-cons_first sep c (List.◌∷◌ p (List.◌∷◌ q ps)) = rw cons-append

join-nil :
    (c : Char) (p : String) (ps : List String)
    → join (c ∷ []) (List.◌∷◌ [] (List.◌∷◌ p ps)) ≡ c ∷ join (c ∷ []) (List.◌∷◌ p ps)
unfolding join
join-nil c p ps = rw (nil-append, cons-append c [], nil-append)

-- `strings.Split` has at least one part.
pub split-cons :
    (sep : ℕ) (s : String) → (p : String) × (ps : List String) × (split sep s ≡ List.◌∷◌ p ps)
unfolding split
split-cons sep [] = ([], List.[], refl)
split-cons sep (c ∷ s) = elim (Bool-cases (code c == sep)) [
  | inl e ↦ ([], split sep s, rw e)
  | inr e ↦ let (p, ps, q) = split-cons sep s in (c ∷ p, ps, rw (e, q))
]

-- Joining the parts at the separator gives the text back.
pub join-split : (c : Char) (s : String) → join (c ∷ []) (split (code c) s) ≡ s
unfolding split
join-split c [] = unfold join in refl
join-split c (d ∷ s) = elim (Bool-cases (code d == code c)) [
  | inl e ↦
      let (p, ps, q) = split-cons (code c) s in
      rw (e, q, join-nil, ← q, join-split c s, Char-path d c (ground arith))
  | inr e ↦ rw (e, join-cons_first, join-split c s)
]

-- What the end of a text contains, the text contains.
pub contains-append : (s t sub : String) → contains t sub ≡ true → contains (s <> t) sub ≡ true
unfolding contains
contains-append [] t sub h = rw nil-append h
contains-append (c ∷ s) t sub h =
    rw (cons-append, contains, contains-append s t sub h) (ground arith)

-- `unicode.IsSpace`.
abbrev pub is_space : ℕ → Bool
is_space c =
    (leb 9 c && leb c 13)
    || (c == 32)
    || (c == 0x85)
    || (c == 0xa0)
    || (c == 0x1680)
    || (leb 0x2000 c && leb c 0x200a)
    || (c == 0x2028)
    || (c == 0x2029)
    || (c == 0x202f)
    || (c == 0x205f)
    || (c == 0x3000)

-- `strings.TrimLeftFunc`, `strings.TrimRightFunc` and both.
unfoldable pub trim_left : (ℕ → Bool) → String → String
trim_left p [] = []
trim_left p (c ∷ s) = let rest = trim_left p s in if p (code c) then rest else c ∷ s

unfoldable pub trim_right : (ℕ → Bool) → String → String
trim_right p [] = []
trim_right p (c ∷ s) =
    let rest = trim_right p s in if ◌str_eq◌ rest [] && p (code c) then [] else c ∷ rest

unfoldable pub trim : (ℕ → Bool) → String → String
unfolding trim_left trim_right
trim p s = trim_right p (trim_left p s)

-- `strings.TrimSpace`
unfoldable pub trim_space : String → String
unfolding trim
trim_space s = trim is_space s

-- The order of Go's `<` on strings: that of the bytes, which for UTF-8 is that of the code points.
unfoldable pub text_lt : String → String → Bool
text_lt [] [] = false
text_lt [] (d ∷ t) = true
text_lt (c ∷ s) [] = false
text_lt (c ∷ s) (d ∷ t) =
    let rest = text_lt s t in
    if ltb (code c) (code d) then true else if ltb (code d) (code c) then false else rest

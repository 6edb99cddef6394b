-- ===== src/Base/Text/Fields/Words.antt =====
-- Words: texts that are not empty, hold no space, and do not begin as an option of a command does.
use Prim.Native.Char.{Char, code}
use Prim.Native.String.{String, [], ◌∷◌, ◌++◌ as ◌<>◌}
use mathlib.Core.Path.{◌≡◌, refl}
use mathlib.Core.Bool.{false}
use mathlib.Core.List.{List}
use native.Mathlib.Omega.{arith}
use text.Mathlib.Text.{starts_with, ◌==◌ as str_eq}
use text.Mathlib.TextLemmas.{nil-append, cons-append, cons-ne-nil}
use text.Mathlib.TextEquality.{eq_iff}
use mathlib.Core.Logic.{inl, inr}
use datera_csi.Base.Tests.{Bool-cases}
use datera_csi.Base.Text.{is_space, trim_left, trim_right, trim, trim_space}
use datera_csi.Base.Text.Fields.{end_word, words_of, fields}

abbrev pub NoSpace : String → Type 0
NoSpace [] = Unit {0}
NoSpace (c ∷ s) = (is_space (code c) ≡ false) × NoSpace s

abbrev pub IsWord : String → Type 0
IsWord w = (starts_with w "-" ≡ false) × (str_eq w "" ≡ false) × NoSpace w

trim_right-NoSpace : (w : String) → NoSpace w → trim_right is_space w ≡ w
unfolding trim_right
trim_right-NoSpace [] h = refl
trim_right-NoSpace (c ∷ s) (x, h) = rw (trim_right-NoSpace s h, x) (ground arith)

trim_left-NoSpace : (w : String) → NoSpace w → trim_left is_space w ≡ w
unfolding trim_left
trim_left-NoSpace [] h = refl
trim_left-NoSpace (c ∷ s) (x, h) = rw x

pub trim_space-NoSpace : (w : String) → NoSpace w → trim_space w ≡ w
unfolding trim_space trim
trim_space-NoSpace w h = rw (trim_left-NoSpace w h, trim_right-NoSpace w h)

cons_nonempty : (c : Char) (s : String) → str_eq (c ∷ s) "" ≡ false
cons_nonempty c s = elim (Bool-cases (str_eq (c ∷ s) "")) [
  | inl e ↦ absurd (cons-ne-nil c s ((eq_iff (c ∷ s) "").0 e))
  | inr e ↦ e
]

pub append_nonempty : (s t : String) → str_eq t "" ≡ false → str_eq (s <> t) "" ≡ false
append_nonempty [] t n = rw nil-append n
append_nonempty (c ∷ s) t n = rw (cons-append, cons_nonempty)

-- A text that ends as one does that trimming leaves.
pub trim_right-append :
    (s t : String)
    → str_eq t "" ≡ false
    → trim_right is_space t ≡ t
    → trim_right is_space (s <> t) ≡ s <> t
unfolding trim_right
trim_right-append [] t n h = rw nil-append h
trim_right-append (c ∷ s) t n h =
    rw (cons-append, trim_right, trim_right-append s t n h, append_nonempty s t n)

-- The first word of a text that begins with one and a space.
words_of-append :
    (w t : String)
    → NoSpace w
    → words_of (w <> (" " <> t)) ≡ (w, end_word (words_of t).0 (words_of t).1)
unfolding words_of
words_of-append [] t h = rw (nil-append, cons-append, words_of, nil-append)
words_of-append (c ∷ s) t (x, h) = rw (cons-append, words_of, words_of-append s t h, x)

pub fields-append : (w t : String) → IsWord w → fields (w <> (" " <> t)) ≡ List.◌∷◌ w (fields t)
unfolding fields
fields-append w t (_, n, h) = rw (words_of-append w t h, n)

trim_right-newline : (w : String) → NoSpace w → trim_right is_space (w <> "\n") ≡ w
unfolding trim_right
trim_right-newline [] h = refl
trim_right-newline (c ∷ s) (x, h) =
    rw (cons-append, trim_right, trim_right-newline s h, x) (ground arith)

-- A word and a line end.
pub trim_space-newline : (w : String) → IsWord w → trim_space (w <> "\n") ≡ w
unfolding trim_space trim trim_left
trim_space-newline [] (_, n, h) = absurd (cc)
trim_space-newline (c ∷ s) (_, n, (x, h)) =
    rw (cons-append, trim_left, x) (rw (cons-append c s "\n") at trimmed)
  where
    trimmed : trim_right is_space ((c ∷ s) <> "\n") ≡ c ∷ s
    trimmed = trim_right-newline (c ∷ s) (x, h)

-- The text begins with what is no space.
abbrev pub Begins : String → Type 0
Begins [] = ⊥
Begins (c ∷ s) = is_space (code c) ≡ false

trim_left-append : (s t : String) → Begins s → trim_left is_space (s <> t) ≡ s <> t
unfolding trim_left
trim_left-append [] t h = absurd h
trim_left-append (c ∷ s) t h = rw (cons-append, trim_left, h)

-- A text between whose ends there may be space.
pub trim_space-append :
    (s t : String)
    → Begins s
    → str_eq t "" ≡ false
    → trim_right is_space t ≡ t
    → trim_space (s <> t) ≡ s <> t
unfolding trim_space trim
trim_space-append s t b n h = rw (trim_left-append s t b, trim_right-append s t n h)

-- ===== src/Base/Num/Auto.antt =====
-- `strconv.ParseInt(s, 0, 0)`: the base is read from the text's prefix, and single underscores may
-- separate digits.
use Prim.Native.Char.{code}
use Prim.Native.String.{String, [], ◌∷◌}
use Prim.Native.Nat.{ℕ, ◌+◌, ◌-◌, ◌*◌, ◌^◌}
use mathlib.Core.Bool.{Bool, true, false, not, ◌&&◌, ◌||◌}
use mathlib.Core.Option.{Option, none, some}
use datera_csi.Base.Tests.{leb, ◌==◌, if◌then◌else◌}
use datera_csi.Base.Int.{ℤ}
use datera_csi.Base.Num.{Parsed, value, refused, syntax, range, signed}

-- `c | ('x' - 'X')`, for the letters.
abbrev lower : ℕ → ℕ
lower c = if leb b'A' c && leb c b'Z' then c + 32 else c

digit_value : ℕ → Option ℕ
digit_value c =
    if leb b'0' c && leb c b'9'
    then some (c - b'0')
    else if leb b'a' (lower c) && leb (lower c) b'z'
    then some (lower c - b'a' + 10)
    else none

-- The loop over the digits; `sep` says whether an underscore was seen.
digits_in : ℕ → ℕ → Bool → String → Parsed (ℕ × Bool)
unfolding digit_value
digits_in base n sep [] = value (n, sep)
digits_in base n sep (c ∷ s) =
    let behind_underscore = digits_in base n true s in
    if code c == b'_' then behind_underscore else elim (digit_value (code c)) [
      | none ↦ refused syntax
      | some d ↦
          let rest = digits_in base (n * base + d) sep s in
          if leb base d
          then refused syntax
          else if leb (2 ^ 64) (n * base + d)
          then refused range
          else rest
    ]

-- The last thing that `underscoreOK` saw.
pub data Seen : Type 0 where
  start digit underscore other : Seen

abbrev is_underscore : Seen → Bool
is_underscore underscore = true
is_underscore _ = false

abbrev is_digit_seen : Seen → Bool
is_digit_seen digit = true
is_digit_seen _ = false

underscores_ok : Bool → Seen → String → Bool
underscores_ok hex seen [] = not (is_underscore seen)
underscores_ok hex seen (c ∷ s) =
    let after_digit = underscores_ok hex digit s in
    let after_underscore = underscores_ok hex underscore s in
    let after_other = underscores_ok hex other s in
    if (leb b'0' (code c) && leb (code c) b'9')
      || (hex && leb b'a' (lower (code c)) && leb (lower (code c)) b'f')
    then after_digit
    else if code c == b'_'
    then is_digit_seen seen && after_underscore
    else not (is_underscore seen) && after_other

finish : Bool → Seen → String → Parsed (ℕ × Bool) → Parsed ℕ
unfolding underscores_ok
finish hex seen s (refused e) = refused e
finish hex seen s (value (n, sep)) =
    if sep && not (underscores_ok hex seen s) then refused syntax else value n

-- A text behind a leading 0. A prefix such as 0x needs a digit behind it.
after_zero : String → Parsed ℕ
unfolding finish digits_in
after_zero (c ∷ (d ∷ s)) =
    if lower (code c) == b'b'
    then finish false digit (d ∷ s) (digits_in 2 0 false (d ∷ s))
    else if lower (code c) == b'o'
    then finish false digit (d ∷ s) (digits_in 8 0 false (d ∷ s))
    else if lower (code c) == b'x'
    then finish true digit (d ∷ s) (digits_in 16 0 false (d ∷ s))
    else finish false digit (c ∷ (d ∷ s)) (digits_in 8 0 false (c ∷ (d ∷ s)))
after_zero s = finish false digit s (digits_in 8 0 false s)

parse_uint_auto : String → Parsed ℕ
unfolding after_zero
parse_uint_auto [] = refused syntax
parse_uint_auto (c ∷ s) =
    if code c == b'0'
    then after_zero s
    else finish false start (c ∷ s) (digits_in 10 0 false (c ∷ s))

unfoldable pub parse_int_auto : String → Parsed ℤ
unfolding parse_uint_auto signed
parse_int_auto [] = refused syntax
parse_int_auto (c ∷ s) =
    if code c == b'+'
    then signed false (parse_uint_auto s)
    else if code c == b'-'
    then signed true (parse_uint_auto s)
    else signed false (parse_uint_auto (c ∷ s))

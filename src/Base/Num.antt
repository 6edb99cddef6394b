-- ===== src/Base/Num.antt =====
-- `strconv.ParseInt`, `strconv.ParseBool`, `strconv.FormatInt` and `strconv.FormatBool`, for 64 bits.
pub mod Auto
use Prim.Native.Char.{Char, code}
use Prim.Native.String.{String, [], ◌∷◌, ◌++◌ as ◌<>◌}
use Prim.Native.Nat.{ℕ, zero, suc, ◌+◌, ◌-◌, ◌*◌, ◌/◌, ◌%◌, ◌^◌}
use mathlib.Core.Bool.{Bool, true, false, ◌&&◌, ◌||◌}
use text.Mathlib.Text.{◌==◌ as str_eq}
use datera_csi.Base.Tests.{ltb, leb, ◌==◌, if◌then◌else◌}
use datera_csi.Base.Int.{ℤ, pos, negsuc, sub_ℕ}

-- `strconv.ErrSyntax` and `strconv.ErrRange`.
pub data NumError : Type 0 where
  syntax range : NumError

pub data Parsed (A : Type 0) : Type 0 where
  value : A → Parsed A
  refused : NumError → Parsed A

-- The loop of `strconv.ParseUint` in base 10. A value that leaves 64 bits stops the loop.
parse_digits : ℕ → String → Parsed ℕ
parse_digits n [] = value n
parse_digits n (c ∷ s) =
    let m = n * 10 + (code c - 48) in
    let rest = parse_digits m s in
    if leb 48 (code c) && leb (code c) 57
    then (if leb (2 ^ 64) m then refused range else rest)
    else refused syntax

parse_uint : String → Parsed ℕ
unfolding parse_digits
parse_uint [] = refused syntax
parse_uint (c ∷ s) = parse_digits 0 (c ∷ s)

-- The last part of `strconv.ParseInt`: the sign is put back and the range of int64 is checked.
unfoldable pub signed : Bool → Parsed ℕ → Parsed ℤ
signed negative (refused e) = refused e
signed false (value n) = if leb (2 ^ 63) n then refused range else value (pos n)
signed true (value n) = if ltb (2 ^ 63) n then refused range else value (sub_ℕ 0 n)

-- `strconv.ParseInt(s, 10, 0)`
unfoldable pub parse_int : String → Parsed ℤ
unfolding parse_uint signed
parse_int [] = refused syntax
parse_int (c ∷ s) =
    if code c == b'+'
    then signed false (parse_uint s)
    else if code c == b'-'
    then signed true (parse_uint s)
    else signed false (parse_uint (c ∷ s))

-- `strconv.ParseBool`
unfoldable pub parse_bool : String → Parsed Bool
parse_bool s =
    if str_eq s "1"
      || str_eq s "t"
      || str_eq s "T"
      || str_eq s "true"
      || str_eq s "TRUE"
      || str_eq s "True"
    then value true
    else if str_eq s "0"
        || str_eq s "f"
        || str_eq s "F"
        || str_eq s "false"
        || str_eq s "FALSE"
        || str_eq s "False"
    then value false
    else refused syntax

-- The text of a `*strconv.NumError`.
abbrev pub num_error_text : String → String → NumError → String
num_error_text function s syntax =
    "strconv." <> (function <> (": parsing \"" <> (s <> "\": invalid syntax")))
num_error_text function s range =
    "strconv." <> (function <> (": parsing \"" <> (s <> "\": value out of range")))

abbrev pub digit : ℕ → String
digit n =
    if n == 0
    then "0"
    else if n == 1
    then "1"
    else if n == 2
    then "2"
    else if n == 3
    then "3"
    else if n == 4
    then "4"
    else if n == 5
    then "5"
    else if n == 6
    then "6"
    else if n == 7
    then "7"
    else if n == 8
    then "8"
    else "9"

-- The decimal digits of a number below 10 ^ fuel, in front of `rest`.
format_digits : ℕ → ℕ → String → String
format_digits zero n rest = rest
format_digits (suc fuel) n rest =
    let more = format_digits fuel (n / 10) (digit (n % 10) <> rest) in
    if n / 10 == 0 then digit (n % 10) <> rest else more

-- `strconv.FormatInt(i, 10)`: an int64 has at most 19 digits.
unfoldable pub format_int : ℤ → String
unfolding format_digits
format_int (pos n) = format_digits 20 n ""
format_int (negsuc n) = "-" <> format_digits 20 (suc n) ""

abbrev pub format_bool : Bool → String
format_bool true = "true"
format_bool false = "false"

-- ===== src/Common/Version.antt =====
-- `versionToInt` and `DatVersionGte` of pkg/common/util.go.
pub mod Order
use datera_csi.Base.{
  String, ℕ, ◌*◌, ◌/◌, ◌^◌, ◌+◌, ◌<◌, ◌≡◌, refl, Bool, true, false, not, List, [], ◌∷◌, arith, ltb,
  if◌then◌else◌,
}
use datera_csi.Base.Int.{ℤ, pos, ◌+ℤ◌, ◌*ℤ◌, wrap64, ltb_ℤ}
use datera_csi.Base.Text.{split}
use datera_csi.Base.Num.{parse_int, num_error_text, value, refused}
use datera_csi.Base.Go.{Result, ok, err, panic, plain}

-- The loop over the parts. `factor` is the float 10^8, divided by 100 each round: exact while it is
-- at least 1, and below 1 `int(factor)` is 0, as the quotient of numbers is.
unfoldable pub add_parts : ℕ → ℤ → List String → Result ℤ
add_parts factor result [] = ok result
add_parts factor result (c ∷ cs) = elim (parse_int c) [
  | refused e ↦ err (plain (num_error_text "ParseInt" c e))
  | value i ↦ add_parts (factor / 100) (wrap64 (result +ℤ wrap64 (i *ℤ pos factor))) cs
]

unfoldable pub version_to_int : String → Result ℤ
version_to_int v = add_parts (10 ^ 8) (pos 0) (split b'.' v)

unfoldable pub dat_version_gte : String → String → Result Bool
dat_version_gte v1 v2 = elim (version_to_int v1) [
  | err e ↦ err e
  | panic ↦ panic
  | ok a ↦ elim (version_to_int v2) [ err e ↦ err e | panic ↦ panic | ok b ↦ ok (not (ltb_ℤ a b)) ]
]

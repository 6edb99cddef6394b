-- ===== src/Common/Version/Order.antt =====
-- The order on versions that the encoding as one number gives.
use datera_csi.Base.{
  String, ℕ, ◌*◌, ◌/◌, ◌^◌, ◌+◌, ◌<◌, ◌≡◌, Bool, true, false, List, [], ◌∷◌, arith, ltb,
  if◌then◌else◌,
}
use datera_csi.Base.Int.{pos, wrap64-eq_self, mul-pos, add-pos}
use datera_csi.Base.Text.{split}
use datera_csi.Base.Num.{parse_int, value}
use datera_csi.Base.Go.{ok}
use datera_csi.Common.Version.{add_parts, version_to_int, dat_version_gte}

-- The four parts of a version are numbers, the first below 2^32 and the others below 100. The number
-- that encodes such a version fits an int64.
pub record IsVersion (v : String) (a b c d : ℕ) : Type 0 where
  pub major : String
  pub minor : String
  pub patch : String
  pub subpatch : String
  pub parts : split b'.' v ≡ major ∷ minor ∷ patch ∷ subpatch ∷ []
  pub is_major : parse_int major ≡ value (pos a)
  pub is_minor : parse_int minor ≡ value (pos b)
  pub is_patch : parse_int patch ≡ value (pos c)
  pub is_subpatch : parse_int subpatch ≡ value (pos d)
  pub major_lt : a < 2 ^ 32
  pub minor_lt : b < 100
  pub patch_lt : c < 100
  pub subpatch_lt : d < 100

-- The first part that differs decides.
unfoldable pub lex_gte : List ℕ → List ℕ → Bool
lex_gte (x ∷ xs) (y ∷ ys) =
    let rest = lex_gte xs ys in if ltb y x then true else if ltb x y then false else rest
lex_gte _ _ = true

add_parts-cons :
    (factor n i : ℕ) (c : String) (cs : List String)
    → parse_int c ≡ value (pos i)
    → n + i * factor < 2 ^ 63
    → add_parts factor (pos n) (c ∷ cs) ≡ add_parts (factor / 100) (pos (n + i * factor)) cs
unfolding add_parts
add_parts-cons factor n i c cs e h = rw (
  e,
  add_parts,
  mul-pos,
  wrap64-eq_self (pos (i * factor)) (omega arith),
  add-pos,
  wrap64-eq_self (pos (n + i * factor)) h,
)

version_to_int-IsVersion :
    (v : String) (a b c d : ℕ)
    → IsVersion v a b c d
    → version_to_int v ≡ ok (pos (a * 10 ^ 8 + b * 10 ^ 6 + c * 10 ^ 4 + d * 100))
unfolding version_to_int
version_to_int-IsVersion v a b c d h =
    rw
      (
        version_to_int,
        h.parts,
        add_parts-cons (10 ^ 8) 0 a h.major _ h.is_major (omega arith),
        add_parts-cons (10 ^ 6) (0 + a * 10 ^ 8) b h.minor _ h.is_minor (omega arith),
        add_parts-cons (10 ^ 4) (0 + a * 10 ^ 8 + b * 10 ^ 6) c h.patch _ h.is_patch (omega arith),
        add_parts-cons 100 (0 + a * 10 ^ 8 + b * 10 ^ 6 + c * 10 ^ 4) d h.subpatch _ h.is_subpatch
            (omega arith),
      )
      (unfold add_parts in ground arith)

-- Two versions of four parts, the first part below 2^32 and each other below 100, are compared part by
-- part: the first part that differs decides.
pub dat_version_gte-lex :
    (v w : String) (a b c d a' b' c' d' : ℕ)
    → IsVersion v a b c d
    → IsVersion w a' b' c' d'
    → dat_version_gte v w ≡ ok (lex_gte (a ∷ b ∷ c ∷ d ∷ []) (a' ∷ b' ∷ c' ∷ d' ∷ []))
unfolding dat_version_gte lex_gte
dat_version_gte-lex v w a b c d a' b' c' d' h k =
    rw
      (
        version_to_int-IsVersion v a b c d h,
        dat_version_gte,
        version_to_int-IsVersion w a' b' c' d' k,
      )
      (ground arith)

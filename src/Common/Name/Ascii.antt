-- ===== src/Common/Name/Ascii.antt =====
-- The names that `GenName` gives to ASCII names.
use datera_csi.Base.{
  String, ◌<>◌, ℕ, ◌≤◌, ◌≡◌, false, len, count, ltb, str_eq, arith, Bool-cases, inl, inr,
  if◌then◌else◌,
}
use datera_csi.Base.Go.{ok}
use datera_csi.Common.Name.{max_l, take_runes, truncated, gen_name}

-- If a name is not empty and has as many code points as bytes, as an ASCII name has, and the runtime
-- gives a slice at least the capacity of its length, `GenName` does not panic: the result is "CSI-"
-- and the name, of which only the first 58 code points are taken if it has more than 58 bytes.
pub gen_name_ascii :
    (rune_cap : ℕ → ℕ) (fresh_id name : String)
    → ((n : ℕ) → n ≤ rune_cap n)
    → str_eq name "" ≡ false
    → count name ≡ len name
    → gen_name rune_cap fresh_id name
      ≡ ok ("CSI" <> ("-" <> (if ltb max_l (len name) then take_runes max_l name else name)))
unfolding gen_name
gen_name_ascii rune_cap fresh_id name grows named ascii = elim (Bool-cases (ltb max_l (len name))) [
  | inl e ↦ rw (gen_name, named, truncated, e, ascii) (ground (arith, grows (len name)))
  | inr e ↦ rw (gen_name, named, truncated, e)
]

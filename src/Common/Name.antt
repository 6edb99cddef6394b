-- ===== src/Common/Name.antt =====
-- `GenName` of pkg/common/util.go: the backend's name of a volume.
pub mod Ascii
use Prim.Native.Char.{nul}
use datera_csi.Base.{ℕ, zero, suc, String, len, count, [], ◌∷◌, ltb, str_eq, if◌then◌else◌}
use datera_csi.Base.Text.{join}
use datera_csi.Base.Go.{Result, ok, err, panic}

abbrev pub max_l : ℕ
max_l = 58

-- The first n code points; past the end the runes of a slice are 0.
abbrev pub take_runes : ℕ → String → String
take_runes zero s = String.[]
take_runes (suc n) String.[] = String.◌∷◌ nul (take_runes n String.[])
take_runes (suc n) (String.◌∷◌ c s) = String.◌∷◌ c (take_runes n s)

-- `rune_cap n` is the capacity that Go's runtime gives to a slice of n runes: `rns[:maxL]` panics
-- where it is below `maxL`, though the slice's length plays no part. `fresh_id` is `GenId()`.
module _ (rune_cap : ℕ → ℕ) (fresh_id : String) where
  truncated : String → Result String
  truncated name =
      if ltb max_l (len name)
      then (if ltb (rune_cap (count name)) max_l then panic else ok (take_runes max_l name))
      else ok name

  unfoldable pub gen_name : String → Result String
  unfolding truncated join
  gen_name name = elim (truncated (if str_eq name "" then fresh_id else name)) [
    | ok n ↦ ok (join "-" ("CSI" ∷ n ∷ []))
    | err e ↦ err e
    | panic ↦ panic
  ]

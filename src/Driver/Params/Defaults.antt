-- ===== src/Driver/Params/Defaults.antt =====
-- The defaults that `parseVolParams` fills in, and the settings with them.
use mathlib.Core.Option.{or_else}
use datera_csi.Base.{
  String, ◌≡◌, refl, Option, none, some, [], ◌∷◌, arith, str_eq, eq_iff, Option-cases, inl, inr,
  if◌then◌else◌,
}
use datera_csi.Base.Dict.{Dict, lookup, get, lookup-insert}
use datera_csi.Driver.Params.{set_default, vol_defaults}

-- The defaults that the source writes. The README lists two more, for fs_type and fs_args.
abbrev pub defaults : Dict String
defaults =
    ("iops_per_gb", "0")
    ∷ ("bandwidth_per_gb", "0")
    ∷ ("placement_mode", "hybrid")
    ∷ ("placement_policy", "default")
    ∷ ("round_robin", "false")
    ∷ ("replica_count", "3")
    ∷ ("ip_pool", "default")
    ∷ ("template", "")
    ∷ ("disable_template_override", "false")
    ∷ ("read_iops_max", "0")
    ∷ ("write_iops_max", "0")
    ∷ ("total_iops_max", "0")
    ∷ ("read_bandwidth_max", "0")
    ∷ ("write_bandwidth_max", "0")
    ∷ ("total_bandwidth_max", "0")
    ∷ ("delete_on_unmount", "false")
    ∷ []

-- The value of a parameter: what was passed, else the default.
unfoldable pub setting : String → Dict String → Option String
setting k params = or_else (lookup k params) (lookup k defaults)

lookup-set_default :
    (j k d : String) (m : Dict String)
    → lookup j (set_default k d m) ≡ or_else (lookup j m) (if str_eq k j then some d else none)
unfolding set_default or_else
lookup-set_default j k d m = elim (Option-cases (lookup k m)) [
  | inl e ↦ rw (e, set_default, lookup-insert j k d m) (ground (arith, eq_iff k j))
  | inr (v, e) ↦ rw (e, set_default) (ground (arith, eq_iff k j))
]

or_else_assoc : (a b c : Option String) → or_else (or_else a b) c ≡ or_else a (or_else b c)
unfolding or_else
or_else_assoc none b c = refl
or_else_assoc (some v) b c = refl

lookup-cons :
    (k j v : String) (m : Dict String)
    → lookup k ((j, v) ∷ m) ≡ or_else (if str_eq j k then some v else none) (lookup k m)
unfolding lookup or_else
lookup-cons k j v m = ground arith

lookup-nil_or : (a : Option String) (k : String) → or_else a (lookup k []) ≡ a
unfolding lookup or_else
lookup-nil_or none k = refl
lookup-nil_or (some v) k = refl

-- The map with the defaults filled in has the setting of each key.
lookup-vol_defaults : (k : String) (p : Dict String) → lookup k (vol_defaults p) ≡ setting k p
unfolding vol_defaults setting
lookup-vol_defaults k p = simp (lookup-set_default, or_else_assoc, lookup-cons, lookup-nil_or)

unfoldable pub text : String → Dict String → String
text k params = elim (setting k params) [ none ↦ "" | some v ↦ v ]

pub get-vol_defaults : (k : String) (p : Dict String) → get k (vol_defaults p) ≡ text k p
unfolding get text
get-vol_defaults k p = rw (get, text, lookup-vol_defaults k p)

-- ===== src/Base/Dict.antt =====
-- Go's `map[string]V` as an association list. The program reads maps by key; where it ranges over
-- one, it copies the entries to another map, so the order of entries is not modelled.
use Prim.Native.String.{String}
use mathlib.Core.Path.{◌≡◌, refl}
use mathlib.Core.Bool.{false}
use mathlib.Core.Option.{Option, none, some}
use mathlib.Core.List.{List, [], ◌∷◌}
use native.Mathlib.Omega.{arith}
use text.Mathlib.Text.{◌==◌}
use text.Mathlib.TextEquality.{eq_iff}
use text.Mathlib.TextPositions.{eq_refl}
use datera_csi.Base.Tests.{if◌then◌else◌}

abbrev pub Dict {ℓ} : Type ℓ → Type ℓ
Dict V = List (String × V)

module _ {ℓ} {V : Type ℓ} where
  -- `v, ok := m[k]`
  unfoldable pub lookup : String → Dict V → Option V
  lookup k [] = none
  lookup k ((j, v) ∷ m) = if j == k then some v else lookup k m

  -- `m[k] = v`
  unfoldable pub insert : String → V → Dict V → Dict V
  insert k v [] = (k, v) ∷ []
  insert k v ((j, w) ∷ m) = let rest = insert k v m in if j == k then (k, v) ∷ m else (j, w) ∷ rest

  -- `for k, v := range src { m[k] = v }`
  unfoldable pub insert_all : Dict V → Dict V → Dict V
  insert_all [] m = m
  insert_all ((k, v) ∷ src) m = insert_all src (insert k v m)

  pub lookup-nil : (k : String) → lookup k [] ≡ none
  unfolding lookup
  lookup-nil k = refl

  pub lookup-insert :
      (j k : String) (v : V) (m : Dict V)
      → lookup j (insert k v m) ≡ (if k == j then some v else lookup j m)
  unfolding lookup insert
  lookup-insert j k v [] = refl
  lookup-insert j k v ((i, w) ∷ m) =
      ground (arith, eq_iff k j, eq_iff i k, eq_iff i j, lookup-insert j k v m)

-- `m[k]` in an expression: the zero value "" for a missing key.
unfoldable pub get : String → Dict String → String
unfolding lookup
get k m = elim (lookup k m) [ none ↦ "" | some v ↦ v ]

pub get-lookup : (k v : String) (m : Dict String) → lookup k m ≡ some v → get k m ≡ v
unfolding get
get-lookup k v m e = rw (get, e)

pub get-insert_other :
    (j k v : String) (m : Dict String) → (k == j) ≡ false → get j (insert k v m) ≡ get j m
unfolding get
get-insert_other j k v m e = rw (get, lookup-insert j k v m, e)

pub get-insert_same : (k v : String) (m : Dict String) → get k (insert k v m) ≡ v
unfolding get
get-insert_same k v m = rw (get, lookup-insert k k v m, eq_refl k)

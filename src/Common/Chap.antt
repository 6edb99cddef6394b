-- ===== src/Common/Chap.antt =====
-- `StripSecretsAndGetChapParams` of pkg/common/util.go. The secrets of a request are moved to a map of
-- their own, and a mark takes their place, before the request is logged.
use datera_csi.Base.{
  String, Option, none, some, [], ◌≡◌, arith, Bool, true, false, ◌||◌, if◌then◌else◌,
}
use mathlib.Core.Option.{or_else}
use datera_csi.Base.{refl, str_eq, eq_iff, Option-cases, inl, inr}
use datera_csi.Base.Dict.{Dict, lookup, insert, lookup-insert, lookup-nil}

-- What the type switch tells apart.
pub data Request : Type 0 where
  create_volume node_stage_volume delete_volume : Dict String → Request
  other : Request

abbrev pub stripped : String
stripped = "***stripped***"

-- `if value, exists := secrets[key]; exists {secrets[key] = ...; chapParams[key] = value }`
unfoldable pub move_key : String → Dict String × Dict String → Dict String × Dict String
move_key key (secrets, chap) = elim (lookup key secrets) [
  | none ↦ (secrets, chap)
  | some v ↦ (insert key stripped secrets, insert key v chap)
]

-- The secrets as the request holds them afterwards, and the CHAP parameters.
unfoldable pub strip : Dict String → Dict String × Dict String
strip secrets = move_key "node.session.auth.password_in" (
    move_key "node.session.auth.username_in"
      (move_key "node.session.auth.password" (move_key "node.session.auth.username" (secrets, []))))

with_secrets : (Dict String → Request) → Dict String × Dict String → Request × Dict String
with_secrets make (secrets, chap) = (make secrets, chap)

-- The request afterwards, and the map that is returned.
unfoldable pub strip_secrets_and_get_chap_params : Request → Request × Dict String
unfolding strip with_secrets
strip_secrets_and_get_chap_params (create_volume secrets) =
    with_secrets create_volume (strip secrets)
strip_secrets_and_get_chap_params (node_stage_volume secrets) =
    with_secrets node_stage_volume (strip secrets)
strip_secrets_and_get_chap_params (delete_volume secrets) =
    with_secrets delete_volume (strip secrets)
strip_secrets_and_get_chap_params other = (other, [])

-- The four credentials of CHAP.
abbrev pub is_chap_key : String → Bool
is_chap_key k =
    str_eq "node.session.auth.username" k
    || str_eq "node.session.auth.password" k
    || str_eq "node.session.auth.username_in" k
    || str_eq "node.session.auth.password_in" k

-- What a stripped map shows in place of a value.
abbrev pub mask : Option String → Option String
mask none = none
mask (some v) = some stripped

module _ (j k : String) (p : Dict String × Dict String) where
  lookup-move_key_secrets :
      lookup j (move_key k p).0 ≡ (if str_eq k j then mask (lookup j p.0) else lookup j p.0)
  unfolding move_key
  lookup-move_key_secrets = ground (arith, lookup-insert j k stripped p.0, eq_iff k j)

  lookup-move_key_chap :
      lookup j (move_key k p).1
      ≡ (if str_eq k j then or_else (lookup j p.0) (lookup j p.1) else lookup j p.1)
  unfolding move_key or_else
  lookup-move_key_chap = elim (Option-cases (lookup k p.0)) [
    | inl e ↦ rw (e, move_key) (ground (arith, eq_iff k j))
    | inr (v, e) ↦ rw (e, move_key, lookup-insert j k v p.1) (ground (arith, eq_iff k j))
  ]

at_most_one : (k l j : String) → str_eq k l ≡ false → str_eq k j ≡ true → str_eq l j ≡ false
at_most_one k l j h e = ground (arith, eq_iff k j, eq_iff k l, eq_iff l j)

-- What the four steps leave, for any map: the CHAP parameters are the request's credentials and
-- nothing else, the request shows the mark for each credential that it held, and every other entry
-- of the request is as it was.
pub lookup-strip :
    (j : String) (m : Dict String)
    → (lookup j (strip m).0 ≡ (if is_chap_key j then mask (lookup j m) else lookup j m))
      × (lookup j (strip m).1 ≡ (if is_chap_key j then lookup j m else none))
unfolding strip
lookup-strip j m = (
  simp lookup-move_key_secrets (ground arith),
  simp (lookup-move_key_secrets, lookup-move_key_chap, lookup-nil)
      (unfold or_else in
        ground (
          arith,
          at_most_one "node.session.auth.username" "node.session.auth.password" j refl,
          at_most_one "node.session.auth.username" "node.session.auth.username_in" j refl,
          at_most_one "node.session.auth.username" "node.session.auth.password_in" j refl,
          at_most_one "node.session.auth.password" "node.session.auth.username_in" j refl,
          at_most_one "node.session.auth.password" "node.session.auth.password_in" j refl,
          at_most_one "node.session.auth.username_in" "node.session.auth.password_in" j refl,
        )),
)

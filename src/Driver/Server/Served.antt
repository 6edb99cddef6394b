-- ===== src/Driver/Server/Served.antt =====
-- What is served, and how long the loops sleep.
use datera_csi.Base.{String, ℕ, zero, suc, ◌<◌, ◌≡◌, ◌↔◌, refl, true, some, [], str_eq, arith, ◌||◌}
use datera_csi.Base.Int.{pos, ◌-ℤ◌}
use datera_csi.Driver.Settings.{
  str_to_type, read_env_vars, runs_controller, runs_identity, runs_node,
}
use datera_csi.Driver.Server.{services, sleeper, one_more}

-- The six names of a type.
abbrev pub IsTypeName : String → Type 0
IsTypeName s =
    (str_eq s "identity"
      || str_eq s "controller"
      || str_eq s "node"
      || str_eq s "nodeident"
      || str_eq s "conident"
      || str_eq s "all")
    ≡ true

services-str_to_type :
    (s : String)
    → (services (str_to_type s) ≡ [] → IsTypeName s → ⊥)
      × ((IsTypeName s → ⊥) → services (str_to_type s) ≡ [])
unfolding services str_to_type runs_controller runs_identity runs_node
services-str_to_type s = (λ h t. ground arith, λ h. ground arith)

-- With any other value of the variable of the type, also with none, the driver starts and serves
-- nothing; with one of the six names it serves something.
pub services-nil :
    (getenv : String → String)
    → (services (read_env_vars getenv).kind ≡ []) ↔ ¬ (IsTypeName (getenv "DAT_TYPE"))
unfolding read_env_vars
services-nil getenv = services-str_to_type (getenv "DAT_TYPE")

pred_pos : (n : ℕ) → pos (suc n) -ℤ pos 1 ≡ pos n
unfolding ◌-ℤ◌
pred_pos n = ground arith

-- A sleep of a number of seconds ends after as many, and one of none or a negative number at once, with
-- any fuel above the number.
pub sleeper-pos : (fuel n : ℕ) → n < fuel → sleeper fuel (pos n) ≡ some n
unfolding sleeper one_more
sleeper-pos zero n h = elim h [ ]
sleeper-pos (suc f) zero h = refl
sleeper-pos (suc f) (suc n) h = rw (pred_pos n, sleeper-pos f n (omega arith)) (ground arith)

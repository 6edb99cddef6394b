-- ===== src/Base/Go/Binds.antt =====
-- Steps of a chain of actions, forward and backward.
use mathlib.Core.Path.{◌≡◌, refl, ap}
use datera_csi.Base.Go.{Error, Result, ok, err, panic, Action, attempt, ◌>>=◌}

module _ {ℓ κ} {S : Type 0} {A : Type ℓ} {B : Type κ} (m : Action S A) (f : A → Action S B) where
  -- What is left of a chain after its first action.
  abbrev then_run : Result A × S → Result B × S
  then_run p = elim p.0 [ ok a ↦ f a p.1 | err e ↦ (err e, p.1) | panic ↦ (panic, p.1) ]

  -- An action that returns hands its value and its state on.
  pub bind-ok : {a : A} {t : S} (s : S) → m s ≡ (ok a, t) → (m >>= f) s ≡ f a t
  bind-ok s h = ap then_run h

  -- One that fails ends the chain.
  pub bind-err : {e : Error} {t : S} (s : S) → m s ≡ (err e, t) → (m >>= f) s ≡ (err e, t)
  bind-err s h = ap then_run h

  pub bind-panic : {t : S} (s : S) → m s ≡ (panic, t) → (m >>= f) s ≡ (panic, t)
  bind-panic s h = ap then_run h

-- A chain that returns has a first action that returned.
bind_cases {ℓ κ} :
    {S : Type 0} {A : Type ℓ} {B : Type κ} (r : Result A) (t : S) (f : A → Action S B) {b : B}
    {u : S}
    → ((λ (s : S). (r, t)) >>= f) t ≡ (ok b, u)
    → (a : A) × (r ≡ ok a) × (f a t ≡ (ok b, u))
bind_cases (ok a) t f h = (a, refl, h)
bind_cases _ t f h = cc

pub bind-eq-ok {ℓ κ} :
    {S : Type 0} {A : Type ℓ} {B : Type κ} (m : Action S A) (f : A → Action S B) (s : S) {b : B}
    {u : S}
    → (m >>= f) s ≡ (ok b, u)
    → (a : A) × ((m s).0 ≡ ok a) × (f a (m s).1 ≡ (ok b, u))
bind-eq-ok m f s h = bind_cases (m s).0 (m s).1 f h

abbrev attempt_run {ℓ} : {S : Type 0} {A : Type ℓ} → Result A × S → Result (Result A) × S
attempt_run p = elim p.0 [
  | ok a ↦ (ok (ok a), p.1)
  | err e ↦ (ok (err e), p.1)
  | panic ↦ (panic, p.1)
]

pub attempt-ok {ℓ} :
    {S : Type 0} {A : Type ℓ} {a : A} {t : S} (m : Action S A) (s : S)
    → m s ≡ (ok a, t)
    → attempt m s ≡ (ok (ok a), t)
attempt-ok m s h = ap attempt_run h

pub attempt-err {ℓ} :
    {S : Type 0} {A : Type ℓ} {e : Error} {t : S} (m : Action S A) (s : S)
    → m s ≡ (err e, t)
    → attempt m s ≡ (ok (err e), t)
attempt-err m s h = ap attempt_run h

-- A result whose value is known.
pub paired {ℓ} : {S : Type 0} {A : Type ℓ} {a : A} (p : Result A × S) → p.0 ≡ ok a → p ≡ (ok a, p.1)
paired (r, t) e = rw e

-- ===== src/Base/Go/Outcomes.antt =====
-- What is known of the outcome of a chain whose errors are logged or changed.
use mathlib.Core.Path.{◌≡◌, refl}
use mathlib.Core.Bool.{Bool, true, false}
use mathlib.Core.Option.{Option, none, some}
use datera_csi.Base.Go.{
  Error, Result, ok, err, panic, Action, attempt, on_error, fail_if, deref, ◌>>=◌,
}

-- An outcome that is not an error.
pub data NoError {ℓ} {A : Type ℓ} : Result A → Type ℓ where
  done : {a : A} → NoError (ok a)
  crashed : NoError panic

module _ {ℓ κ π} {S : Type 0} {A : Type ℓ} {B : Type κ} (P : Result B → Type π) (at_panic : P panic)
    (f : Result A → Action S B) where
  attempted :
      (r : Result A) (t : S)
      → ((r : Result A) (t : S) → P (f r t).0)
      → P ((attempt (λ (s : S). (r, t)) >>= f) t).0
  attempted (ok a) t h = h (ok a) t
  attempted (err e) t h = h (err e) t
  attempted panic t h = at_panic

  -- A chain that goes on after an error ends as its rest does, or in a panic.
  pub attempt-all :
      (m : Action S A) (s : S) → ((r : Result A) (t : S) → P (f r t).0) → P ((attempt m >>= f) s).0
  attempt-all m s h = attempted (m s).0 (m s).1 h

-- What holds of the value and the state if the outcome is a value.
abbrev pub Ends {ℓ π} : {S : Type 0} {A : Type ℓ} → (A → S → Type π) → Result A × S → Type π
Ends Q p = elim p.0 [ ok a ↦ Q a p.1 | err e ↦ Unit | panic ↦ Unit ]

-- What holds may be weakened.
pub weaken-Ends {ℓ π ρ} :
    {S : Type 0} {A : Type ℓ} (R : A → S → Type ρ) (Q : A → S → Type π) (p : Result A × S)
    → ((a : A) (t : S) → R a t → Q a t)
    → Ends R p
    → Ends Q p
weaken-Ends R Q (ok a, t) k h = k a t h
weaken-Ends R Q (err e, t) k h = tt
weaken-Ends R Q (panic, t) k h = tt

module _ {ℓ κ π ρ} {S : Type 0} {A : Type ℓ} {B : Type κ} (R : A → S → Type ρ) (Q : B → S → Type π)
    (m : Action S A) (f : A → Action S B) where
  bind_case :
      (r : Result A) (t : S)
      → Ends R (r, t)
      → ((a : A) (t : S) → R a t → Ends Q (f a t))
      → Ends Q (((λ (s : S). (r, t)) >>= f) t)
  bind_case (ok a) t h k = k a t h
  bind_case (err e) t h k = tt
  bind_case panic t h k = tt

  -- A chain, by what holds after its first action.
  pub bind-Ends :
      (s : S) → Ends R (m s) → ((a : A) (t : S) → R a t → Ends Q (f a t)) → Ends Q ((m >>= f) s)
  bind-Ends s h k = bind_case (m s).0 (m s).1 h k

module _ {ℓ} {S : Type 0} {A : Type ℓ} where
  any_case : (r : Result A) (t : S) → Ends (λ (_ : A) (_ : S). Unit {0}) (r, t)
  any_case (ok a) t = tt
  any_case (err e) t = tt
  any_case panic t = tt

  -- Nothing in particular.
  pub any-Ends : (m : Action S A) (s : S) → Ends (λ (_ : A) (_ : S). Unit {0}) (m s)
  any-Ends m s = any_case (m s).0 (m s).1

module _ {ℓ} {S : Type 0} {A : Type ℓ} where
  here_case :
      (r : Result A) (t : S)
      → Ends (λ (a : A) (u : S). ◌≡◌ {A = Result A × S} (r, t) (ok a, u)) (r, t)
  here_case (ok a) t = refl
  here_case (err e) t = tt
  here_case panic t = tt

  -- The value and the state are those of the outcome.
  pub here-Ends : (m : Action S A) (s : S) → Ends (λ (a : A) (u : S). m s ≡ (ok a, u)) (m s)
  here-Ends m s = here_case (m s).0 (m s).1

module _ {ℓ π} {S : Type 0} {A : Type ℓ} where
  on_error_case :
      (R : A → S → Type π) (f : Error → Error) (r : Result A) (t : S)
      → Ends R (r, t)
      → Ends R (on_error f (λ (s : S). (r, t)) t)
  on_error_case R f (ok a) t h = h
  on_error_case R f (err e) t h = tt
  on_error_case R f panic t h = tt

  pub on_error-Ends :
      (R : A → S → Type π) (f : Error → Error) (m : Action S A) (s : S)
      → Ends R (m s)
      → Ends R (on_error f m s)
  on_error-Ends R f m s h = on_error_case R f (m s).0 (m s).1 h

pub fail_if-Ends :
    {S : Type 0} (test : Bool) (e : Error) (s : S)
    → Ends (λ (_ : Unit {0}) (_ : S). test ≡ false) (fail_if test e s)
fail_if-Ends true e s = tt
fail_if-Ends false e s = refl

-- The same, where nothing is known of the first action.
pub skip-Ends {ℓ κ π} :
    {S : Type 0} {A : Type ℓ} {B : Type κ} (Q : B → S → Type π) (m : Action S A)
    (f : A → Action S B) (s : S)
    → ((a : A) (t : S) → Ends Q (f a t))
    → Ends Q ((m >>= f) s)
skip-Ends Q m f s h = bind-Ends (λ _ _. Unit {0}) Q m f s (any-Ends m s) (λ a t _. h a t)

-- A pointer that is known is read as what it points to.
pub deref-Ends {ℓ} :
    {S : Type 0} {A : Type ℓ} (o : Option A) (a : A) (s : S)
    → o ≡ some a
    → Ends (λ (x : A) (_ : S). x ≡ a) (deref o s)
deref-Ends none a s e = tt
deref-Ends (some b) a s e = cc e

-- ===== src/Base/Go/Branches.antt =====
-- What holds of an outcome on each of its branches, where a panic is excluded.
use datera_csi.Base.Go.{Error, Result, ok, err, panic, Action, attempt, ◌>>=◌}

-- What holds of the value and the state, and what of the state where the outcome is an error.
abbrev pub Branches {ℓ} :
    {S : Type 0} {A : Type ℓ} → (A → S → Type 0) → (S → Type 0) → Result A × S → Type 0
Branches Q E p = elim p.0 [ ok a ↦ Q a p.1 | err e ↦ E p.1 | panic ↦ ⊥ ]

module _ {ℓ κ} {S : Type 0} {A : Type ℓ} {B : Type κ} (R : A → S → Type 0) (E : S → Type 0)
    (Q : B → S → Type 0) where
  bind_case :
      (f : A → Action S B) (r : Result A) (t : S)
      → Branches R E (r, t)
      → ((a : A) (t : S) → R a t → Branches Q E (f a t))
      → Branches Q E (((λ (s : S). (r, t)) >>= f) t)
  bind_case f (ok a) t h k = k a t h
  bind_case f (err e) t h k = h
  bind_case f panic t h k = h

  -- A chain, by what holds on the branches of its first action.
  pub bind-Branches :
      (m : Action S A) (f : A → Action S B) (s : S)
      → Branches R E (m s)
      → ((a : A) (t : S) → R a t → Branches Q E (f a t))
      → Branches Q E ((m >>= f) s)
  bind-Branches m f s h k = bind_case f (m s).0 (m s).1 h k

module _ {ℓ κ} {S : Type 0} {A : Type ℓ} {B : Type κ} (R : A → S → Type 0) (F : S → Type 0)
    (Q : B → S → Type 0) (E : S → Type 0) where
  attempt_case :
      (f : Result A → Action S B) (r : Result A) (t : S)
      → Branches R F (r, t)
      → ((a : A) (t : S) → R a t → Branches Q E (f (ok a) t))
      → ((e : Error) (t : S) → F t → Branches Q E (f (err e) t))
      → Branches Q E ((attempt (λ (s : S). (r, t)) >>= f) t)
  attempt_case f (ok a) t h k l = k a t h
  attempt_case f (err e) t h k l = l e t h
  attempt_case f panic t h k l = absurd h

  -- A chain that looks at the error of its first action itself.
  pub attempt-Branches :
      (m : Action S A) (f : Result A → Action S B) (s : S)
      → Branches R F (m s)
      → ((a : A) (t : S) → R a t → Branches Q E (f (ok a) t))
      → ((e : Error) (t : S) → F t → Branches Q E (f (err e) t))
      → Branches Q E ((attempt m >>= f) s)
  attempt-Branches m f s h k l = attempt_case f (m s).0 (m s).1 h k l

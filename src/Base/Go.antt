-- ===== src/Base/Go.antt =====
-- How a Go call ends: with a value, with an error, or with a panic. A method that has effects is an
-- action on a state; what it wrote before an error stays written.
pub mod Binds
pub mod Outcomes
pub mod Branches
use Prim.Native.String.{String}
use mathlib.Core.Bool.{Bool, true, false}
use mathlib.Core.Option.{Option, none, some}

-- The codes of google.golang.org/grpc/codes that the program uses.
pub data Code : Type 0 where
  aborted invalid_argument already_exists not_found unknown : Code
  unimplemented failed_precondition unauthenticated unavailable : Code

-- `fmt.Errorf` and foreign errors, which carry no code, and `status.Errorf`.
pub data Error : Type 0 where
  plain : String → Error
  status : Code → String → Error

pub data Result {ℓ} (A : Type ℓ) : Type ℓ where
  ok : A → Result A
  err : Error → Result A
  panic : Result A

abbrev pub Action {ℓ} : Type 0 → Type ℓ → Type ℓ
Action S A = S → Result A × S

module _ {ℓ} {S : Type 0} {A : Type ℓ} where
  abbrev pub pure : A → Action S A
  pure a s = (ok a, s)

  abbrev pub throw : Error → Action S A
  throw e s = (err e, s)

  abbrev pub crash : Action S A
  crash s = (panic, s)

  abbrev pub lift : Result A → Action S A
  lift r s = (r, s)

  -- Reading through a nil pointer panics.
  abbrev pub deref : Option A → Action S A
  deref none s = (panic, s)
  deref (some a) s = (ok a, s)

infixl 5 ◌>>=◌ ◌>>◌
abbrev pub ◌>>=◌ {ℓ κ} :
    {S : Type 0} {A : Type ℓ} {B : Type κ} → Action S A → (A → Action S B) → Action S B
◌>>=◌ m f s = let (r, t) = m s in elim r [ ok a ↦ f a t | err e ↦ (err e, t) | panic ↦ (panic, t) ]

abbrev pub ◌>>◌ {ℓ κ} :
    {S : Type 0} {A : Type ℓ} {B : Type κ} → Action S A → Action S B → Action S B
m >> k = m >>= λ _. k

-- `if test { return nil, e }`
abbrev pub fail_if : {S : Type 0} → Bool → Error → Action S (Unit {0})
fail_if true e s = (err e, s)
fail_if false e s = (ok tt, s)

-- `x, err := m; if err != nil { return nil, handler(err) }`
abbrev pub on_error {ℓ} : {S : Type 0} {A : Type ℓ} → (Error → Error) → Action S A → Action S A
on_error f m s =
    let (r, t) = m s in elim r [ ok a ↦ (ok a, t) | err e ↦ (err (f e), t) | panic ↦ (panic, t) ]

-- The outcome of a call as a value: the caller looks at the error itself. A panic goes on up.
abbrev pub attempt {ℓ} : {S : Type 0} {A : Type ℓ} → Action S A → Action S (Result A)
attempt m s =
    let (r, t) = m s in
    elim r [ ok a ↦ (ok (ok a), t) | err e ↦ (ok (err e), t) | panic ↦ (panic, t) ]

-- `if test { m }`, for what `m` does.
abbrev pub when {ℓ} : {S : Type 0} {A : Type ℓ} → Bool → Action S A → Action S (Unit {0})
when true m = m >>= λ _. pure tt
when false m = pure tt

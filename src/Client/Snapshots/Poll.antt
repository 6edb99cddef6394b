-- ===== src/Client/Snapshots/Poll.antt =====
-- How long the wait for a new snapshot is.
use datera_csi.Base.{
  ℕ, zero, suc, ◌+◌, ◌≤◌, ◌≡◌, ◌∙◌, refl, ap, Bool, true, false, Option, none, some, arith, str_eq,
  if◌then◌else◌,
}
use datera_csi.Base.Go.{ok, err, panic, Result, Action, pure, deref, ◌>>=◌}
use datera_csi.Client.Sdk.{BackendSnapshot, Sdk, checked}
use datera_csi.Client.SnapshotList.{Snapshot}
use datera_csi.Client.Snapshots.{poll, reload_snapshot}

-- A chain that only reads leaves the state of its call.
state_kept :
    {S A B : Type 0} (r : Result (Option A)) (t : S) (f : A → B)
    → (((λ (s : S). (r, t)) >>= λ answered. deref answered >>= λ new. pure (f new)) t).1 ≡ t
state_kept (ok (some a)) t f = refl
state_kept (ok none) t f = refl
state_kept (err e) t f = refl
state_kept panic t f = refl

module _ (sdk : Sdk) (calls : sdk.State → ℕ)
    (counted : (b : BackendSnapshot) (s : sdk.State)
      → calls (sdk.reload_snapshot b s).1 ≡ calls s + 1) where
  reload_counted :
      (snap : Snapshot) (s : sdk.State) → calls (reload_snapshot sdk snap s).1 ≡ calls s + 1
  unfolding reload_snapshot
  reload_counted snap s =
      ap calls (
        state_kept (checked (sdk.reload_snapshot snap.snap s).0) (sdk.reload_snapshot snap.snap s).1
          (λ new. record snap { snap = new; status = new.op_state }))
      ∙ counted snap.snap s

  bind_counted :
      {A B : Type 0} (f : A → Action sdk.State B) (r : Result A) (t : sdk.State) (n : ℕ)
      → ((a : A) → calls (f a t).1 ≤ n)
      → calls t ≤ n
      → calls (((λ (s : sdk.State). (r, t)) >>= f) t).1 ≤ n
  bind_counted f (ok a) t n h k = h a
  bind_counted f (err e) t n h k = k
  bind_counted f panic t n h k = k

  round_bound :
      (rounds : ℕ) (a : Snapshot) (t : sdk.State) (c : Bool)
      → calls (poll sdk rounds a t).1 ≤ calls t + rounds
      → calls ((if c then pure a else poll sdk rounds a) t).1 ≤ calls t + rounds
  round_bound rounds a t true h = omega arith
  round_bound rounds a t false h = h

  -- The wait makes at most as many calls of the backend as it has rounds: a count of the state that
  -- each reload of a snapshot raises by one grows by no more than the rounds, however the wait ends.
  pub poll_bound :
      (rounds : ℕ) (snap : Snapshot) (s : sdk.State)
      → calls (poll sdk rounds snap s).1 ≤ calls s + rounds
  unfolding poll
  poll_bound zero snap s = omega arith
  poll_bound (suc rounds) snap s =
      let t = (reload_snapshot sdk snap s).1 in
      omega (
        arith,
        reload_counted snap s,
        bind_counted (λ x. if str_eq x.status "available" then pure x else poll sdk rounds x)
            (reload_snapshot sdk snap s).0 t (calls t + rounds)
            (λ a. round_bound rounds a t (str_eq a.status "available") (poll_bound rounds a t))
            (omega arith),
      )

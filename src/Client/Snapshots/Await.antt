-- ===== src/Client/Snapshots/Await.antt =====
-- When the wait for a new snapshot ends well.
use datera_csi.Base.{
  ℕ, zero, suc, ◌≡◌, ◌∙◌, ◌↔◌, ap, sym, inl, inr, Bool, Bool-cases, true, false, str_eq,
  if◌then◌else◌,
}
use datera_csi.Base.Go.Binds.{bind-ok, bind-eq-ok, paired}
use datera_csi.Base.Go.{Result, ok, pure}
use datera_csi.Client.Sdk.{Sdk}
use datera_csi.Client.SnapshotList.{Snapshot}
use datera_csi.Client.Snapshots.{poll, reload_snapshot}

module _ (sdk : Sdk) where
  -- Within this many reloads, each of which succeeds, the snapshot first becomes the one that is named,
  -- with the status "available", and the backend is in the state that is named.
  pub data BecomesAvailable : ℕ → Snapshot → sdk.State → Snapshot → sdk.State → Type 0 where
    now :
        {rounds : ℕ} {s new : Snapshot} {a b : sdk.State}
        → reload_snapshot sdk s a ≡ (ok new, b)
        → str_eq new.status "available" ≡ true
        → BecomesAvailable (suc rounds) s a new b
    later :
        {rounds : ℕ} {s mid new : Snapshot} {a b c : sdk.State}
        → reload_snapshot sdk s a ≡ (ok mid, b)
        → str_eq mid.status "available" ≡ false
        → BecomesAvailable rounds mid b new c
        → BecomesAvailable (suc rounds) s a new c

  -- If the snapshot becomes available within the rounds of the wait, and no reload fails before, the
  -- wait returns it, and makes no call after the one that showed it available.
  poll_returns :
      {rounds : ℕ} {s new : Snapshot} {a b : sdk.State}
      → BecomesAvailable rounds s a new b
      → poll sdk rounds s a ≡ (ok new, b)
  unfolding poll
  poll_returns (now {rounds} {s} {a = a} e h) =
      bind-ok (reload_snapshot sdk s)
        (λ x. if str_eq x.status "available" then pure x else poll sdk rounds x) a e
      ∙ rw h
  poll_returns (later {rounds} {s} {a = a} e h w) =
      bind-ok (reload_snapshot sdk s)
        (λ x. if str_eq x.status "available" then pure x else poll sdk rounds x) a e
      ∙ rw h (poll_returns w)

  now_at :
      (rounds : ℕ) (s mid new : Snapshot) (a b : sdk.State)
      → (reload_snapshot sdk s a).0 ≡ ok mid
      → str_eq mid.status "available" ≡ true
      → ◌≡◌ {A = Result Snapshot × sdk.State} (ok mid, (reload_snapshot sdk s a).1) (ok new, b)
      → BecomesAvailable (suc rounds) s a new b
  now_at rounds s mid new a b e h k =
      now (paired (reload_snapshot sdk s a) e ∙ k)
        (ap (λ (x : Result Snapshot × sdk.State). available_in x.0) (sym k) ∙ h)
    where
      available_in : Result Snapshot → Bool
      available_in (ok x) = str_eq x.status "available"
      available_in _ = false

  becomes_available :
      (rounds : ℕ) (s new : Snapshot) (a b : sdk.State)
      → poll sdk rounds s a ≡ (ok new, b)
      → BecomesAvailable rounds s a new b
  unfolding poll
  becomes_available zero s new a b h = cc
  becomes_available (suc rounds) s new a b h =
      let (mid, e, k) =
        bind-eq-ok (reload_snapshot sdk s)
          (λ x. if str_eq x.status "available" then pure x else poll sdk rounds x) a h in
      elim (Bool-cases (str_eq mid.status "available")) [
        | inl y ↦ now_at rounds s mid new a b e y (rw y at k)
        | inr n ↦
            later (paired (reload_snapshot sdk s a) e) n
              (becomes_available rounds mid new (reload_snapshot sdk s a).1 b (rw n at k))
      ]

  -- The wait returns a snapshot, and leaves the backend in a state, exactly if within its rounds the
  -- snapshot becomes available as the one and in the other, with no reload failing before.
  pub poll_iff :
      (rounds : ℕ) (s new : Snapshot) (a b : sdk.State)
      → (poll sdk rounds s a ≡ (ok new, b)) ↔ BecomesAvailable rounds s a new b
  poll_iff rounds s new a b = (becomes_available rounds s new a b, poll_returns)

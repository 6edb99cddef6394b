-- ===== src/Driver/Server/Beats.antt =====
-- What a heartbeat leaves.
use datera_csi.Base.{ℕ, zero, suc, ◌≡◌, true, Bool-cases, inl, inr}
use datera_csi.Base.Go.Outcomes.{Ends, bind-Ends}
use datera_csi.Client.Sdk.{Sdk}
use datera_csi.Driver.Env.{Env}
use datera_csi.Driver.Identity.{Vitals, heartbeat}
use datera_csi.Driver.Identity.Beats.{Healthy, beat-Healthy, node_beat-Healthy}
use datera_csi.Driver.Settings.{ServiceType, runs_node}
use datera_csi.Driver.Server.{beats, heartbeater}

module _ (sdk : Sdk) (env : Env) where
  abbrev Well : Unit {0} → Vitals sdk.State → Type 0
  Well = Healthy sdk env

  beats-Healthy : (n : ℕ) (d : Vitals sdk.State) → Ends Well (beats sdk env (suc n) d)
  unfolding beats
  beats-Healthy zero d =
      bind-Ends Well Well (heartbeat sdk env) (λ _. beats sdk env zero) d (beat-Healthy sdk env d)
        (λ _ e h. h)
  beats-Healthy (suc n) d =
      bind-Ends Well Well (heartbeat sdk env) (λ _. beats sdk env (suc n)) d
        (beat-Healthy sdk env d) (λ _ e h. beats-Healthy n e)

  -- If the heartbeats return, which they do not where a check panics, the driver is recorded as healthy,
  -- whatever the service type, the backend and the state before, after one round or more.
  pub heartbeater-Healthy :
      (kind : ServiceType) (n : ℕ) (d : Vitals sdk.State)
      → Ends
          (λ (_ : Unit {0}) (e : Vitals sdk.State). e.healthy ≡ true)
          (heartbeater sdk env kind (suc n) d)
  unfolding heartbeater
  heartbeater-Healthy kind n d = elim (Bool-cases (runs_node kind)) [
    | inl e ↦ rw e (node_beat-Healthy sdk env d)
    | inr e ↦ rw e (beats-Healthy n d)
  ]

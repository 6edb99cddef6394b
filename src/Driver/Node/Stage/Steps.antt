-- ===== src/Driver/Node/Stage/Steps.antt =====
-- Calls of the backend and of the machine, as steps of a call that makes both.
use datera_csi.Base.Go.Outcomes.{Ends}
use datera_csi.Base.Go.{Result, ok, err, panic, Action}
use datera_csi.Client.Sdk.{Sdk}
use datera_csi.Client.Host.{Host, remote, local}

module _ {ℓ π} (sdk : Sdk) (host : Host) {A : Type ℓ} (R : A → host.State → Type π) where
  local_case :
      (r : Result A) (t : host.State) (s : sdk.State × host.State)
      → Ends R (r, t)
      → Ends
          (λ a (u : sdk.State × host.State). R a u.1)
          (local sdk host (λ (_ : host.State). (r, t)) s)
  local_case (ok a) t s h = h
  local_case (err e) t s h = tt
  local_case panic t s h = tt

  -- What holds of the machine's call and its state holds of them as those of a call on both.
  pub local-Ends_state :
      (m : Action host.State A) (s : sdk.State × host.State)
      → Ends R (m s.1)
      → Ends (λ a (u : sdk.State × host.State). R a u.1) (local sdk host m s)
  local-Ends_state m s h = local_case (m s.1).0 (m s.1).1 s h

module _ {ℓ π} (sdk : Sdk) (host : Host) {A : Type ℓ} (R : A → Type π) where
  -- What holds of a value of the machine's call holds of it as a call on both.
  pub local-Ends :
      (m : Action host.State A) (s : sdk.State × host.State)
      → Ends (λ a (_ : host.State). R a) (m s.1)
      → Ends (λ a (_ : sdk.State × host.State). R a) (local sdk host m s)
  local-Ends m s h = local-Ends_state sdk host (λ a _. R a) m s h

  remote_case :
      (r : Result A) (t : sdk.State) (s : sdk.State × host.State)
      → Ends (λ a (_ : sdk.State). R a) (r, t)
      → Ends (λ a (_ : sdk.State × host.State). R a) (remote sdk host (λ (_ : sdk.State). (r, t)) s)
  remote_case (ok a) t s h = h
  remote_case (err e) t s h = tt
  remote_case panic t s h = tt

  pub remote-Ends :
      (m : Action sdk.State A) (s : sdk.State × host.State)
      → Ends (λ a (_ : sdk.State). R a) (m s.0)
      → Ends (λ a (_ : sdk.State × host.State). R a) (remote sdk host m s)
  remote-Ends m s h = remote_case (m s.0).0 (m s.0).1 s h

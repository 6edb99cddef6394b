-- ===== src/Client/Volume/Views.antt =====
-- Volumes that are read without their metadata.
use datera_csi.Base.{String, ◌≡◌, ◌∙◌, ap, refl, false, Option, none, some}
use datera_csi.Base.Go.Outcomes.{Ends, bind-Ends, skip-Ends, here-Ends, weaken-Ends}
use datera_csi.Base.Go.{Result, ok, err, panic, attempt, crash, pure, lift, ◌>>=◌}
use datera_csi.Client.Sdk.{Sdk, AppInstance, call}
use datera_csi.Client.Volume.Instances.{InstanceOf, reloaded, ai_to_client_vol-Ends}
use datera_csi.Client.Volume.{
  Volume, read_policy, read_metadata, ai_to_client_vol, reload, first_instance, first_volume,
  bare_volume, online,
}

module _ (sdk : Sdk) where
  abbrev IsBare : Volume → sdk.State → Type 0
  IsBare v _ = v.formatted ≡ false

  -- A volume that does not count as formatted, and stands for an app instance of the name.
  abbrev pub IsFresh : String → Volume → sdk.State → Type 0
  IsFresh name v _ = (v.formatted ≡ false) × InstanceOf sdk name v.ai

  view-Ends :
      (ai : Option AppInstance) (s : sdk.State)
      → Ends IsBare (ai_to_client_vol sdk ai false false s)
  unfolding ai_to_client_vol read_policy read_metadata bare_volume
  view-Ends none s = tt
  view-Ends (some ai) s =
      skip-Ends IsBare (lift (first_instance ai))
        (λ si. lift (first_volume si) >>= λ v. pure none >>= λ pp. pure (bare_volume ai si v pp)) s
        (λ si t.
          skip-Ends IsBare (lift (first_volume si))
            (λ v. pure none >>= λ pp. pure (bare_volume ai si v pp)) t (λ v u. refl))

  -- Where a failure panics, what holds of a value holds.
  attempt_case :
      (Q : Volume → sdk.State → Type 0) (r : Result Volume) (t : sdk.State)
      → Ends Q (r, t)
      → Ends Q (
          (attempt (λ (s : sdk.State). (r, t)) >>= λ v. elim v [ ok new ↦ pure new | _ ↦ crash ]) t)
  attempt_case Q (ok v) t h = h
  attempt_case Q (err e) t h = tt
  attempt_case Q panic t h = tt

  -- What holds of the one and of the other holds of both.
  both :
      (P R : Volume → sdk.State → Type 0) (p : Result Volume × sdk.State)
      → Ends P p
      → Ends R p
      → Ends (λ v t. P v t × R v t) p
  both P R (ok v, t) h k = (h, k)
  both P R (err e, t) h k = tt
  both P R (panic, t) h k = tt

  reload-Ends :
      (name : String) (vol : Volume) (s : sdk.State)
      → InstanceOf sdk name vol.ai
      → Ends (IsFresh name) (reload sdk vol false false s)
  unfolding reload
  reload-Ends name vol s inst =
      let m = call (sdk.reload_app_instance vol.ai) in
      let Q = IsFresh name in
      bind-Ends (λ (ai : Option AppInstance) (t : sdk.State). m s ≡ (ok ai, t)) Q m
        (λ ai. attempt (ai_to_client_vol sdk ai false false) >>= λ v. elim v [
          | ok new ↦ pure new
          | _ ↦ crash
        ])
        s (here-Ends m s)
        (λ ai t h.
          let p = ai_to_client_vol sdk ai false false t in
          let P = λ (v : Volume) (u : sdk.State). IsBare v u × (ai ≡ some v.ai) in
          attempt_case Q p.0 p.1 (
            weaken-Ends P Q p (λ v u k. (k.0, reloaded s t inst (h ∙ ap (λ a. (ok a, t)) k.1)))
              (both IsBare (λ v _. ai ≡ some v.ai) p (view-Ends ai t)
                (ai_to_client_vol-Ends sdk ai false false t))))

  -- A volume that is brought online is read again without its metadata: it does not count as formatted,
  -- and it stands for an app instance of the name that it stood for.
  pub online-Ends :
      (name : String) (vol : Volume) (s : sdk.State)
      → InstanceOf sdk name vol.ai
      → Ends (IsFresh name) (online sdk vol s)
  unfolding online
  online-Ends name vol s inst =
      skip-Ends (IsFresh name) (call (sdk.set_admin_state vol.ai "online" false))
        (λ _. reload sdk vol false false) s (λ _ t. reload-Ends name vol t inst)

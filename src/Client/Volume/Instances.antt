-- ===== src/Client/Volume/Instances.antt =====
-- Which app instance a volume that is read stands for.
use datera_csi.Base.{
  String, ◌≡◌, ◌∙◌, refl, ap, Bool, true, false, Option, none, some, str_eq, if◌then◌else◌,
}
use datera_csi.Base.Go.Outcomes.{Ends, bind-Ends, skip-Ends, here-Ends, weaken-Ends}
use datera_csi.Base.Go.{ok, plain, pure, lift, throw, ◌>>=◌}
use datera_csi.Client.Sdk.{
  Sdk, AppInstance, BackendVolume, StorageInstance, PerformancePolicy, call,
}
use datera_csi.Client.Volume.{
  Volume, read_policy, read_metadata, ai_to_client_vol, first_instance, first_volume, bare_volume,
  get_volume, get_metadata, with_metadata,
}

-- What the backend has answered for the name, or answered when that was loaded again.
pub data InstanceOf (sdk : Sdk) (name : String) : AppInstance → Type 0 where
  got :
      {ai : AppInstance} (s t : sdk.State)
      → call (sdk.get_app_instance name) s ≡ (ok (some ai), t)
      → InstanceOf sdk name ai
  reloaded :
      {ai new : AppInstance} (s t : sdk.State)
      → InstanceOf sdk name ai
      → call (sdk.reload_app_instance ai) s ≡ (ok (some new), t)
      → InstanceOf sdk name new

module _ (sdk : Sdk) where
  abbrev HasInstance : Option AppInstance → Volume → sdk.State → Type 0
  HasInstance ai v _ = ai ≡ some v.ai

  metadata-ai :
      (b : Bool) (vol : Volume) (s : sdk.State)
      → Ends (HasInstance (some vol.ai)) (read_metadata sdk b vol s)
  unfolding read_metadata with_metadata
  metadata-ai false vol s = refl
  metadata-ai true vol s =
      skip-Ends (HasInstance (some vol.ai)) (get_metadata sdk vol)
        (λ md. pure (with_metadata md vol)) s (λ md t. refl)

  -- A volume keeps the app instance that it is built of.
  pub ai_to_client_vol-Ends :
      (ai : Option AppInstance) (qos metadata : Bool) (s : sdk.State)
      → Ends (HasInstance ai) (ai_to_client_vol sdk ai qos metadata s)
  unfolding ai_to_client_vol bare_volume
  ai_to_client_vol-Ends none qos metadata s = tt
  ai_to_client_vol-Ends (some ai) qos metadata s =
      let Q = HasInstance (some ai) in
      let last = λ (si : StorageInstance) (v : BackendVolume) (pp : Option PerformancePolicy).
        read_metadata sdk metadata (bare_volume ai si v pp) in
      skip-Ends Q (lift (first_instance ai))
        (λ si. lift (first_volume si) >>= λ v. read_policy sdk qos v >>= last si v) s
        (λ si t.
          skip-Ends Q (lift (first_volume si)) (λ v. read_policy sdk qos v >>= last si v) t
            (λ v u.
              skip-Ends Q (read_policy sdk qos v) (last si v) u
                (λ pp w. metadata-ai metadata (bare_volume ai si v pp) w)))

  -- A volume that is got by a name stands for an app instance of the name.
  pub get_volume-Ends :
      (name : String) (qos metadata : Bool) (s : sdk.State)
      → Ends (λ v (_ : sdk.State). InstanceOf sdk name v.ai) (get_volume sdk name qos metadata s)
  unfolding get_volume
  get_volume-Ends name qos metadata s = by_name (str_eq name "")
    where
      by_name :
          (b : Bool)
          → Ends
              (λ (v : Volume) (_ : sdk.State). InstanceOf sdk name v.ai)
              ((if b
                  then throw (plain "Volume name cannot be an empty string")
                  else (call (sdk.get_app_instance name) >>= λ ai.
                      ai_to_client_vol sdk ai qos metadata))
                s)
      by_name true = tt
      by_name false =
          let m = call (sdk.get_app_instance name) in
          bind-Ends (λ (ai : Option AppInstance) (t : sdk.State). m s ≡ (ok ai, t))
            (λ (v : Volume) (_ : sdk.State). InstanceOf sdk name v.ai) m
            (λ ai. ai_to_client_vol sdk ai qos metadata) s (here-Ends m s)
            (λ ai t h.
              weaken-Ends (HasInstance ai)
                (λ (v : Volume) (_ : sdk.State). InstanceOf sdk name v.ai)
                (ai_to_client_vol sdk ai qos metadata t)
                (λ v u e. got s t (h ∙ ap (λ a. (ok a, t)) e))
                (ai_to_client_vol-Ends ai qos metadata t))

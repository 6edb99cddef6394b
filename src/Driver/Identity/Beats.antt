-- ===== src/Driver/Identity/Beats.antt =====
-- What one heartbeat leaves.
use datera_csi.Base.{◌≡◌, refl, true}
use datera_csi.Base.Go.{Result, ok, err, panic, attempt, ◌>>=◌}
use datera_csi.Base.Go.Outcomes.{Ends}
use datera_csi.Client.Sdk.{Sdk}
use datera_csi.Client.System.{Manifest, get_manifest}
use datera_csi.Driver.Env.{Env}
use datera_csi.Driver.Identity.{
  Vitals, on_backend, checked, failed_check, set_healthy, set_manifest, heartbeat, node_heartbeat,
}

module _ (sdk : Sdk) (env : Env) where
  abbrev pub Healthy : Unit {0} → Vitals sdk.State → Type 0
  Healthy _ d = d.healthy ≡ true

  beat_case :
      (r : Result Manifest) (t : sdk.State) (d : Vitals sdk.State)
      → Ends Healthy
          ((attempt (on_backend sdk env (λ (s : sdk.State). (r, t))) >>= checked sdk env) d)
  unfolding checked failed_check set_healthy set_manifest
  beat_case (ok m) t d = refl
  beat_case (err e) t d = tt
  beat_case panic t d = tt

  pub beat-Healthy : (d : Vitals sdk.State) → Ends Healthy (heartbeat sdk env d)
  unfolding heartbeat
  beat-Healthy d = beat_case (get_manifest sdk d.backend).0 (get_manifest sdk d.backend).1 d

  pub node_beat-Healthy : (d : Vitals sdk.State) → Ends Healthy (node_heartbeat sdk env d)
  unfolding node_heartbeat set_healthy
  node_beat-Healthy d = refl

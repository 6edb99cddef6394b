-- ===== src/Driver/Identity/History.antt =====
-- What the identity service reports in any history of its calls and heartbeats.
use datera_csi.Base.{String, ◌≡◌, ◌≢◌, ◌∙◌, ap, sym, refl, Option, none, some, [], ◌∷◌}
use datera_csi.Base.Text.{join}
use datera_csi.Base.Dict.{Dict}
use datera_csi.Base.Go.{
  lift, unavailable, Result, ok, err, panic, Action, attempt, pure, on_error, ◌>>=◌,
}
use datera_csi.Base.Go.Binds.{bind-eq-ok}
use datera_csi.Client.Sdk.{Sdk}
use datera_csi.Client.System.{Manifest, get_manifest}
use datera_csi.Driver.Env.{Env, as_code}
use datera_csi.Driver.Identity.{
  Vitals, starting, PluginInfo, read_manifest, cache, checked, info_of, failed_check, set_healthy,
  set_manifest, manifest_data, on_backend, get_manifest_data, plugin_info_body, probe_body,
  heartbeat, node_heartbeat,
}

-- What happens to a driver: its calls, its heartbeats, and a change of the backend by others.
pub data Event (S : Type 0) : Type 0 where
  beats node_beats probed : Event S
  asked : String → String → Event S
  backend_moves : S → Event S

module _ (sdk : Sdk) (env : Env) where
  unfoldable pub after : Event sdk.State → Vitals sdk.State → Vitals sdk.State
  after beats d = (heartbeat sdk env d).1
  after node_beats d = (node_heartbeat sdk env d).1
  after probed d = (probe_body sdk env d).1
  after (asked name version) d = (plugin_info_body sdk env name version d).1
  after (backend_moves s) d = record d { backend = s }

  -- The drivers that a history leads to.
  pub data Reach : Vitals sdk.State → Type 0 where
    start : (s : sdk.State) → Reach (starting s)
    next : {d : Vitals sdk.State} → Reach d → (e : Event sdk.State) → Reach (after e d)

  beat_kept :
      (r : Result Manifest) (t : sdk.State) (d : Vitals sdk.State)
      → ((attempt (on_backend sdk env (λ (s : sdk.State). (r, t))) >>= checked sdk env)
          d).1.vendor_version
        ≡ d.vendor_version
  unfolding checked failed_check set_healthy set_manifest
  beat_kept (ok mf) t d = refl
  beat_kept (err e) t d = refl
  beat_kept panic t d = refl

  set_kept :
      (r : Result Manifest) (t : sdk.State) (d : Vitals sdk.State)
      → ((on_backend sdk env (λ (s : sdk.State). (r, t)) >>= cache sdk env) d).1.vendor_version
        ≡ d.vendor_version
  unfolding cache set_manifest
  set_kept (ok mf) t d = refl
  set_kept (err e) t d = refl
  set_kept panic t d = refl

  read_manifest-kept :
      (cached : Option Manifest) (d : Vitals sdk.State)
      → (read_manifest sdk env cached d).1.vendor_version ≡ d.vendor_version
  unfolding read_manifest
  read_manifest-kept (some mf) d = refl
  read_manifest-kept none d =
      set_kept (get_manifest sdk d.backend).0 (get_manifest sdk d.backend).1 d

  -- The chain that ends a call of `GetPluginInfo`, from what was read of the manifest.
  abbrev rest_of_info : String → String → Result Manifest → Action (Vitals sdk.State) PluginInfo
  rest_of_info name version r =
      on_error (as_code env unavailable) (lift r >>= λ mf. pure (manifest_data mf))
      >>= info_of sdk env name version

  rest-kept :
      (name version : String) (r : Result Manifest) (u : Vitals sdk.State)
      → (rest_of_info name version r u).1 ≡ u
  unfolding info_of
  rest-kept name version (ok mf) u = refl
  rest-kept name version (err e) u = refl
  rest-kept name version panic u = refl

  rest-version :
      (name version : String) (r : Result Manifest) (u : Vitals sdk.State) (info : PluginInfo)
      → (rest_of_info name version r u).0 ≡ ok info
      → info.vendor_version ≡ join ";" (version ∷ u.vendor_version ∷ [])
  unfolding info_of
  rest-version name version (ok mf) u info h = ap version_in (sym h)
    where
      version_in : Result PluginInfo → String
      version_in (ok i) = i.vendor_version
      version_in _ = ""
  rest-version name version (err e) u info h = cc
  rest-version name version panic u info h = cc

  after-kept :
      (e : Event sdk.State) (d : Vitals sdk.State) → (after e d).vendor_version ≡ d.vendor_version
  unfolding after heartbeat node_heartbeat probe_body plugin_info_body get_manifest_data set_healthy
  after-kept beats d = beat_kept (get_manifest sdk d.backend).0 (get_manifest sdk d.backend).1 d
  after-kept node_beats d = refl
  after-kept probed d = refl
  after-kept (asked name version) d =
      let p = read_manifest sdk env d.manifest d in
      ap (λ (v : Vitals sdk.State). v.vendor_version) (rest-kept name version p.0 p.1)
      ∙ read_manifest-kept d.manifest d
  after-kept (backend_moves s) d = refl

  Reach-kept : {d : Vitals sdk.State} → Reach d → d.vendor_version ≡ ""
  unfolding starting
  Reach-kept (start s) = refl
  Reach-kept (next {d} r e) = after-kept e d ∙ Reach-kept r

  -- Whatever calls and heartbeats a driver has had, and whatever became of the backend, the version
  -- that it reports is its own followed by a semicolon: the backend's version is never in it.
  pub vendor_version_unset :
      {d : Vitals sdk.State} (name version : String) (info : PluginInfo)
      → Reach d
      → (plugin_info_body sdk env name version d).0 ≡ ok info
      → info.vendor_version ≡ join ";" (version ∷ "" ∷ [])
  unfolding plugin_info_body get_manifest_data
  vendor_version_unset {d} name version info r h =
      let p = read_manifest sdk env d.manifest d in
      rest-version name version p.0 p.1 info h
      ∙ ap (λ v. join ";" (version ∷ v ∷ [])) (read_manifest-kept d.manifest d ∙ Reach-kept r)

  failed_beat :
      (r : Result Manifest) (t : sdk.State) (d : Vitals sdk.State)
      → ((m : Manifest) → r ≢ ok m)
      → ((attempt (on_backend sdk env (λ (s : sdk.State). (r, t))) >>= checked sdk env) d).0 ≡ panic
  unfolding checked failed_check set_healthy set_manifest
  failed_beat (ok mf) t d h = absurd (h mf refl)
  failed_beat (err e) t d h = refl
  failed_beat panic t d h = refl

  -- A heartbeat that cannot read the backend panics, whatever the driver's state: it reads the manifest
  -- that it did not get.
  pub heartbeat_fails :
      (d : Vitals sdk.State)
      → ((m : Manifest) → (get_manifest sdk d.backend).0 ≢ ok m)
      → (heartbeat sdk env d).0 ≡ panic
  unfolding heartbeat
  heartbeat_fails d h =
      failed_beat (get_manifest sdk d.backend).0 (get_manifest sdk d.backend).1 d h

  cached_after :
      (r : Result Manifest) (t : sdk.State) (d : Vitals sdk.State) (mf : Manifest)
      → ((on_backend sdk env (λ (s : sdk.State). (r, t)) >>= cache sdk env) d).0 ≡ ok mf
      → ((on_backend sdk env (λ (s : sdk.State). (r, t)) >>= cache sdk env) d).1.manifest ≡ some mf
  unfolding cache set_manifest
  cached_after (ok mf) t d m h = ap manifest_in h
    where
      manifest_in : Result Manifest → Option Manifest
      manifest_in (ok m) = some m
      manifest_in _ = none
  cached_after (err e) t d m h = cc
  cached_after panic t d m h = cc

  read_known :
      (cached : Option Manifest) (d : Vitals sdk.State) (mf : Manifest)
      → cached ≡ d.manifest
      → (read_manifest sdk env cached d).0 ≡ ok mf
      → (read_manifest sdk env cached d).1.manifest ≡ some mf
  unfolding read_manifest
  read_known (some m) d mf e h = cc
  read_known none d mf e h =
      cached_after (get_manifest sdk d.backend).0 (get_manifest sdk d.backend).1 d mf h

  known :
      (u : Vitals sdk.State) (mf : Manifest)
      → u.manifest ≡ some mf
      → get_manifest_data sdk env u ≡ (ok (manifest_data mf), u)
  unfolding get_manifest_data read_manifest
  known u mf e = rw (get_manifest_data, e)

  -- Manifest data that has been read once is read again as it is, without a call of the backend and
  -- with no change of the driver, as long as no heartbeat comes between.
  pub get_manifest_data-again :
      (d e : Vitals sdk.State) (entries : Dict String)
      → get_manifest_data sdk env d ≡ (ok entries, e)
      → get_manifest_data sdk env e ≡ (ok entries, e)
  unfolding get_manifest_data
  get_manifest_data-again d e entries h =
      let u = (read_manifest sdk env d.manifest d).1 in
      let (mf, q, k) =
        bind-eq-ok (read_manifest sdk env d.manifest) (λ mf. pure (manifest_data mf)) d h in
      ap (λ (p : Result (Dict String) × Vitals sdk.State). get_manifest_data sdk env p.1) (sym k)
      ∙ known u mf (read_known d.manifest d mf refl q)
      ∙ k

-- ===== src/Driver/Identity.antt =====
-- The identity service, pkg/driver/identity.go, and the heartbeat of pkg/driver/driver.go, with the
-- driver's fields that they share.
pub mod History
pub mod Beats
use datera_csi.Base.{String, Bool, true, false, Option, none, some, List, [], ◌∷◌, if◌then◌else◌}
use datera_csi.Base.Text.{join}
use datera_csi.Base.Dict.{Dict}
use datera_csi.Base.Go.{
  status, unavailable, Result, ok, err, panic, Action, pure, throw, crash, attempt, on_error, ◌>>=◌,
  ◌>>◌,
}
use datera_csi.Client.Sdk.{Sdk}
use datera_csi.Client.System.{Manifest, get_manifest}
use datera_csi.Driver.Env.{Env, as_code}
use datera_csi.Driver.Guard.{World, request_key, guarded}

-- The fields of `Driver` that these calls read or write, and the backend.
pub record Vitals (S : Type 0) : Type 0 where
  pub healthy : Bool
  pub vendor_version : String
  pub manifest : Option Manifest
  pub backend : S

-- What `NewDateraDriver` starts with.
unfoldable pub starting : {S : Type 0} → S → Vitals S
starting s = record { healthy = false; vendor_version = ""; manifest = none; backend = s }

-- The map that `getManifestData` returns.
unfoldable pub manifest_data : Manifest → Dict String
manifest_data mf =
    ("build_version", mf.build_version)
    ∷ ("callhome_enabled", mf.callhome_enabled)
    ∷ ("compression_enabled", mf.compression_enabled)
    ∷ ("health", mf.health)
    ∷ ("l3_enabled", mf.l3_enabled)
    ∷ ("name", mf.name)
    ∷ ("op_state", mf.op_state)
    ∷ ("sw_version", mf.sw_version)
    ∷ ("timezone", mf.timezone)
    ∷ ("uuid", mf.uuid)
    ∷ []

-- `csi.PluginCapability`, those that the driver has
pub data PluginCapability : Type 0 where
  controller_service expansion_online expansion_offline : PluginCapability

-- `csi.GetPluginInfoResponse`
pub record PluginInfo : Type 0 where
  pub name : String
  pub vendor_version : String
  pub manifest : Dict String

module _ (sdk : Sdk) (env : Env) where
  -- A call of the backend.
  abbrev on_backend : {A : Type 0} → Action sdk.State A → Action (Vitals sdk.State) A
  on_backend m d = let (r, t) = m d.backend in (r, record d { backend = t })

  -- `d.manifest = mf`
  set_manifest : Option Manifest → Action (Vitals sdk.State) (Unit {0})
  set_manifest mf d = (ok tt, record d { manifest = mf })

  set_healthy : Bool → Action (Vitals sdk.State) (Unit {0})
  set_healthy b d = (ok tt, record d { healthy = b })

  cache : Manifest → Action (Vitals sdk.State) Manifest
  unfolding set_manifest
  cache mf = do set_manifest (some mf); pure mf

  read_manifest : Option Manifest → Action (Vitals sdk.State) Manifest
  unfolding cache
  read_manifest (some mf) = pure mf
  read_manifest none = do mf ← on_backend (get_manifest sdk); cache mf

  -- `getManifestData`: the backend is asked only once.
  unfoldable pub get_manifest_data : Action (Vitals sdk.State) (Dict String)
  unfolding read_manifest
  get_manifest_data = do
    cached ← (λ d. (ok d.manifest, d))
    mf ← read_manifest cached
    pure (manifest_data mf)

  -- The answer of `GetPluginInfo`.
  info_of : String → String → Dict String → Action (Vitals sdk.State) PluginInfo
  info_of name version manifest d = (
    ok (record {
      name = name;
      vendor_version = join ";" (version ∷ d.vendor_version ∷ []);
      manifest = manifest;
    }),
    d,
  )

  -- `name` and `version` are those of the driver.
  unfoldable pub plugin_info_body : String → String → Action (Vitals sdk.State) PluginInfo
  unfolding get_manifest_data info_of
  plugin_info_body name version = do
    manifest ← on_error (as_code env unavailable) get_manifest_data
    info_of name version manifest

  unfoldable pub get_plugin_info :
      String → String → String → Action (World (Vitals sdk.State)) PluginInfo
  get_plugin_info shown name version =
      guarded (request_key "identity" "GetPluginInfo" shown) (plugin_info_body name version)

  unfoldable pub get_plugin_capabilities :
      String → Action (World (Vitals sdk.State)) (List PluginCapability)
  get_plugin_capabilities shown =
      guarded (request_key "identity" "GetPluginCapabilities" shown)
        (pure (controller_service ∷ expansion_online ∷ expansion_offline ∷ []))

  unfoldable pub probe_body : Action (Vitals sdk.State) Bool
  probe_body d = (ok d.healthy, d)

  unfoldable pub probe : String → Action (World (Vitals sdk.State)) Bool
  probe shown = guarded (request_key "identity" "Probe" shown) probe_body

  -- What follows a failed check: `mf` is nil, and `mf.BuildVersion` reads through it.
  failed_check : Action (Vitals sdk.State) (Unit {0})
  unfolding set_healthy set_manifest
  failed_check = do set_healthy false; set_manifest none; crash

  checked : Result Manifest → Action (Vitals sdk.State) (Unit {0})
  unfolding failed_check set_healthy
  checked (ok _) = set_healthy true
  checked _ = failed_check

  -- One round of `Heartbeater`.
  unfoldable pub heartbeat : Action (Vitals sdk.State) (Unit {0})
  unfolding checked
  heartbeat = do check ← attempt (on_backend (get_manifest sdk)); checked check

  -- `Heartbeater` for a driver that has the node service: it is healthy at once.
  unfoldable pub node_heartbeat : Action (Vitals sdk.State) (Unit {0})
  unfolding set_healthy
  node_heartbeat = set_healthy true

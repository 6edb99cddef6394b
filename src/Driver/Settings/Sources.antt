-- ===== src/Driver/Settings/Sources.antt =====
-- The variables that the settings depend on.
use datera_csi.Base.{String, ◌≡◌, refl, false, str_eq}
use datera_csi.Driver.Settings.{read_env_vars}

-- The variable of the metadata debug setting is never read: two environments that agree on every other
-- variable give the same settings.
pub read_env_vars_ignores :
    (g h : String → String)
    → ((k : String) → str_eq k "DAT_METADATA_DEBUG" ≡ false → g k ≡ h k)
    → read_env_vars g ≡ read_env_vars h
unfolding read_env_vars
read_env_vars_ignores g h e = rw (
  e "DAT_DRIVER_NAME" refl,
  e "DAT_TYPE" refl,
  e "DAT_VOL_PER_NODE" refl,
  e "DAT_DISABLE_MULTIPATH" refl,
  e "DAT_REPLICA_OVERRIDE" refl,
  e "DAT_HEARTBEAT" refl,
  e "DAT_DISABLE_LOGPUSH" refl,
  e "DAT_LOGPUSH_INTERVAL" refl,
  e "DAT_FORMAT_TIMEOUT" refl,
)

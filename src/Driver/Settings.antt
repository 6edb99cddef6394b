-- ===== src/Driver/Settings.antt =====
-- The settings of the driver and what follows from its type: `readEnvVars`, `NewDateraDriver` and
-- `Run` of pkg/driver/driver.go. `getenv` is `os.Getenv`, which gives "" for a variable that is not set.
pub mod Sources
use datera_csi.Base.{String, ◌<>◌, Bool, true, false, not, ◌&&◌, ◌||◌, str_eq, if◌then◌else◌}
use datera_csi.Base.Int.{ℤ, pos}
use datera_csi.Base.Num.{Parsed, value, refused}
use datera_csi.Base.Num.Auto.{parse_int_auto}

-- The constants `IdentityType` to `AllType`, and `unset` for 0, which a map gives for a missing key.
pub data ServiceType : Type 0 where
  unset identity controller node node_identity controller_identity all : ServiceType

-- `StrToType[s]`
unfoldable pub str_to_type : String → ServiceType
str_to_type s =
    if str_eq s "identity"
    then identity
    else if str_eq s "controller"
    then controller
    else if str_eq s "node"
    then node
    else if str_eq s "nodeident"
    then node_identity
    else if str_eq s "conident"
    then controller_identity
    else if str_eq s "all"
    then all
    else unset

-- `TypeToSock[t]`
unfoldable pub type_to_sock : ServiceType → String
type_to_sock unset = ""
type_to_sock identity = "identity"
type_to_sock controller = "controller"
type_to_sock node = "node"
type_to_sock node_identity = "node"
type_to_sock controller_identity = "controller"
type_to_sock all = "controller"

-- `EnvVars`
pub record EnvVars : Type 0 where
  pub driver_name : String
  pub kind : ServiceType
  pub vol_per_node : ℤ
  pub disable_multipath : Bool
  pub replica_override : Bool
  pub heartbeat : ℤ
  pub metadata_debug : Bool
  pub log_push : Bool
  pub log_push_interval : ℤ
  pub format_timeout : ℤ

-- `n, err := strconv.ParseInt(s, 0, 0); if err != nil { n = other }`
unfoldable pub number_or : ℤ → String → ℤ
number_or other s = elim (parse_int_auto s) [ value n ↦ n | refused _ ↦ other ]

abbrev pub is_set : String → Bool
is_set s = not (str_eq s "")

-- `readEnvVars`
unfoldable pub read_env_vars : (String → String) → EnvVars
unfolding str_to_type number_or
read_env_vars getenv = record {
  driver_name =
      if str_eq (getenv "DAT_DRIVER_NAME") ""
      then "dsp.csi.daterainc.io"
      else getenv "DAT_DRIVER_NAME";
  kind = str_to_type (getenv "DAT_TYPE");
  vol_per_node = number_or (pos 256) (getenv "DAT_VOL_PER_NODE");
  disable_multipath = is_set (getenv "DAT_DISABLE_MULTIPATH");
  replica_override = is_set (getenv "DAT_REPLICA_OVERRIDE");
  heartbeat = number_or (pos 60) (getenv "DAT_HEARTBEAT");
  metadata_debug = is_set (getenv "DAT_DISABLE_MULTIPATH");
  log_push = not (
      is_set (getenv "DAT_DISABLE_LOGPUSH") && not (str_eq (getenv "DAT_DISABLE_LOGPUSH") "false"));
  log_push_interval = number_or (pos 7200) (getenv "DAT_LOGPUSH_INTERVAL");
  format_timeout = number_or (pos 60) (getenv "DAT_FORMAT_TIMEOUT");
}

-- The socket that `NewDateraDriver` names.
unfoldable pub socket : EnvVars → String
unfolding type_to_sock
socket env =
    "unix:///var/lib/kubelet/plugins/"
    <> (env.driver_name <> ("/" <> (type_to_sock env.kind <> ".sock")))

-- The services that `Run` registers, by the type.
unfoldable pub runs_controller : ServiceType → Bool
runs_controller controller = true
runs_controller controller_identity = true
runs_controller all = true
runs_controller _ = false

unfoldable pub runs_identity : ServiceType → Bool
runs_identity identity = true
runs_identity node_identity = true
runs_identity controller_identity = true
runs_identity all = true
runs_identity _ = false

unfoldable pub runs_node : ServiceType → Bool
runs_node node = true
runs_node node_identity = true
runs_node all = true
runs_node _ = false

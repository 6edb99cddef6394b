-- ===== src/Driver/Server.antt =====
-- The driver's start: `NewDateraDriver` and `Run` of pkg/driver/driver.go, and the loops that run beside
-- the server.
pub mod Address
pub mod Served
pub mod Beats
use datera_csi.Base.{
  String, ◌<>◌, ℕ, zero, suc, ◌+◌, Bool, true, false, not, Option, none, some, List, [], ◌∷◌, ◌++◌,
  str_eq, if◌then◌else◌,
}
use datera_csi.Base.Int.{ℤ, pos, negsuc, ltb_ℤ, ◌-ℤ◌}
use datera_csi.Base.Go.{
  Error, plain, Result, ok, err, panic, Action, pure, throw, lift, attempt, fail_if, ◌>>=◌, ◌>>◌,
}
use datera_csi.Client.Sdk.{Sdk}
use datera_csi.Client.Host.{Host, returned}
use datera_csi.Client.Connect.{SdkSetup, new_datera_client, log_push}
use datera_csi.Driver.Env.{Env}
use datera_csi.Driver.Identity.{Vitals, heartbeat, node_heartbeat}
use datera_csi.Driver.Settings.{
  ServiceType, EnvVars, read_env_vars, socket, runs_controller, runs_identity, runs_node,
}

-- The fields of `Driver` that are set once.
pub record Driver : Type 0 where
  pub name : String
  pub sock : String
  pub version : String
  pub nid : String
  pub env : EnvVars

-- `Version`, `Githash` and `SdkVersion`, which the build sets.
pub record Build : Type 0 where
  pub version : String
  pub githash : String
  pub sdk_version : String

unfoldable pub driver_text : Build → String
driver_text b = "datera-csi-" <> (b.version <> ("-" <> (b.githash <> ("-gosdk-" <> b.sdk_version))))

-- `NewDateraDriver`: `host` is `co.GetHost()`.
unfoldable pub new_datera_driver :
    {S : Type 0} → SdkSetup S → Build → String → (String → String) → Action S Driver
unfolding driver_text
new_datera_driver setup b host getenv = do
  let env = read_env_vars getenv
  new_datera_client setup false (driver_text b)
  pure (record {
    name = env.driver_name;
    sock = socket env;
    version = b.version;
    nid = host;
    env = env;
  })

-- The settings as the calls see them, `dc.MetadataDebug` included.
unfoldable pub with_settings : Driver → Env → Env
with_settings d env = record env {
  replica_override = d.env.replica_override;
  metadata_debug = d.env.metadata_debug;
  disable_multipath = d.env.disable_multipath;
  format_timeout = d.env.format_timeout;
  vol_per_node = d.env.vol_per_node;
  nid = d.nid;
}

pub data Service : Type 0 where
  controller_server identity_server node_server : Service

-- What runs beside the server.
pub data Task : Type 0 where
  heartbeats log_pushes : Task

abbrev only_if {ℓ} : {A : Type ℓ} → Bool → A → List A → List A
only_if true a rest = a ∷ rest
only_if false a rest = rest

-- The services that are registered, and the goroutines that are started.
unfoldable pub services : ServiceType → List Service
services kind =
    only_if (runs_controller kind) controller_server
      (only_if (runs_identity kind) identity_server (only_if (runs_node kind) node_server []))

unfoldable pub tasks : EnvVars → List Task
tasks env = heartbeats ∷ only_if env.log_push log_pushes []

-- `url.URL`
pub record Url : Type 0 where
  pub scheme : String
  pub host : String
  pub path : String

-- The error of `os.Remove`: none, one for a file that does not exist, or another.
pub data Removed : Type 0 where
  removed not_there : Removed
  not_removed : Error → Removed

-- `url.Parse`, `path.Join`, `os.Remove`, `net.Listen`, and a server that is created, has its services
-- registered, and serves beside the goroutines.
pub record Net (host : Host) : Type 0 where
  pub parse_url : String → Result Url
  pub join_path : String → String → String
  pub remove : String → host.State → Removed × host.State
  pub listen : String → String → host.State → Option Error × host.State
  pub serve : List Service → List Task → host.State → Option Error × host.State

gone : {S : Type 0} → Removed → Action S (Unit {0})
gone removed = pure tt
gone not_there = pure tt
gone (not_removed e) = throw e

address_of : {host : Host} → Net host → Url → String
address_of net u = if str_eq u.host "" then u.path else net.join_path u.host u.path

module _ (host : Host) (net : Net host) where
  make_if : Bool → String → Action host.State (Unit {0})
  make_if true addr s = returned (host.mkdir_all addr s).0 (host.mkdir_all addr s).1
  make_if false addr s = (ok tt, s)

  -- The directories are made, that of the socket's own path too, and this is then removed.
  unfoldable pub clear_address : String → Action host.State (Unit {0})
  unfolding make_if gone
  clear_address addr = do
    missing ← (λ s. let (b, t) = host.is_not_exist addr s in (ok b, t))
    make_if missing addr
    r ← (λ s. let (r, t) = net.remove addr s in (ok r, t))
    gone r

  -- `Run`
  unfoldable pub run : Driver → Action host.State (Unit {0})
  unfolding clear_address address_of services tasks
  run d = do
    u ← lift (net.parse_url d.sock)
    fail_if (not (str_eq u.scheme "unix")) (plain "Only unix sockets are supported by CSI")
    clear_address (address_of net u)
    failed ← (λ s. let (e, t) = net.listen u.scheme (address_of net u) s in (ok e, t))
    returned failed
    stopped ← (λ s. let (e, t) = net.serve (services d.env.kind) (tasks d.env) s in (ok e, t))
    returned stopped

one_more : Option ℕ → Option ℕ
one_more none = none
one_more (some n) = some (suc n)

-- `Sleeper`, on fuel: the seconds that it sleeps.
unfoldable pub sleeper : ℕ → ℤ → Option ℕ
unfolding one_more
sleeper zero interval = none
sleeper (suc fuel) interval =
    let rest = one_more (sleeper fuel (interval -ℤ pos 1)) in
    if ltb_ℤ (pos 0) interval then rest else some 0

module _ (sdk : Sdk) (env : Env) where
  -- The rounds of `Heartbeater`, as many as come about.
  beats : ℕ → Action (Vitals sdk.State) (Unit {0})
  beats zero = pure tt
  beats (suc n) = do heartbeat sdk env; beats n

  -- `Heartbeater`: a driver with the node service has no rounds.
  unfoldable pub heartbeater : ServiceType → ℕ → Action (Vitals sdk.State) (Unit {0})
  unfolding beats
  heartbeater kind n = if runs_node kind then node_heartbeat sdk env else beats n

-- The rounds of `LogPusher`: an error is logged.
unfoldable pub log_pusher : {S : Type 0} → SdkSetup S → ℕ → Action S (Unit {0})
log_pusher setup zero = pure tt
log_pusher setup (suc n) = do
  attempt (log_push setup "/etc/logrotate.d/driver-logrotate" "/var/log/driver.log.1.gz")
  log_pusher setup n

-- ===== src/Cmd/Start.antt =====
-- How the three programs start: `Main` of cmd/dat-csi-plugin/main.go, and the `main` of
-- cmd/iscsi-recv/main.go and of cmd/iscsi-send/main.go. The flags are given. A fatal error ends the
-- program: it is the error of the action.
use datera_csi.Base.{String, ◌<>◌, Bool, true, false, Option, none, some}
use datera_csi.Base.Go.{Error, plain, ok, Action, pure, throw, lift, on_error, ◌>>=◌, ◌>>◌}
use datera_csi.Client.Host.{Host, returned}
use datera_csi.Client.Connect.{SdkSetup}
use datera_csi.Driver.Env.{Env, error_text}
use datera_csi.Driver.Server.{Net, Removed, not_removed, Build, new_datera_driver, run}
use datera_csi.Cmd.IscsiSend.{IscsiadmClient, send_main}

module _ (host : Host) (net : Net host) where
  start_driver :
      SdkSetup host.State → Build → String → (String → String) → Action host.State (Option String)
  start_driver setup b name getenv = do
    d ← new_datera_driver setup b name getenv
    run host net d
    pure none

  -- `Main` of the driver: what it prints. `config` is `udc.GetConfig`, whose value goes to the SDK.
  unfoldable pub plugin_main :
      Bool
      → SdkSetup host.State
      → Build
      → String
      → (String → String)
      → Action host.State (Unit {0})
      → Action host.State (Option String)
  unfolding start_driver
  plugin_main true setup b name getenv config =
      pure (some ("Datera CSI Plugin Version: " <> (b.version <> ("-" <> (b.githash <> "\n")))))
  plugin_main false setup b name getenv config = do config; start_driver setup b name getenv

  stale : String → Removed → Action host.State (Unit {0})
  stale addr (not_removed e) = throw (plain ("Failed to remove unix domain socket file: " <> addr))
  stale addr _ = pure tt

  -- `main` of iscsi-recv, which listens on the address in the machine's file system whatever the scheme
  -- is. `serve_iscsiadm` is a server with the service of iscsi-recv.
  unfoldable pub recv_main :
      Env → String → (host.State → Option Error × host.State) → Action host.State (Unit {0})
  unfolding stale
  recv_main env addr serve_iscsiadm = do
    u ← lift (net.parse_url addr)
    r ← (λ s. let (r, t) = net.remove (net.join_path u.host u.path) s in (ok r, t))
    stale (net.join_path u.host u.path) r
    failed ← (λ s. let (e, t) = net.listen "unix" (net.join_path u.host u.path) s in (ok e, t))
    on_error (λ e. plain ("failed to listen: " <> error_text env e)) (returned failed)
    stopped ← (λ s. let (e, t) = serve_iscsiadm s in (ok e, t))
    on_error (λ e. plain ("failed to serve: " <> error_text env e)) (returned stopped)

-- `main` of iscsi-send, from the connection on: `dial` is `grpc.Dial`.
unfoldable pub dial_and_send :
    (host : Host)
    → Env
    → (String → Action host.State (IscsiadmClient host.State))
    → String
    → String
    → Action host.State (Option String)
dial_and_send host env dial addr args = do
  c ← on_error (λ e. plain ("did not connect: " <> error_text env e)) (dial addr)
  send_main host env c args

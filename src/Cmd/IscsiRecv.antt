-- ===== src/Cmd/IscsiRecv.antt =====
-- cmd/iscsi-recv/main.go: the server that runs iscsiadm on the machine for the driver's container.
pub mod Blank
use datera_csi.Base.{String}
use datera_csi.Base.Text.{split}
use datera_csi.Base.Go.{Error, plain, status, unknown, Action, pure, on_error, lift, ok, ◌>>=◌}
use datera_csi.Client.Acl.{client_iqn}
use datera_csi.Client.Host.{Host, run_output}
use datera_csi.Driver.Env.{Env, as_code}

module _ (host : Host) (env : Env) where
  -- `SendArgs`
  unfoldable pub send_args : String → Action host.State String
  send_args args = on_error (as_code env unknown) (run_output host (split b' ' args))

  -- `GetInitiatorName`
  unfoldable pub get_initiator_name : Action host.State String
  get_initiator_name =
      on_error (as_code env unknown)
        (do file ← (λ s. let (r, t) = host.initiator_file s in (ok r, t)); lift (client_iqn file))

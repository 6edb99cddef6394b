-- ===== src/Cmd/IscsiSend.antt =====
-- cmd/iscsi-send/main.go: the program that stands for iscsiadm in the driver's container, and passes
-- its arguments to the server on the machine.
pub mod Outcome
use datera_csi.Base.{String, ◌<>◌, Option, none, some, if◌then◌else◌}
use datera_csi.Base.Text.{contains}
use datera_csi.Base.Go.{
  plain, Result, ok, err, panic, Action, pure, throw, crash, attempt, ◌>>=◌, ◌>>◌,
}
use datera_csi.Client.Host.{Host, returned}
use datera_csi.Driver.Env.{Env, error_text}
use datera_csi.Cmd.IscsiRecv.{send_args, get_initiator_name}

-- `pb.IscsiadmClient`: the calls of the server.
pub record IscsiadmClient (S : Type 0) : Type 0 where
  pub send : String → Action S String
  pub initiator_name : Action S String

-- The server on the same machine, with a connection that adds nothing.
unfoldable pub direct : (host : Host) → Env → IscsiadmClient host.State
direct host env = record { send = send_args host env; initiator_name = get_initiator_name host env }

module _ (host : Host) (env : Env) (c : IscsiadmClient host.State) where
  -- A fatal error ends the program: it is the error of the action.
  write_name : Action host.State (Unit {0})
  write_name = do
    failed ← (λ s. let (e, t) = host.mkdir_all "/etc/iscsi" s in (ok e, t))
    returned failed
    name ← c.initiator_name
    unwritten ← (λ s.
        let (e, t) =
          host.write_file "/etc/iscsi/initiatorname.iscsi" ("InitiatorName=" <> name) s in
        (ok e, t))
    returned unwritten

  -- `setupInitName`: only without the directory.
  unfoldable pub setup_init_name : Action host.State (Unit {0})
  unfolding write_name
  setup_init_name = do
    missing ← (λ s. let (b, t) = host.is_not_exist "/etc/iscsi" s in (ok b, t))
    if missing then write_name else pure tt

  -- Exit status 21 of iscsiadm, no objects found, is no error.
  printed : Result String → Action host.State (Option String)
  printed (ok out) = pure (some out)
  printed (err e) =
      if contains (error_text env e) "exit status 21"
      then pure none
      else throw (plain ("Could not send args: " <> error_text env e))
  printed panic = crash

  -- `main` after the connection is made: what it prints.
  unfoldable pub send_main : String → Action host.State (Option String)
  unfolding printed
  send_main args = do setup_init_name; r ← attempt (c.send args); printed r

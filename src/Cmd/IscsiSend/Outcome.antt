-- ===== src/Cmd/IscsiSend/Outcome.antt =====
-- What the program prints of a command that the server runs.
use datera_csi.Base.{
  String, ◌<>◌, ◌≡◌, ◌∙◌, ap, refl, false, Bool-cases, inl, inr, Option, none, some, if◌then◌else◌,
}
use datera_csi.Base.Text.{split, contains}
use datera_csi.Base.Go.Binds.{bind-ok}
use datera_csi.Base.Go.{
  Error, plain, unknown, Result, ok, err, pure, attempt, on_error, ◌>>=◌, ◌>>◌,
}
use datera_csi.Client.Host.{Host, run_cmd, run_output, returned}
use datera_csi.Driver.Env.{Env, as_code, error_text}
use datera_csi.Cmd.IscsiRecv.{send_args}
use datera_csi.Cmd.IscsiSend.{direct, setup_init_name, printed, send_main}

-- The outcome for what the command wrote and how it failed.
unfoldable pub outcome : Env → String → Option Error → Result (Option String)
outcome env out none = ok (some out)
outcome env out (some e) =
    if contains (env.status_text unknown (error_text env e)) "exit status 21"
    then ok none
    else err (plain ("Could not send args: " <> env.status_text unknown (error_text env e)))

module _ (host : Host) (env : Env) where
  abbrev served : String → Option Error → Result String
  served out none = ok out
  served out (some e) = err (as_code env unknown e)

  abbrev run_on : Result (String × Option Error) × host.State → Result String × host.State
  run_on p =
      on_error (as_code env unknown) ((λ (s : host.State). p) >>= λ x. returned x.1 >> pure x.0) p.1

  run_served :
      (args out : String) (failed : Option Error) (t u : host.State)
      → run_cmd host (split b' ' args) t ≡ (ok (out, failed), u)
      → send_args host env args t ≡ (served out failed, u)
  unfolding send_args run_output
  run_served args out none t u e = ap run_on e
  run_served args out (some x) t u e = ap run_on e

  abbrev print_on : Result String × host.State → Result (Option String) × host.State
  print_on p = (attempt (λ (s : host.State). p) >>= printed host env (direct host env)) p.1

  printed_served :
      (out : String) (failed : Option Error) (u : host.State)
      → print_on (served out failed, u) ≡ (outcome env out failed, u)
  unfolding printed outcome
  printed_served out none u = refl
  printed_served out (some e) u =
      elim (Bool-cases (contains (env.status_text unknown (error_text env e)) "exit status 21")) [
        | inl y ↦ rw y
        | inr y ↦ rw y
      ]

  set_up :
      (s t : host.State)
      → host.is_not_exist "/etc/iscsi" s ≡ (false, t)
      → setup_init_name host env (direct host env) s ≡ (ok tt, t)
  unfolding setup_init_name
  set_up s t e = rw (setup_init_name, e)

  -- With its directory in place and the server on the same machine, the program ends as the command
  -- did, on the machine that the command left: it prints what the command wrote, prints nothing where
  -- the server's error names the exit status 21, and fails with any other error.
  pub send_main-outcome :
      (args out : String) (failed : Option Error) (s t u : host.State)
      → host.is_not_exist "/etc/iscsi" s ≡ (false, t)
      → run_cmd host (split b' ' args) t ≡ (ok (out, failed), u)
      → send_main host env (direct host env) args s ≡ (outcome env out failed, u)
  unfolding send_main direct
  send_main-outcome args out failed s t u e f =
      bind-ok (setup_init_name host env (direct host env))
        (λ _. attempt (send_args host env args) >>= printed host env (direct host env)) s
        (set_up s t e)
      ∙ ap print_on (run_served args out failed t u f)
      ∙ printed_served out failed u

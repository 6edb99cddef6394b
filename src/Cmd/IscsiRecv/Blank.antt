-- ===== src/Cmd/IscsiRecv/Blank.antt =====
-- When a request makes the server panic.
use datera_csi.Base.{String, ◌≡◌, ◌↔◌, refl, Option, none, some, All}
use datera_csi.Base.Text.{split}
use datera_csi.Base.Go.{Error, Result, ok, err, panic, pure, unknown, on_error, ◌>>=◌, ◌>>◌}
use datera_csi.Client.Host.{Host, run_cmd, run_output, returned}
use datera_csi.Client.Host.Words.{IsBlank, run_cmd-panics}
use datera_csi.Driver.Env.{Env, as_code}
use datera_csi.Cmd.IscsiRecv.{send_args}

output-panics :
    {S : Type 0} (f : Error → Error) (r : Result (String × Option Error)) (t : S)
    → ((on_error f ((λ (s : S). (r, t)) >>= λ x. returned x.1 >> pure x.0) t).0 ≡ panic)
      ↔ (r ≡ panic)
output-panics f (ok (out, none)) t = (λ h. cc, λ h. cc)
output-panics f (ok (out, some e)) t = (λ h. cc, λ h. cc)
output-panics f (err e) t = (λ h. cc, λ h. cc)
output-panics f panic t = (λ h. refl, λ h. refl)

-- A request to run a command makes the server panic exactly if the text between any two spaces of its
-- arguments is blank, as that of an empty request is; no other request does.
pub send_args-panics :
    (host : Host) (env : Env) (args : String) (s : host.State)
    → ((send_args host env args s).0 ≡ panic) ↔ All IsBlank (split b' ' args)
unfolding send_args run_output
send_args-panics host env args s =
    let r = run_cmd host (split b' ' args) s in
    let p = output-panics (as_code env unknown) r.0 r.1 in
    let q = run_cmd-panics host (split b' ' args) s in (λ h. q.0 (p.0 h), λ h. p.1 (q.1 h))

-- ===== src/Client/Format/Tries.antt =====
-- When formatting a device succeeds.
use datera_csi.Base.{
  String, ℕ, zero, suc, ◌≡◌, ◌∙◌, ◌↔◌, ap, inl, inr, Bool-cases, false, Option, none, some, List,
  if◌then◌else◌,
}
use datera_csi.Base.Go.Binds.{bind-ok, bind-eq-ok, paired}
use datera_csi.Base.Go.{Error, Result, ok, Action, pure, throw}
use datera_csi.Client.Host.{Host, run_cmd, returned}
use datera_csi.Base.Int.{pos, negsuc}
use datera_csi.Client.Format.{format, is_mounted, tries}

module _ (host : Host) (cmd : List String) where
  -- With this many rounds to spare, the command succeeds after runs that each fail, and that do not say
  -- that the device is mounted; it leaves the machine in the state that is named.
  pub data Formats : ℕ → host.State → host.State → Type 0 where
    made :
        (spare : ℕ) {a b : host.State} {out : String}
        → run_cmd host cmd a ≡ (ok (out, none), b)
        → Formats spare a b
    again :
        (spare : ℕ) {a b c : host.State} {out : String} {e : Error}
        → run_cmd host cmd a ≡ (ok (out, some e), b)
        → is_mounted out ≡ false
        → Formats spare b c
        → Formats (suc spare) a c

  abbrev last_round : String × Option Error → Action host.State (Unit {0})
  last_round r = returned r.1

  abbrev round : ℕ → String × Option Error → Action host.State (Unit {0})
  round n r = elim r.1 [
    | none ↦ pure tt
    | some e ↦ if is_mounted r.0 then throw e else format host n cmd
  ]

  format_returns :
      {spare : ℕ} {a b : host.State} → Formats spare a b → format host spare cmd a ≡ (ok tt, b)
  unfolding format
  format_returns (made zero {a = a} e) = bind-ok (run_cmd host cmd) last_round a e
  format_returns (made (suc n) {a = a} e) = bind-ok (run_cmd host cmd) (round n) a e
  format_returns (again n {a = a} e h w) =
      bind-ok (run_cmd host cmd) (round n) a e ∙ rw h (format_returns w)

  made_at :
      (spare : ℕ) (a b : host.State) (out : String)
      → (run_cmd host cmd a).0 ≡ ok (out, none)
      → ◌≡◌ {A = Result (Unit {0}) × host.State} (ok tt, (run_cmd host cmd a).1) (ok tt, b)
      → Formats spare a b
  made_at spare a b out e k = made spare (
      paired (run_cmd host cmd a) e
      ∙ ap (λ (q : Result (Unit {0}) × host.State). (ok (out, none), q.1)) k)

  last_formats :
      (a b : host.State) (out : String) (failed : Option Error)
      → (run_cmd host cmd a).0 ≡ ok (out, failed)
      → last_round (out, failed) (run_cmd host cmd a).1 ≡ (ok tt, b)
      → Formats zero a b
  last_formats a b out none e k = made_at zero a b out e k
  last_formats a b out (some x) e k = cc

  round_formats :
      (n : ℕ) (a b : host.State) (out : String) (failed : Option Error)
      → (run_cmd host cmd a).0 ≡ ok (out, failed)
      → round n (out, failed) (run_cmd host cmd a).1 ≡ (ok tt, b)
      → (format host n cmd (run_cmd host cmd a).1 ≡ (ok tt, b) → Formats n (run_cmd host cmd a).1 b)
      → Formats (suc n) a b
  round_formats n a b out none e k later = made_at (suc n) a b out e k
  round_formats n a b out (some x) e k later = elim (Bool-cases (is_mounted out)) [
    | inl y ↦ cc (rw y at k)
    | inr y ↦ again n (paired (run_cmd host cmd a) e) y (later (rw y at k))
  ]

  formats :
      (spare : ℕ) (a b : host.State) → format host spare cmd a ≡ (ok tt, b) → Formats spare a b
  unfolding format
  formats zero a b h =
      let ((out, failed), e, k) = bind-eq-ok (run_cmd host cmd) last_round a h in
      last_formats a b out failed e k
  formats (suc n) a b h =
      let ((out, failed), e, k) = bind-eq-ok (run_cmd host cmd) (round n) a h in
      round_formats n a b out failed e k (formats n (run_cmd host cmd a).1 b)

  -- Formatting with a timeout returns without an error, and leaves the machine in a state, exactly if
  -- within its rounds the command succeeds and leaves that state, after only failures that do not say
  -- that the device is mounted. The rounds besides the first are the timeout and one more, and none for
  -- a negative timeout.
  pub format_iff :
      (timeout : ℕ) (a b : host.State)
      → ((format host (tries (pos timeout)) cmd a ≡ (ok tt, b)) ↔ Formats (suc timeout) a b)
        × ((format host (tries (negsuc timeout)) cmd a ≡ (ok tt, b)) ↔ Formats 0 a b)
  format_iff timeout a b =
      ((formats (suc timeout) a b, format_returns), (formats zero a b, format_returns))

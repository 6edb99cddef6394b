-- ===== src/Common/Context/Built.antt =====
-- The contexts that the program builds, and that logging with them does not panic.
use datera_csi.Base.{
  String, ◌≡◌, ◌∙◌, refl, false, Option, none, some, List, [], ◌∷◌, str_eq, if◌then◌else◌, length,
  inl, inr, ◌==◌, Bool-cases,
}
use datera_csi.Base.Int.{pos}
use datera_csi.Base.Num.{format_int}
use datera_csi.Base.Go.{ok}
use datera_csi.Common.Log.{count_all, verbs, with_line_end, warning}
use datera_csi.Common.Log.Depth.{check_args-two}
use datera_csi.Common.Context.{
  text, Context, value, with_value, as_text, with_ctxt, Level, warn, Caller, LogEntry, str,
  decorate_runtime_context, tagged, log_helper, logged, log, log_all, then_log, logged_format, logf,
}

-- A library call that hands a context on with the values for the log in it.
abbrev pub Carries : (Context → Context) → Type 0
Carries f =
    (c : Context) → (value "req" (f c) ≡ value "req" c) × (value "tid" (f c) ≡ value "tid" c)

-- The contexts that the program builds: by `WithCtxt`, by naming the request anew, and by the two
-- libraries' calls.
pub data Built (host fresh : String) (given sent : Context → Context) : Context → Type 0 where
  made :
      (c : Context) (name tid : String)
      → Built host fresh given sent (with_ctxt host fresh c name tid)
  renamed :
      {c : Context}
      → Built host fresh given sent c
      → (name : String) → Built host fresh given sent (with_value "req" (text name) c)
  through_client :
      {c : Context} → Built host fresh given sent c → Built host fresh given sent (given c)
  through_metadata :
      {c : Context} → Built host fresh given sent c → Built host fresh given sent (sent c)

abbrev pub HasTexts : Context → Type 0
HasTexts c =
    (req : String) × (tid : String) × (value "req" c ≡ some (text req))
    × (value "tid" c ≡ some (text tid))

module _ (host fresh : String) (given sent : Context → Context) (g : Carries given)
    (s : Carries sent) where
  pub Built-HasTexts : {c : Context} → Built host fresh given sent c → HasTexts c
  unfolding value with_ctxt
  Built-HasTexts (made c name tid) = (name, if str_eq tid "" then fresh else tid, refl, refl)
  Built-HasTexts (renamed b name) = let (req, tid, p, q) = Built-HasTexts b in (name, tid, refl, q)
  Built-HasTexts (through_client {c} b) =
      let (req, tid, p, q) = Built-HasTexts b in (req, tid, (g c).0 ∙ p, (g c).1 ∙ q)
  Built-HasTexts (through_metadata {c} b) =
      let (req, tid, p, q) = Built-HasTexts b in (req, tid, (s c).0 ∙ p, (s c).1 ∙ q)

-- One line in the log.
pub log_ok :
    (caller : Option Caller) (level : Level) (c : Context) (m : String)
    → HasTexts c
    → (e : LogEntry) × (log caller level c m ≡ ok (e ∷ []))
unfolding log log_helper logged as_text tagged
log_ok caller level c m (req, tid, p, q) =
    let fields = decorate_runtime_context caller (("req", str req) ∷ ("tid", str tid) ∷ []) in
    (record { level = level; fields = fields; message = m }, rw (log, log_helper, p, q))

-- Logging with a context that the program has built does not panic: both values are there, and both
-- are texts. It writes one line, or two if the number of verbs in the format is not that of the
-- arguments. The two libraries hand both values on.
pub logf-Built :
    (host fresh : String) (given sent : Context → Context) (sprintf : String → List String → String)
    (caller : Option Caller) (level : Level) (c : Context) (s : String) (args : List String)
    → Carries given
    → Carries sent
    → Built host fresh given sent c
    → (es : List LogEntry) × (logf sprintf caller level c s args ≡ ok es)
      × (length es ≡ (if count_all verbs s == length args then 1 else 2))
unfolding logf logged_format log_all then_log
logf-Built host fresh given sent sprintf caller level c s args g h b =
    let texts = Built-HasTexts host fresh given sent g h b in
    elim (Bool-cases (count_all verbs s == length args)) [
      | inl e ↦
          let (x, p) = log_ok caller level c (sprintf (with_line_end s) args) texts in
          (x ∷ [], rw (logf, check_args-two 0 s (length args), e, p), rw e)
      | inr e ↦
          let (x, p) = log_ok caller level c (sprintf (with_line_end s) args) texts in
          let counts = format_int (pos (length args)) ∷ format_int (pos (count_all verbs s)) ∷ [] in
          let (y, q) = log_ok caller warn c (sprintf warning counts) texts in
          (y ∷ x ∷ [], rw (logf, check_args-two 0 s (length args), e, p, q), rw e)
    ]

-- What came in with a call is lost: in any context that the program builds, whatever it was built from,
-- no value is found but the name, the id and the machine's, if the two libraries add none of that key.
pub Built-forgets :
    (host fresh key : String) (given sent : Context → Context)
    → str_eq "req" key ≡ false
    → str_eq "tid" key ≡ false
    → str_eq "host" key ≡ false
    → ((c : Context) → value key (given c) ≡ value key c)
    → ((c : Context) → value key (sent c) ≡ value key c)
    → {c : Context} → Built host fresh given sent c
    → value key c ≡ none
unfolding value with_ctxt
Built-forgets host fresh key given sent p q r g s (made c name tid) = rw (value, p, q, r)
Built-forgets host fresh key given sent p q r g s (renamed b name) =
    rw (value, p) (Built-forgets host fresh key given sent p q r g s b)
Built-forgets host fresh key given sent p q r g s (through_client {c} b) =
    g c ∙ Built-forgets host fresh key given sent p q r g s b
Built-forgets host fresh key given sent p q r g s (through_metadata {c} b) =
    s c ∙ Built-forgets host fresh key given sent p q r g s b

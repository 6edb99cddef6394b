-- ===== src/Driver/Calls/Transparent.antt =====
-- The interceptor and the contexts leave a call's outcome as it is.
use datera_csi.Base.{
  String, ◌<>◌, ◌≡◌, ◌∙◌, refl, sym, Bool-cases, inl, inr, some, List, [], ◌∷◌, ◌++◌, str_eq,
}
use mathlib.Core.Path.{subst}
use datera_csi.Base.Go.Binds.{bind-ok}
use datera_csi.Base.Go.{Result, ok, err, panic, Action, pure, lift, attempt, ◌>>=◌, ◌>>◌}
use datera_csi.Common.Context.{
  Value, Context, value, as_text, with_ctxt, Level, debug, info, error, LogEntry,
}
use datera_csi.Common.Context.Built.{
  Carries, Built, made, through_client, through_metadata, Built-HasTexts, logf-Built,
}
use datera_csi.Driver.Calls.{
  Runtime, Shown, say, line, announce, within, init_context, say_error, log_server_and_set_id,
  method,
}

-- The context of a call is one that the program has built.
abbrev pub Known : Runtime → Context → Type 0
Known run = Built run.host_name run.fresh run.sdk_context run.append

-- What a call is without its log.
abbrev pub outcome : {S A : Type 0} → Result A × (S × List LogEntry) → Result A × S
outcome p = (p.0, p.1.0)

module _ (run : Runtime) (g : Carries run.sdk_context) (h : Carries run.append) {S : Type 0} where
  -- A line is logged, and the state stays.
  line_lem :
      (level : Level) (c : Context) (text : String) (args : List String) (s : S)
      (ls : List LogEntry)
      → Known run c
      → (es : List LogEntry) × (line run level c text args (s, ls) ≡ (ok tt, (s, ls ++ es)))
  unfolding say
  line_lem level c text args s ls b =
      let (es, e, _) =
        logf-Built run.host_name run.fresh run.sdk_context run.append run.sprintf run.caller level c
          text args g h b in
      (es, rw e)

  -- A chain that begins with a line.
  line_then :
      {A : Type 0} (P : Result A × (S × List LogEntry) → Type 0) (level : Level) (c : Context)
      (text : String) (args : List String) (rest : Action (S × List LogEntry) A) (s : S)
      (ls : List LogEntry)
      → Known run c
      → ((es : List LogEntry) → P (rest (s, es)))
      → P ((line run level c text args >> rest) (s, ls))
  line_then P level c text args rest s ls b k =
      let (es, e) = line_lem level c text args s ls b in
      subst P (sym (bind-ok (line run level c text args) (λ _. rest) (s, ls) e)) (k (ls ++ es))

  announce_lem :
      (piece name shown : String) (c : Context) (s : S) (ls : List LogEntry)
      → Known run c
      → (es : List LogEntry) × (announce run piece name shown c (s, ls) ≡ (ok tt, (s, es)))
  unfolding announce
  announce_lem piece name shown c s ls b = elim (Bool-cases (str_eq piece "identity")) [
    | inl e ↦ (ls, rw (announce, e))
    | inr e ↦
        let (xs, u) = line_lem info c "%s service '%s' called\n" (piece ∷ name ∷ []) s ls b in
        let (ys, v) = line_lem debug c "%s: %+v\n" (name ∷ shown ∷ []) s (ls ++ xs) b in
        let first = line run info c "%s service '%s' called\n" (piece ∷ name ∷ []) in
        let last = line run debug c "%s: %+v\n" (name ∷ shown ∷ []) in
        ((ls ++ xs) ++ ys, rw (announce, e) (bind-ok first (λ _. last) (s, ls) u ∙ v))
  ]

  init_context_lem :
      (piece name shown : String) (c : Context) (s : S) (ls : List LogEntry)
      → Known run c
      → (d : Context) × (es : List LogEntry) × Known run d
        × (init_context run piece name shown c (s, ls) ≡ (ok d, (s, es)))
  unfolding init_context
  init_context_lem piece name shown c s ls b =
      let (_, tid, _, q) =
        Built-HasTexts run.host_name run.fresh run.sdk_context run.append g h b in
      let of_id = λ (id : String).
        run.sdk_context (with_ctxt run.host_name run.fresh c (piece <> ("." <> name)) id) in
      let known : Known run (of_id tid) = through_client (made c (piece <> ("." <> name)) tid) in
      let (es, e) = announce_lem piece name shown (of_id tid) s ls known in
      let rest = λ (id : String). announce run piece name shown (of_id id) >> pure (of_id id) in
      (
        of_id tid,
        es,
        known,
        bind-ok (lift {S = S × List LogEntry} (as_text (value "tid" c))) rest (s, ls) (id_is tid q)
            ∙ bind-ok (announce run piece name shown (of_id tid)) (λ _. pure (of_id tid)) (s, ls) e,
      )
    where
      id_is :
          (tid : String)
          → value "tid" c ≡ some (Value.text tid)
          → ◌≡◌ {A = Result String × (S × List LogEntry)}
              (as_text (value "tid" c), (s, ls))
              (ok tid, (s, ls))
      id_is tid q = unfold as_text in rw q

  last_of :
      {A : Type 0} (shown : Shown A) (ctxt : Context) (r : Result A) (t : S) (ls : List LogEntry)
      → Known run ctxt
      → outcome ((say_error run ctxt shown.full_method r >> lift r) (t, ls)) ≡ (r, t)
  unfolding say_error
  last_of shown ctxt (ok a) t ls b = refl
  last_of shown ctxt (err e) t ls b =
      line_then (λ p. outcome p ≡ (err e, t)) error ctxt "GRPC -- error: %s -- %s -- %+v\n"
        (shown.full_method ∷ run.fresh ∷ run.error_text e ∷ []) (lift (err e)) t ls b (λ es. refl)
  last_of shown ctxt panic t ls b = refl

  answered :
      {A : Type 0} (shown : Shown A) (ctxt : Context) (r : Result A) (t : S) (ls : List LogEntry)
      → Known run ctxt
      → outcome (
          (attempt (λ (p : S × List LogEntry). (r, (t, ls))) >>= λ resp.
          line run info ctxt "GRPC -- response: %s -- %s %fs -- %+v\n"
            (shown.full_method ∷ run.fresh ∷ shown.seconds ∷ shown.response resp ∷ [])
          >> (say_error run ctxt shown.full_method resp >> lift resp))
            (t, ls))
        ≡ (r, t)
  answered shown ctxt (ok a) t ls b =
      line_then (λ p. outcome p ≡ (ok a, t)) info ctxt "GRPC -- response: %s -- %s %fs -- %+v\n"
        (shown.full_method ∷ run.fresh ∷ shown.seconds ∷ shown.response (ok a) ∷ [])
        (say_error run ctxt shown.full_method (ok a) >> lift (ok a)) t ls b
        (λ es. last_of shown ctxt (ok a) t es b)
  answered shown ctxt (err e) t ls b =
      line_then (λ p. outcome p ≡ (err e, t)) info ctxt "GRPC -- response: %s -- %s %fs -- %+v\n"
        (shown.full_method ∷ run.fresh ∷ shown.seconds ∷ shown.response (err e) ∷ [])
        (say_error run ctxt shown.full_method (err e) >> lift (err e)) t ls b
        (λ es. last_of shown ctxt (err e) t es b)
  answered shown ctxt panic t ls b = refl

  -- A method with the context of a call is its body: neither the contexts nor the log change its outcome
  -- or its state.
  method_lem :
      {A : Type 0} (piece name shown : String) (body : Action S A) (c : Context) (s : S)
      (ls : List LogEntry)
      → Known run c
      → (es : List LogEntry) × (method run piece name shown body c (s, ls)
          ≡ ((body s).0, ((body s).1, es)))
  unfolding method
  method_lem piece name shown body c s ls b =
      let (d, es, _, e) = init_context_lem piece name shown c s ls b in
      (es, bind-ok (init_context run piece name shown c) (λ _. within run body) (s, ls) e)

  -- The interceptor, the contexts and the log leave a call as it is: whatever context it comes with,
  -- and whatever was logged before, its outcome and the state that it leaves are those of the method's
  -- body. In particular nothing panics on a context. The libraries hand the two values for the log on.
  pub log_server_and_set_id-outcome :
      {A : Type 0} (shown : Shown A) (piece name request : String) (body : Action S A) (c : Context)
      (s : S) (ls : List LogEntry)
      → outcome (log_server_and_set_id run shown (method run piece name request body) c (s, ls))
        ≡ body s
  unfolding log_server_and_set_id
  log_server_and_set_id-outcome {A} shown piece name request body c s ls =
      let ctxt = run.append (with_ctxt run.host_name run.fresh c "rpc" run.fresh) in
      let known : Known run ctxt = through_metadata (made c "rpc" run.fresh) in
      let handler = method run piece name request body ctxt in
      let rest = λ (resp : Result A).
        line run info ctxt "GRPC -- response: %s -- %s %fs -- %+v\n"
          (shown.full_method ∷ run.fresh ∷ shown.seconds ∷ shown.response resp ∷ [])
        >> (say_error run ctxt shown.full_method resp >> lift resp) in
      line_then (λ p. outcome p ≡ body s) info ctxt "GRPC -- request: %s -- %s -- %+v\n"
        (shown.full_method ∷ run.fresh ∷ shown.request ∷ []) (attempt handler >>= rest) s ls known
        (λ es.
          let (xs, e) = method_lem piece name request body ctxt s es known in
          subst
            (λ (p : Result A × (S × List LogEntry)).
              outcome ((attempt (λ (_ : S × List LogEntry). p) >>= rest) (s, es)) ≡ body s)
            (sym e) (answered shown ctxt (body s).0 (body s).1 xs known))

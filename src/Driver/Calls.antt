-- ===== src/Driver/Calls.antt =====
-- How a call comes to its method: the interceptor `logServerAndSetId` and the contexts of `InitFunc` of
-- pkg/driver/driver.go, and `WithContext` of pkg/client/client.go. A call's state is here with the lines
-- that it has logged.
pub mod Transparent
use datera_csi.Base.{
  String, ◌<>◌, Bool, true, false, not, Option, none, some, List, [], ◌∷◌, ◌++◌, str_eq,
  if◌then◌else◌,
}
use datera_csi.Base.Text.{join}
use datera_csi.Base.Go.{
  Error, Result, ok, err, panic, Action, pure, lift, crash, attempt, ◌>>=◌, ◌>>◌,
}
use datera_csi.Common.Context.{
  Context, value, as_text, with_ctxt, Level, debug, info, error, Caller, LogEntry, logf,
}

-- What the calls take from the runtime and from libraries: the name of the machine, the ids that are
-- drawn for the call, `fmt.Sprintf`, the text of an error, the place of a call, `AppendToOutgoingContext` of grpc and
-- `WithContext` of the SDK.
pub record Runtime : Type 0 where
  pub host_name : String
  pub fresh : String
  pub sprintf : String → List String → String
  pub caller : Option Caller
  pub error_text : Error → String
  pub append : Context → Context
  pub sdk_context : Context → Context

-- `protosanitizer.StripSecrets` and `%+v` on what a call is asked and what it answers, and the time
-- between.
pub record Shown (A : Type 0) : Type 0 where
  pub full_method : String
  pub request : String
  pub seconds : String
  pub response : Result A → String

module _ (run : Runtime) {S : Type 0} where
  -- Lines that are logged.
  say : Result (List LogEntry) → Action (S × List LogEntry) (Unit {0})
  say (ok es) (s, ls) = (ok tt, (s, ls ++ es))
  say _ p = (panic, p)

  abbrev line : Level → Context → String → List String → Action (S × List LogEntry) (Unit {0})
  line level ctxt s args = say (logf run.sprintf run.caller level ctxt s args)

  -- A body, which logs nothing of its own here.
  abbrev pub within {ℓ} : {A : Type ℓ} → Action S A → Action (S × List LogEntry) A
  within m (s, ls) = let (r, t) = m s in (r, (t, ls))

  -- A call is logged, unless it is one of the identity service.
  announce : String → String → String → Context → Action (S × List LogEntry) (Unit {0})
  unfolding say
  announce piece name shown ctxt = if str_eq piece "identity" then pure tt else (do
    line info ctxt "%s service '%s' called\n" (piece ∷ name ∷ [])
    line debug ctxt "%s: %+v\n" (name ∷ shown ∷ []))

  -- The contexts of `InitFunc`: for the driver, and through the client.
  unfoldable pub init_context :
      String → String → String → Context → Action (S × List LogEntry) Context
  unfolding announce
  init_context piece name shown ctx = do
    id ← lift (as_text (value "tid" ctx))
    let ctxt = run.sdk_context (with_ctxt run.host_name run.fresh ctx (piece <> ("." <> name)) id)
    announce piece name shown ctxt
    pure ctxt

  -- `co.Errorf` in the interceptor, if the call failed.
  say_error : {A : Type 0} → Context → String → Result A → Action (S × List LogEntry) (Unit {0})
  unfolding say
  say_error ctxt method (err e) =
      line error ctxt "GRPC -- error: %s -- %s -- %+v\n"
        (method ∷ run.fresh ∷ run.error_text e ∷ [])
  say_error ctxt method _ = pure tt

  -- `logServerAndSetId`: the context of the call that came in is left behind.
  unfoldable pub log_server_and_set_id :
      {A : Type 0}
      → Shown A
      → (Context → Action (S × List LogEntry) A)
      → Context
      → Action (S × List LogEntry) A
  unfolding say say_error
  log_server_and_set_id {A} shown handler ctx = do
    let ctxt = run.append (with_ctxt run.host_name run.fresh ctx "rpc" run.fresh)
    line info ctxt "GRPC -- request: %s -- %s -- %+v\n"
        (shown.full_method ∷ run.fresh ∷ shown.request ∷ [])
    resp ← attempt (handler ctxt)
    line info ctxt "GRPC -- response: %s -- %s %fs -- %+v\n"
        (shown.full_method ∷ run.fresh ∷ shown.seconds ∷ shown.response resp ∷ [])
    say_error ctxt shown.full_method resp
    lift resp

  -- A method of the driver: `InitFunc`, and the rest of it.
  unfoldable pub method :
      {A : Type 0} → String → String → String → Action S A → Context → Action (S × List LogEntry) A
  unfolding init_context
  method piece name shown body ctx = do init_context piece name shown ctx; within body

-- ===== src/Common/Context.antt =====
-- The contexts that the program passes along, `WithCtxt` of pkg/common/util.go, and the log calls of
-- pkg/common/log.go, which read a context.
pub mod Built
use datera_csi.Base.{
  String, ◌<>◌, ℕ, Bool, true, false, Option, none, some, List, [], ◌∷◌, ◌++◌, map, str_eq,
  if◌then◌else◌, length,
}
use datera_csi.Base.Int.{ℤ, pos}
use datera_csi.Base.Num.{format_int}
use datera_csi.Base.Go.{Result, ok, err, panic}
use datera_csi.Common.Log.{check_args, count_all, verbs}

-- A value in a context: Go's `interface{}`.
pub data Value : Type 0 where
  text : String → Value
  other : Value

-- The keys and values of a context, the last that was added first.
abbrev pub Context : Type 0
Context = List (String × Value)

-- `ctxt.Value(key)`
unfoldable pub value : String → Context → Option Value
value key [] = none
value key ((k, v) ∷ c) = let rest = value key c in if str_eq k key then some v else rest

-- `context.WithValue(ctxt, key, v)`
abbrev pub with_value : String → Value → Context → Context
with_value key v c = (key, v) ∷ c

-- `v.(string)`, which panics on anything else, also on nil.
unfoldable pub as_text : Option Value → Result String
as_text (some (text s)) = ok s
as_text _ = panic

-- `topctxt`
unfoldable pub top_ctxt : String → Context
top_ctxt host = with_value "host" (text host) []

-- `WithCtxt`: `fresh` is what `GenId` returns. The context that it is given is not looked at.
unfoldable pub with_ctxt : String → String → Context → String → String → Context
unfolding top_ctxt
with_ctxt host fresh ctxt name tid =
    with_value "req" (text name)
      (with_value "tid" (text (if str_eq tid "" then fresh else tid)) (top_ctxt host))

pub data Level : Type 0 where
  debug info warn error fatal : Level

-- Where the call stands: `runtime.Caller(3)`.
pub record Caller : Type 0 where
  pub file : String
  pub line : ℤ
  pub func : String

-- A field of an entry.
pub data Field : Type 0 where
  num : ℤ → Field
  str : String → Field

pub record LogEntry : Type 0 where
  pub level : Level
  pub fields : List (String × Field)
  pub message : String

-- `DecorateRuntimeContext`, on the fields.
unfoldable pub decorate_runtime_context :
    Option Caller → List (String × Field) → List (String × Field)
decorate_runtime_context none fields = fields
decorate_runtime_context (some c) fields =
    ("func", str c.func) ∷ ("line", num c.line) ∷ ("file", str c.file) ∷ fields

tagged : Option Caller → Result String → Result String → Result (List (String × Field))
unfolding decorate_runtime_context
tagged caller (ok req) (ok tid) =
    ok (decorate_runtime_context caller (("req", str req) ∷ ("tid", str tid) ∷ []))
tagged caller _ _ = panic

-- `logHelper`: the fields of the entries of a context.
unfoldable pub log_helper : Option Caller → Context → Result (List (String × Field))
unfolding tagged as_text value
log_helper caller ctxt = tagged caller (as_text (value "req" ctxt)) (as_text (value "tid" ctxt))

logged : Level → String → Result (List (String × Field)) → Result (List LogEntry)
logged level message (ok fields) =
    ok (record { level = level; fields = fields; message = message } ∷ [])
logged level message _ = panic

-- `Debug`, `Info`, `Warning`, `Error` and `Fatal`: the level is the call's name, and the program ends
-- after `Fatal`.
unfoldable pub log : Option Caller → Level → Context → String → Result (List LogEntry)
unfolding logged
log caller level ctxt s = logged level s (log_helper caller ctxt)

-- Entries, one after the other.
then_log : Result (List LogEntry) → Result (List LogEntry) → Result (List LogEntry)
then_log (ok xs) (ok ys) = ok (xs ++ ys)
then_log _ _ = panic

log_all : Option Caller → Level → Context → List String → Result (List LogEntry)
unfolding then_log
log_all caller level ctxt [] = ok []
log_all caller level ctxt (s ∷ ss) =
    let rest = log_all caller level ctxt ss in then_log (log caller level ctxt s) rest

logged_format :
    (String → List String → String)
    → Option Caller
    → Level
    → Context
    → ℕ
    → List String
    → Option (String × List String)
    → Result (List LogEntry)
unfolding log_all then_log
logged_format sprintf caller level ctxt wanted args none = panic
logged_format sprintf caller level ctxt wanted args (some (format, warned)) =
    let counts = format_int (pos (length args)) ∷ format_int (pos wanted) ∷ [] in
    then_log (log_all caller warn ctxt (map (λ w. sprintf w counts) warned))
      (log caller level ctxt (sprintf format args))

-- `Debugf` and the others: a warning first, with the two counts, if the arguments do not fit the
-- format. `sprintf` is
-- `fmt.Sprintf`, of the arguments as they are shown.
unfoldable pub logf :
    (String → List String → String)
    → Option Caller
    → Level
    → Context
    → String
    → List String
    → Result (List LogEntry)
unfolding logged_format
logf sprintf caller level ctxt s args =
    logged_format sprintf caller level ctxt (count_all verbs s) args (check_args 2 s (length args))

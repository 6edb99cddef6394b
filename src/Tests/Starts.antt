-- ===== src/Tests/Starts.antt =====
-- The start of the driver, and the contexts of its calls.
use datera_csi.Base.{
  String, ℕ, ◌+◌, ◌≡◌, ◌≢◌, ◌∙◌, sym, refl, Bool, true, false, not, none, List, [], ◌∷◌, str_eq,
  if◌then◌else◌, length, eq_refl, eq_iff, arith, Bool-cases, inl, inr, ◌||◌,
}
use datera_csi.Base.Go.{ok, err, plain}
use datera_csi.Base.Go.Outcomes.{Ends}
use datera_csi.Common.Log.{count_all, verbs}
use datera_csi.Common.Context.{text, value, with_ctxt, LogEntry, info, logf}
use datera_csi.Common.Context.Built.{made, logf-Built, Built-forgets}
use datera_csi.Driver.Calls.{Runtime, Shown, method, log_server_and_set_id}
use datera_csi.Driver.Calls.Transparent.{outcome, log_server_and_set_id-outcome}
use datera_csi.Driver.Identity.{starting}
use datera_csi.Driver.Settings.{ServiceType}
use datera_csi.Driver.Server.{Net, removed, not_there, not_removed, clear_address, heartbeater}
use datera_csi.Driver.Server.Address.{Gone, Files, IsFree, clear_address-IsFree}
use datera_csi.Driver.Server.Beats.{heartbeater-Healthy}
use datera_csi.Client.Host.{Host}
use datera_csi.Tests.Backend.{setting_up}
use datera_csi.Tests.Machine.{machine, joined}

abbrev plain_print : String → List String → String
plain_print format args = format

abbrev linux : Runtime
linux = record {
  host_name = "node-1";
  fresh = "id-1";
  sprintf = plain_print;
  caller = none;
  error_text = λ e. "error";
  append = λ c. c;
  sdk_context = λ c. c;
}

abbrev shown : Shown ℕ
shown = record {
  full_method = "/csi.v1.Node/NodeGetInfo";
  request = "{}";
  seconds = "0";
  response = λ r. "1";
}

log_server_and_set_id-outcome_example :
    outcome (
      log_server_and_set_id linux shown
        (method linux "node" "NodeGetInfo" "{}" (λ (s : ℕ). (ok s, s + 1)))
        []
        (3, []))
    ≡ (ok 3, 4)
log_server_and_set_id-outcome_example =
    log_server_and_set_id-outcome linux (λ c. (refl, refl)) (λ c. (refl, refl)) shown "node"
      "NodeGetInfo" "{}" (λ (s : ℕ). (ok s, s + 1)) [] 3 []

logf-Built_example :
    (es : List LogEntry) × (logf plain_print none info
        (with_ctxt "node-1" "id-1" [] "Run" "")
        "Parsing socket: %s\n"
        []
      ≡ ok es)
    × (length es ≡ 2)
unfolding count_all verbs
logf-Built_example =
    logf-Built "node-1" "id-1" (λ c. c) (λ c. c) plain_print none info
      (with_ctxt "node-1" "id-1" [] "Run" "") "Parsing socket: %s\n" [] (λ c. (refl, refl))
      (λ c. (refl, refl)) (made [] "Run" "")

-- What a client of the driver sent with its call.
Built-forgets_example :
    value "metadata"
      (with_ctxt "node-1" "id-1" (("metadata", text "pvc") ∷ []) "controller.CreateVolume" "id-1")
    ≡ none
Built-forgets_example =
    Built-forgets "node-1" "id-1" "metadata" (λ c. c) (λ c. c) refl refl refl (λ c. refl)
      (λ c. refl) (made (("metadata", text "pvc") ∷ []) "controller.CreateVolume" "id-1")

heartbeater-Healthy_example :
    Ends
      (λ _ e. e.healthy ≡ true)
      (heartbeater joined setting_up ServiceType.controller 3 (starting 0))
heartbeater-Healthy_example =
    heartbeater-Healthy joined setting_up ServiceType.controller 2 (starting 0)

-- A machine with the directories / and /run, and a state that says which other files there are.
abbrev is_dir : String → Bool
is_dir p = str_eq p "/run" || str_eq p "/"

abbrev there : (String → Bool) → String → Bool
there s p = if is_dir p then true else s p

abbrev with_file : String → Bool → (String → Bool) → String → Bool
with_file path b s p = if str_eq path p then b else s p

abbrev disk_host : Host
disk_host = record machine {
  State = String → Bool;
  exec = λ p args s. (("", none), s);
  is_not_exist = λ path s. (not (there s path), s);
  mkdir_all = λ path s. (none, with_file path true s);
  write_file = λ path t s. (none, s);
  remove_all = λ path s. (none, s);
  intn = λ n s. (1, s);
  initiator_file = λ s. (err (plain "none"), s);
  connect = λ c s. (("", none), s);
  disconnect = λ iqn ips s. (none, s);
}

abbrev disk_net : Net disk_host
disk_net = record {
  parse_url = λ s. ok (record { scheme = "unix"; host = ""; path = "/run/csi.sock" });
  join_path = λ a b. b;
  remove = λ path s.
      if is_dir path
      then (not_removed (plain "is a directory"), s)
      else if s path
      then (removed, with_file path false s)
      else (not_there, s);
  listen = λ scheme addr s. (none, with_file addr true s);
  serve = λ services tasks s. (none, s);
}

abbrev run_dir : String → String
run_dir p = if str_eq p "/run" then "/" else "/run"

run_dir_other : (p : String) → run_dir p ≢ p
run_dir_other p = elim (Bool-cases (str_eq p "/run")) [
  | inl e ↦ rw e (λ q.
      let no : str_eq "/" "/run" ≡ true = (eq_iff "/" "/run").1 (q ∙ (eq_iff p "/run").0 e) in cc)
  | inr e ↦ rw e (λ q. let no : str_eq p "/run" ≡ true = (eq_iff p "/run").1 (sym q) in cc)
]

there-run_dir : (s : String → Bool) (p : String) → there s (run_dir p) ≡ true
there-run_dir s p = elim (Bool-cases (str_eq p "/run")) [ inl e ↦ rw e | inr e ↦ rw e ]

there-with_file : (path : String) (s : String → Bool) → there (with_file path true s) path ≡ true
there-with_file path s = rw (eq_refl path) (ground arith)

differ : (path other : String) → other ≢ path → str_eq path other ≡ false
differ path other n = elim (Bool-cases (str_eq path other)) [
  | inl e ↦ absurd (n (sym ((eq_iff path other).0 e)))
  | inr e ↦ e
]

disk_net-Gone :
    (path : String) (s : String → Bool)
    → Gone {S = String → Bool} there path (disk_net.remove path s).0 s (disk_net.remove path s).1
disk_net-Gone path s = elim (Bool-cases (is_dir path)) [
  | inl d ↦ rw d tt
  | inr d ↦ elim (Bool-cases (s path)) [
    | inl h ↦ rw (d, h) (rw (eq_refl path, d), λ other n. rw (differ path other n))
    | inr h ↦ rw (d, h) (rw (d, h), λ other n. refl)
  ]
]

abbrev disk_files : Files disk_host disk_net
disk_files = record {
  exists = there;
  parent = run_dir;
  parent_other = run_dir_other;
  stands = λ s p h. there-run_dir s p;
  looks = λ path s. (refl, λ p. refl);
  makes = λ path s h. there-with_file path s;
  removes = disk_net-Gone;
}

clear_address-IsFree_example :
    Ends
      (λ (_ : Unit {0}) t. IsFree disk_host disk_net disk_files "/run/csi.sock" t)
      (clear_address disk_host disk_net "/run/csi.sock" (λ p. false))
clear_address-IsFree_example =
    clear_address-IsFree disk_host disk_net disk_files "/run/csi.sock" (λ p. false)

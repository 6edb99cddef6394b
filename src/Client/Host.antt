-- ===== src/Client/Host.antt =====
-- The machine that a node runs on: its commands, its files, and the iSCSI library
-- github.com/kubernetes-csi/csi-lib-iscsi, which are parameters; and `RunCmd` of pkg/common/util.go,
-- through which the program runs every command.
pub mod Words
use datera_csi.Base.{String, ℕ, Bool, Option, none, some, List, [], ◌∷◌, str_eq, if◌then◌else◌}
use datera_csi.Base.Text.{trim_space}
use datera_csi.Base.Go.{Error, Result, ok, panic, Action, pure, throw, ◌>>=◌, ◌>>◌}
use datera_csi.Client.Sdk.{Sdk}

-- `iscsi.TargetInfo`
pub record TargetInfo : Type 0 where
  pub iqn : String
  pub portal : String
  pub port : String

-- `iscsi.Secrets`
pub record Secrets : Type 0 where
  pub secrets_type : String
  pub user_name : String
  pub password : String
  pub user_name_in : String
  pub password_in : String

-- `iscsi.Connector`
pub record Connector : Type 0 where
  pub targets : List TargetInfo
  pub lun : ℕ
  pub multipath : Bool
  pub retry_count : ℕ
  pub auth_type : String
  pub session_secrets : Secrets
  pub do_discovery : Bool
  pub do_chap_discovery : Bool

-- A state that only the calls below read and change. `exec` is `execCommand(prefix, args...)` with
-- `CombinedOutput`: what the command wrote, and its error if it failed. `is_not_exist` is
-- `os.IsNotExist` of the error of `os.Stat`. `lsblk` decodes the output of lsblk: the file system of
-- each block device, `none` for a null entry, and no list at all for the text "null". `intn` is
-- `rand.Intn` of a fresh source, and `initiator_file` reads the file with the initiator's name.
pub record Host : Type 1 where
  pub State : Type 0
  pub exec : String → List String → State → (String × Option Error) × State
  pub is_not_exist : String → State → Bool × State
  pub mkdir_all : String → State → Option Error × State
  pub write_file : String → String → State → Option Error × State
  pub remove_all : String → State → Option Error × State
  pub lsblk : String → Result (Option (List (Option String)))
  pub intn : ℕ → State → ℕ × State
  pub initiator_file : State → Result String × State
  pub connect : Connector → State → (String × Option Error) × State
  pub disconnect : String → List String → State → Option Error × State

-- The words of a command, each without the space around it, and without those that are empty.
unfoldable pub command_words : List String → List String
command_words [] = []
command_words (c ∷ cs) =
    let rest = command_words cs in if str_eq (trim_space c) "" then rest else trim_space c ∷ rest

-- `if err != nil { return err }`
abbrev pub returned : {S : Type 0} → Option Error → Action S (Unit {0})
returned none = pure tt
returned (some e) = throw e

module _ (host : Host) where
  -- `prefix := ncmd[0]`, and the run: without a word it panics.
  run_words : List String → Action host.State (String × Option Error)
  run_words [] s = (panic, s)
  run_words (prefix ∷ args) s = let (out, t) = host.exec prefix args s in (ok out, t)

  -- `RunCmd`: the output and the error.
  unfoldable pub run_cmd : List String → Action host.State (String × Option Error)
  unfolding run_words
  run_cmd cmd = run_words (command_words cmd)

  -- `out, err := RunCmd(...); if err != nil { return "", err }`
  unfoldable pub run_output : List String → Action host.State String
  unfolding run_cmd
  run_output cmd = do (out, failed) ← run_cmd cmd; returned failed; pure out

-- A call of the backend and one of the machine, as actions on both.
abbrev pub remote {ℓ} :
    {A : Type ℓ} (sdk : Sdk) (host : Host) → Action sdk.State A → Action (sdk.State × host.State) A
remote sdk host m s = let (r, t) = m s.0 in (r, (t, s.1))

abbrev pub local {ℓ} :
    {A : Type ℓ} (sdk : Sdk) (host : Host) → Action host.State A → Action (sdk.State × host.State) A
local sdk host m s = let (r, t) = m s.1 in (r, (s.0, t))

-- ===== src/Client/Mount/Table/Commands.antt =====
-- What the commands that a mount runs do with the table.
use datera_csi.Base.{String, ◌<>◌, ◌≡◌, refl, inl, inr, Option, none, some, List, [], ◌∷◌}
use text.Mathlib.TextLemmas.{append_assoc}
use datera_csi.Base.Text.{trim_space, trim_right}
use datera_csi.Base.Text.Fields.{fields}
use datera_csi.Base.Text.Fields.Words.{
  IsWord, trim_space-NoSpace, trim_right-append, trim_space-append, append_nonempty, fields-append,
  trim_space-newline,
}
use datera_csi.Base.Go.{Error, Result, ok, Action, pure, attempt, ◌>>=◌}
use datera_csi.Base.Go.Branches.{Branches, bind-Branches, attempt-Branches}
use datera_csi.Client.Host.{Host, command_words, run_cmd, run_output, returned}
use datera_csi.Client.Mount.{readlink, device_from_mount, first_field}
use datera_csi.Client.Mount.Table.{MountEntry, lines, matching, Leaves, Named, Mounts}

-- Words are passed on as they are.
pub command_words-word :
    (w : String) (ws : List String) → IsWord w → command_words (w ∷ ws) ≡ w ∷ command_words ws
unfolding command_words
command_words-word w ws (_, n, h) = rw (trim_space-NoSpace w h, n)

grep_word :
    (file : String)
    → trim_space ("grep '" <> (file <> "' /proc/mounts")) ≡ "grep '" <> (file <> "' /proc/mounts")
unfolding trim_right
grep_word file =
    let end = trim_right-append file "' /proc/mounts" refl refl in
    trim_space-append "grep '" (file <> "' /proc/mounts") refl
      (append_nonempty file "' /proc/mounts" refl) end

grep_words :
    (file : String)
    → command_words ("sh" ∷ "-c" ∷ ("grep '" <> (file <> "' /proc/mounts")) ∷ [])
      ≡ "sh" ∷ "-c" ∷ ("grep '" <> (file <> "' /proc/mounts")) ∷ []
unfolding command_words trim_space
grep_words file = rw (
  grep_word file,
  append_nonempty "grep '" (file <> "' /proc/mounts") (append_nonempty file "' /proc/mounts" refl),
)

module _ (host : Host) where
  ran :
      (Q : String → host.State → Type 0) (E : host.State → Type 0) (out : String)
      (failed : Option Error) (t : host.State)
      → Leaves failed (Q out t) (E t)
      → Branches Q E ((returned failed >>= λ _. pure out) t)
  ran Q E out none t h = h
  ran Q E out (some e) t h = h

  -- A command, by what it leaves if it succeeds and if it fails.
  pub run_output-Branches :
      (Q : String → host.State → Type 0) (E : host.State → Type 0) (cmd : List String) (p : String)
      (args : List String) (s : host.State)
      → command_words cmd ≡ p ∷ args
      → let run = host.exec p args s in
        Leaves run.0.1 (Q run.0.0 run.1) (E run.1) → Branches Q E (run_output host cmd s)
  unfolding run_output run_cmd
  run_output-Branches Q E cmd p args s e h =
      let run = host.exec p args s in rw (run_cmd, e) (ran Q E run.0.0 run.0.1 run.1 h)

-- The first field of the lines that grep shows.
first_of_lines :
    (e : MountEntry) (es : List MountEntry)
    → IsWord e.device
    → first_field (fields (lines (e ∷ es))) ≡ ok e.device
unfolding first_field
first_of_lines e es w = rw (append_assoc e.device, append_assoc " ", fields-append e.device _ w)

module _ (host : Host) (m : Mounts host) where
  open m use {table, hits, canonical}

  abbrev link_of : String → Result String → Action host.State String
  link_of device dev = pure (elim dev [ ok link ↦ trim_space link | _ ↦ device ])

  abbrev of_output : String → Action host.State String
  of_output out = (λ s. (first_field (fields out), s)) >>= λ device.
      attempt (readlink host device) >>= link_of device

  read_link :
      (d : String) (s : host.State)
      → IsWord d
      → (out : String) (t : host.State) (failed : Option Error)
      → Leaves failed (out ≡ canonical d <> "\n") Unit
      → table t ≡ table s
      → Leaves failed ((trim_space out ≡ canonical d) × (table t ≡ table s)) (table t ≡ table s)
  read_link d s w out t none g k =
      (rw g (trim_space-newline (canonical d) (m.canonical-IsWord d w)), k)
  read_link d s w out t (some e) g k = k

  linked :
      (d : String) (s : host.State)
      → IsWord d
      → Branches
          (λ l t. (trim_space l ≡ canonical d) × (table t ≡ table s))
          (λ t. table t ≡ table s)
          (readlink host d s)
  unfolding readlink command_words trim_space
  linked d s w =
      let Q = λ (l : String) (t : host.State). (trim_space l ≡ canonical d) × (table t ≡ table s) in
      let (g, k) = m.links d s w in
      let run = host.exec "readlink" ("-f" ∷ d ∷ []) s in
      run_output-Branches host Q (λ t. table t ≡ table s) ("readlink" ∷ "-f" ∷ d ∷ []) "readlink"
        ("-f" ∷ d ∷ []) s (rw (command_words-word d [] w))
        (read_link d s w run.0.0 run.1 run.0.1 g k)

  of_lines :
      (e : MountEntry) (es : List MountEntry) (s : host.State)
      → IsWord e.device
      → Branches
          (λ d t. Named canonical e.device d × (table t ≡ table s))
          (λ _. ⊥)
          (of_output (lines (e ∷ es)) s)
  of_lines e es s w = rw (first_of_lines e es w) (
      attempt-Branches (λ l t. (trim_space l ≡ canonical e.device) × (table t ≡ table s))
        (λ t. table t ≡ table s) (λ d t. Named canonical e.device d × (table t ≡ table s)) (λ _. ⊥)
        (readlink host e.device) (link_of e.device) s (linked e.device s w)
        (λ l t h. (inr h.0, h.1)) (λ _ t k. (inl refl, k)))

  -- A file with an entry that grep finds: the device is that of the first such entry, by its name
  -- there or by its canonical one, and the table stays.
  pub device_found :
      (file : String) (e : MountEntry) (es : List MountEntry) (s : host.State)
      → IsWord file
      → IsWord e.device
      → matching (hits file) (table s) ≡ e ∷ es
      → Branches
          (λ d t. Named canonical e.device d × (table t ≡ table s))
          (λ _. ⊥)
          (device_from_mount host file s)
  unfolding device_from_mount
  device_found file e es s w v h =
      let cmd = "sh" ∷ "-c" ∷ ("grep '" <> (file <> "' /proc/mounts")) ∷ [] in
      let R = λ (out : String) (t : host.State). (out ≡ lines (e ∷ es)) × (table t ≡ table s) in
      let Q = λ (d : String) (t : host.State). Named canonical e.device d × (table t ≡ table s) in
      let (g, k) = m.greps file s w in
      bind-Branches R (λ _. ⊥) Q (run_output host cmd) of_output s
        (run_output-Branches host R (λ _. ⊥) cmd "sh"
          ("-c" ∷ ("grep '" <> (file <> "' /proc/mounts")) ∷ []) s (grep_words file)
          (rw (g, h) (refl, k)))
        (λ out t r. rw (r.0, ← r.1) (of_lines e es t v))

  -- A file with no such entry has none.
  pub device_missing :
      (file : String) (s : host.State)
      → IsWord file
      → matching (hits file) (table s) ≡ []
      → Branches (λ _ _. ⊥) (λ t. table t ≡ table s) (device_from_mount host file s)
  unfolding device_from_mount
  device_missing file s w h =
      let cmd = "sh" ∷ "-c" ∷ ("grep '" <> (file <> "' /proc/mounts")) ∷ [] in
      let E = λ (t : host.State). table t ≡ table s in
      let (g, k) = m.greps file s w in
      bind-Branches (λ _ _. ⊥) E (λ _ _. ⊥) (run_output host cmd) of_output s
        (run_output-Branches host (λ _ _. ⊥) E cmd "sh"
          ("-c" ∷ ("grep '" <> (file <> "' /proc/mounts")) ∷ []) s (grep_words file) (rw (g, h) k))
        (λ out t no. absurd no)

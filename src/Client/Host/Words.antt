-- ===== src/Client/Host/Words.antt =====
-- When running a command panics.
use datera_csi.Base.{
  String, ◌≡◌, ◌↔◌, refl, Bool-cases, inl, inr, true, false, List, [], ◌∷◌, All, str_eq,
}
use datera_csi.Base.Text.{trim_space}
use datera_csi.Base.Go.{ok, panic}
use datera_csi.Client.Host.{Host, command_words, run_words, run_cmd}

-- Nothing but space.
abbrev pub IsBlank : String → Type 0
IsBlank w = str_eq (trim_space w) "" ≡ true

command_words-blank : (cmd : List String) → All IsBlank cmd → command_words cmd ≡ []
unfolding command_words
command_words-blank [] h = refl
command_words-blank (c ∷ cs) (h, k) = rw (h, command_words-blank cs k)

words_empty : (cmd : List String) → command_words cmd ≡ [] → All IsBlank cmd
unfolding command_words
words_empty [] h = tt
words_empty (c ∷ cs) h = elim (Bool-cases (str_eq (trim_space c) "")) [
  | inl e ↦ (e, words_empty cs (rw e at h))
  | inr e ↦ cc (rw e at h)
]

module _ (host : Host) where
  run_words-panics :
      (words : List String) (s : host.State) → (run_words host words s).0 ≡ panic → words ≡ []
  unfolding run_words
  run_words-panics [] s h = refl
  run_words-panics (prefix ∷ args) s h = cc

  -- Running a command panics exactly if all of its words are blank, in whatever state the machine is.
  pub run_cmd-panics :
      (cmd : List String) (s : host.State) → ((run_cmd host cmd s).0 ≡ panic) ↔ All IsBlank cmd
  unfolding run_cmd run_words
  run_cmd-panics cmd s = (
    λ h. words_empty cmd (run_words-panics (command_words cmd) s h),
    λ h. rw (run_cmd, command_words-blank cmd h),
  )

  -- A command with a first word runs it.
  pub run_cmd-runs :
      (word : String) (words : List String) (s : host.State)
      → str_eq (trim_space word) "" ≡ false
      → run_cmd host (word ∷ words) s ≡ (
        ok (host.exec (trim_space word) (command_words words) s).0,
        (host.exec (trim_space word) (command_words words) s).1,
      )
  unfolding run_cmd run_words command_words
  run_cmd-runs word words s e = rw (run_cmd, command_words, e)

-- ===== src/Client/ExpandFs/Sizes.antt =====
-- What the check of a device's size accepts.
use datera_csi.Base.{
  Option, List, [], ◌∷◌, String, ℕ, zero, suc, ◌*◌, ◌^◌, ◌%◌, ◌≡◌, ◌∙◌, ap, refl, true, Bool-cases,
  inl, inr, arith, ◌⊎◌, if◌then◌else◌,
}
use datera_csi.Base.Int.{ℤ, pos, negsuc, ◌*ℤ◌, wrap64, eqb_ℤ, pattern64, signed64}
use datera_csi.Base.Num.{parse_int, refused, syntax}
use datera_csi.Base.Text.{trim_space}
use datera_csi.Base.Text.Fields.{trim_newline}
use datera_csi.Base.Go.Binds.{bind-ok, bind-eq-ok, paired}
use datera_csi.Client.Host.Words.{run_cmd-runs}
use datera_csi.Base.Go.{Error, Result, ok, Action, pure, throw, ◌>>=◌}
use datera_csi.Client.Host.{Host, command_words, run_cmd}
use datera_csi.Client.ExpandFs.{read_size, in_bytes, device_size, check_rounds, timed_out}

pattern-in_bytes : (z : ℤ) → pattern64 (in_bytes z) ≡ (pattern64 z * 2 ^ 30) % 2 ^ 64
unfolding in_bytes wrap64 ◌*ℤ◌
pattern-in_bytes (pos n) = ground arith
pattern-in_bytes (negsuc n) = ground arith

in_bytes-pattern : (z : ℤ) → in_bytes z ≡ signed64 ((pattern64 z * 2 ^ 30) % 2 ^ 64)
unfolding in_bytes wrap64 ◌*ℤ◌
in_bytes-pattern (pos n) = ground arith
in_bytes-pattern (negsuc n) = ground arith

-- The expected size is multiplied by 2^30 in every round, and is 0 from the third on.
in_bytes-three : (z : ℤ) → in_bytes (in_bytes (in_bytes z)) ≡ pos 0
in_bytes-three z =
    rw (in_bytes-pattern (in_bytes (in_bytes z)), pattern-in_bytes (in_bytes z), pattern-in_bytes z)
      (ground arith)

eqb_ℤ→eq : (a b : ℤ) → eqb_ℤ a b ≡ true → a ≡ b
eqb_ℤ→eq a b h = ground arith

-- The sizes that the check accepts for a requested one: that in bytes, that multiplied once more, and 0.
unfoldable pub Accepts : ℤ → ℤ → Type 0
Accepts expected size =
    (size ≡ in_bytes expected) ⊎ (size ≡ in_bytes (in_bytes expected)) ⊎ (size ≡ pos 0)

one_round_later : (expected size : ℤ) → Accepts (in_bytes expected) size → Accepts expected size
unfolding Accepts
one_round_later expected size (inl e) = inr (inl e)
one_round_later expected size (inr (inl e)) = inr (inr (e ∙ in_bytes-three expected))
one_round_later expected size (inr (inr e)) = inr (inr e)

module _ (host : Host) (device : String) where
  abbrev last_round : ℤ → ℤ → Action host.State (Unit {0})
  last_round expected size =
      if eqb_ℤ size (in_bytes expected) then pure tt else throw (timed_out device)

  abbrev round : ℕ → ℤ → ℤ → Action host.State (Unit {0})
  round n expected size =
      if eqb_ℤ size (in_bytes expected)
      then pure tt
      else check_rounds host n device (in_bytes expected)

  abbrev size_of : String × Option Error → Action host.State ℤ
  size_of out = pure (read_size (trim_newline out.0))

  abbrev read_device : Action host.State ℤ
  read_device = run_cmd host ("blockdev" ∷ "--getsize64" ∷ device ∷ []) >>= size_of

  -- A machine on which the last size that was read is one that is accepted.
  abbrev pub Settled : ℤ → host.State → Type 0
  Settled expected b =
      (u : host.State) × (size : ℤ) × (device_size host device u ≡ (ok size, b))
      × Accepts expected size

  size_found :
      (expected size : ℤ) (a b : host.State)
      → (device_size host device a).0 ≡ ok size
      → eqb_ℤ size (in_bytes expected) ≡ true
      → ◌≡◌ {A = Result (Unit {0}) × host.State} (ok tt, (device_size host device a).1) (ok tt, b)
      → Settled expected b
  unfolding Accepts
  size_found expected size a b e h k = (
    a,
    size,
    paired (device_size host device a) e
        ∙ ap (λ (q : Result (Unit {0}) × host.State). (ok size, q.1)) k,
    inl (eqb_ℤ→eq size (in_bytes expected) h),
  )

  -- If the rounds of the check succeed, the last size that was read of the device, and which left the
  -- machine in the state that the check returns it in, is the requested one in bytes, or that
  -- multiplied once more by 2^30, or 0.
  pub check_rounds-accepts :
      (rounds : ℕ) (expected : ℤ) (a b : host.State)
      → check_rounds host rounds device expected a ≡ (ok tt, b)
      → Settled expected b
  unfolding check_rounds
  check_rounds-accepts zero expected a b h =
      let (size, e, k) = bind-eq-ok (device_size host device) (last_round expected) a h in
      elim (Bool-cases (eqb_ℤ size (in_bytes expected))) [
        | inl y ↦ size_found expected size a b e y (rw y at k)
        | inr y ↦ cc (rw y at k)
      ]
  check_rounds-accepts (suc n) expected a b h =
      let (size, e, k) = bind-eq-ok (device_size host device) (round n expected) a h in
      elim (Bool-cases (eqb_ℤ size (in_bytes expected))) [
        | inl y ↦ size_found expected size a b e y (rw y at k)
        | inr y ↦
            let (u, last, q, r) =
              check_rounds-accepts n (in_bytes expected) (device_size host device a).1 b
                (rw y at k) in
            (u, last, q, one_round_later expected last r)
      ]

  module _
      (unreadable : (args : List String) (s : host.State)
        → parse_int (trim_newline (host.exec "blockdev" args s).0.0) ≡ refused syntax) where
    device_size-unreadable : (s : host.State) → (device_size host device s).0 ≡ ok (pos 0)
    unfolding device_size read_size trim_space
    device_size-unreadable s =
        let args = command_words ("--getsize64" ∷ device ∷ []) in
        let t = (host.exec "iscsiadm" (command_words ("-m" ∷ "session" ∷ "-R" ∷ [])) s).1 in
        ap (λ (p : Result ℤ × host.State). p.0)
          (bind-ok (run_cmd host ("iscsiadm" ∷ "-m" ∷ "session" ∷ "-R" ∷ [])) (λ _. read_device) s
              (run_cmd-runs host "iscsiadm" ("-m" ∷ "session" ∷ "-R" ∷ []) s refl)
            ∙ bind-ok (run_cmd host ("blockdev" ∷ "--getsize64" ∷ device ∷ [])) size_of t
                (run_cmd-runs host "blockdev" ("--getsize64" ∷ device ∷ []) t refl))
        ∙ rw (read_size, unreadable args t)

    reads_zero :
        (f : ℤ → Action host.State (Unit {0})) (s : host.State)
        → ((device_size host device >>= f) s).0 ≡ (f (pos 0) (device_size host device s).1).0
    reads_zero f s =
        ap (λ (p : Result (Unit {0}) × host.State). p.0)
          (bind-ok (device_size host device) f s
            (paired (device_size host device s) (device_size-unreadable s)))

    zero_accepted :
        (n : ℕ) (expected : ℤ) (s : host.State)
        → in_bytes expected ≡ pos 0
        → (check_rounds host n device expected s).0 ≡ ok tt
    unfolding check_rounds
    zero_accepted zero expected s e = reads_zero (last_round expected) s ∙ rw e
    zero_accepted (suc n) expected s e = reads_zero (round n expected) s ∙ rw e

    next_round :
        (n : ℕ) (expected : ℤ) (s : host.State)
        → ((t : host.State) → (check_rounds host n device (in_bytes expected) t).0 ≡ ok tt)
        → (check_rounds host (suc n) device expected s).0 ≡ ok tt
    unfolding check_rounds
    next_round n expected s later =
        reads_zero (round n expected) s ∙ elim (Bool-cases (eqb_ℤ (pos 0) (in_bytes expected))) [
          | inl y ↦ rw y
          | inr y ↦ rw y (later (device_size host device s).1)
        ]

    -- A device whose size cannot be read, in no round, is accepted whatever the size that was asked
    -- for, if there are at least three rounds: the expected size has become 0 by then, and 0 stands for
    -- what cannot be read.
    pub check_rounds_unreadable :
        (more : ℕ) (expected : ℤ) (s : host.State)
        → (check_rounds host (suc (suc more)) device expected s).0 ≡ ok tt
    check_rounds_unreadable more expected s = next_round (suc more) expected s (λ t.
        next_round more (in_bytes expected) t
          (λ u. zero_accepted more (in_bytes (in_bytes expected)) u (in_bytes-three expected)))

-- ===== src/Client/Mount/Table/Bound.antt =====
-- Mounting, bind mounting and unmounting, as changes of the table of mounts.
use datera_csi.Base.{
  String, ◌≡◌, ◌∙◌, ap, inl, inr, refl, Bool, true, false, Option, none, some, List, [], ◌∷◌,
  str_eq, if◌then◌else◌,
}
use mathlib.Core.Path.{subst}
use datera_csi.Base.Text.{trim_space}
use datera_csi.Base.Text.Fields.Words.{IsWord}
use datera_csi.Base.Go.{Error, Result, ok, pure, attempt, ◌>>=◌}
use datera_csi.Base.Go.Branches.{Branches, bind-Branches, attempt-Branches}
use datera_csi.Client.Volume.{Volume}
use datera_csi.Client.Host.{Host, command_words, run_output, returned}
use datera_csi.Client.Mount.{make_dir, device_from_mount, mount_command, mount, bind_mount, bound}
use datera_csi.Client.Mount.Table.{MountEntry, matching, Leaves, Named, Mounts, Added}
use datera_csi.Client.Mount.Table.Commands.{command_words-word, run_output-Branches, device_found}

module _ (host : Host) (m : Mounts host) where
  open m use {table, hits, canonical}

  abbrev Kept : host.State → host.State → Type 0
  Kept s t = table t ≡ table s

  returned_case :
      (s : host.State) (failed : Option Error) (t : host.State)
      → Kept s t
      → Branches (λ (_ : Unit {0}) t. Kept s t) (Kept s) (returned failed t)
  returned_case s none t h = h
  returned_case s (some e) t h = h

  made :
      (dest : String) (missing : Bool) (s t : host.State)
      → Kept s t
      → Branches
          (λ (_ : Unit {0}) t. Kept s t)
          (Kept s)
          ((if missing
              then ((λ (v : host.State). (ok (host.mkdir_all dest v).0, (host.mkdir_all dest v).1))
                  >>= λ failed. returned failed)
              else pure tt)
            t)
  made dest true s t h =
      returned_case s (host.mkdir_all dest t).0 (host.mkdir_all dest t).1 (m.makes dest t ∙ h)
  made dest false s t h = h

  -- The directory for the target is no matter of the table.
  pub make_dir-Branches :
      (dest : String) (s : host.State)
      → Branches (λ (_ : Unit {0}) t. Kept s t) (Kept s) (make_dir host dest s)
  unfolding make_dir
  make_dir-Branches dest s =
      made dest (host.is_not_exist dest s).0 s (host.is_not_exist dest s).1 (m.looks dest s)

  -- A mount, by what its command does in a state with the table.
  pub adds :
      (IsDevice : String → Type 0) (dest : String) (old : List MountEntry) (cmd args : List String)
      (t : host.State)
      → command_words cmd ≡ "mount" ∷ args
      → table t ≡ old
      → let run = host.exec "mount" args t in
        Leaves run.0.1 (Added IsDevice dest (table t) (table run.1)) (table run.1 ≡ table t)
        → Branches
            (λ (_ : Unit {0}) (u : host.State). Added IsDevice dest old (table u))
            (λ (u : host.State). table u ≡ old)
            ((run_output host cmd >>= λ _. pure tt) t)
  adds IsDevice dest old cmd args t words k law =
      let Q = λ (old : List MountEntry) (_ : Unit {0}) (u : host.State).
        Added IsDevice dest old (table u) in
      let E = λ (old : List MountEntry) (u : host.State). table u ≡ old in
      let R = λ (_ : String) (u : host.State). Added IsDevice dest (table t) (table u) in
      subst
        (λ (old : List MountEntry).
          Branches (Q old) (E old) ((run_output host cmd >>= λ _. pure tt) t))
        k
        (bind-Branches R (E (table t)) (Q (table t)) (run_output host cmd) (λ _. pure tt) t
          (run_output-Branches host R (E (table t)) cmd "mount" args t words law) (λ _ u a. a))

  plain_words :
      (device dest : String)
      → IsWord device
      → IsWord dest
      → command_words ("mount" ∷ device ∷ dest ∷ []) ≡ "mount" ∷ device ∷ dest ∷ []
  unfolding command_words trim_space
  plain_words device dest v w =
      rw (command_words-word device (dest ∷ []) v, command_words-word dest [] w)

  -- A name of a name of a device is a name of the device.
  renamed :
      (device d c : String)
      → Named canonical device d
      → Named canonical d c
      → Named canonical device c
  renamed device d c (inl p) q = subst (λ (x : String). Named canonical x c) p q
  renamed device d c (inr p) (inl q) = inr (q ∙ p)
  renamed device d c (inr p) (inr q) = inr (q ∙ ap canonical p ∙ m.canonical_canonical device)

  -- A name of a device that is a word is a word.
  pub Named-IsWord : (device d : String) → IsWord device → Named canonical device d → IsWord d
  Named-IsWord device d w (inl p) = rw p w
  Named-IsWord device d w (inr p) = rw p (m.canonical-IsWord device w)

  renames :
      (device d dest : String) (old new : List MountEntry) (failed : Option Error)
      → Named canonical device d
      → Leaves failed (Added (Named canonical d) dest old new) (new ≡ old)
      → Leaves failed (Added (Named canonical device) dest old new) (new ≡ old)
  renames device d dest old new none n (e, x, p, q) = (e, renamed device d e.device n x, p, q)
  renames device d dest old new (some err) n h = h

  mount_after :
      (e : MountEntry) (dest fs source : String) (s t : host.State)
      → IsWord e.device
      → IsWord dest
      → Kept s t
      → (d : String) → Named canonical e.device d
      → Branches
          (λ (_ : Unit {0}) u. Added (Named canonical e.device) dest (table s) (table u))
          (Kept s)
          ((run_output host (mount_command (ok d) source dest ("--bind" ∷ []) fs) >>= λ _. pure tt)
            t)
  unfolding mount_command
  mount_after e dest fs source s t v w k d n =
      let word = Named-IsWord e.device d v n in
      let run = host.exec "mount" (d ∷ dest ∷ []) t in
      adds (Named canonical e.device) dest (table s) ("mount" ∷ d ∷ dest ∷ []) (d ∷ dest ∷ []) t
        (plain_words d dest word w) k
        (renames e.device d dest (table t) (table run.1) run.0.1 n (m.mounts d dest t word w))

  mount_bound :
      (source dest fs : String) (e : MountEntry) (es : List MountEntry) (s : host.State)
      → IsWord source
      → IsWord dest
      → IsWord e.device
      → matching (hits source) (table s) ≡ e ∷ es
      → Branches
          (λ (_ : Unit {0}) t. Added (Named canonical e.device) dest (table s) (table t))
          (Kept s)
          (mount host source dest ("--bind" ∷ []) fs s)
  unfolding mount
  mount_bound source dest fs e es s v w x h =
      let Q = λ (_ : Unit {0}) (t : host.State).
        Added (Named canonical e.device) dest (table s) (table t) in
      let R = λ (d : String) (t : host.State). Named canonical e.device d × Kept s t in
      let run = λ (dev : Result String).
        run_output host (mount_command dev source dest ("--bind" ∷ []) fs) >>= λ _.
        pure {S = host.State} tt in
      bind-Branches (λ (_ : Unit {0}) t. Kept s t) (Kept s) Q (make_dir host dest)
        (λ _. attempt (device_from_mount host source) >>= run) s (make_dir-Branches dest s)
        (λ _ t k.
          attempt-Branches R (λ _. ⊥) Q (Kept s) (device_from_mount host source) run t
            (mounted_device t k) (λ d u r. mount_after e dest fs source s u x w r.1 d r.0)
            (λ _ u no. absurd no))
    where
      mounted_device :
          (t : host.State)
          → Kept s t
          → Branches
              (λ (d : String) (u : host.State). Named canonical e.device d × Kept s u)
              (λ _. ⊥)
              (device_from_mount host source t)
      mounted_device t k =
          subst
            (λ (old : List MountEntry).
              Branches
                (λ (d : String) (u : host.State). Named canonical e.device d × (table u ≡ old))
                (λ _. ⊥) (device_from_mount host source t))
            k (device_found host m source e es t v x (rw k h))

  -- A bind mount of a mounted volume never panics. If it returns, the table has one more entry, which
  -- is for the target and has the device of the first line that grep finds for the staging path, by its
  -- name there or, where readlink or mount finds it, by its canonical one; the volume has the target among its bind mounts. If it fails, the table is as it was. The
  -- volume has a device path, the staging path, the target and that line's device are words, and grep
  -- finds a line.
  pub bind_mount-Added :
      (vol : Volume) (dest fs : String) (e : MountEntry) (es : List MountEntry) (s : host.State)
      → str_eq vol.device_path "" ≡ false
      → IsWord vol.mount_path
      → IsWord dest
      → IsWord e.device
      → matching (hits vol.mount_path) (table s) ≡ e ∷ es
      → Branches
          (λ v t.
            (v ≡ record vol { bind_mount_paths = some (bound dest vol.bind_mount_paths) })
            × Added (Named canonical e.device) dest (table s) (table t))
          (λ t. table t ≡ table s)
          (bind_mount host vol dest fs s)
  unfolding bind_mount
  bind_mount-Added vol dest fs e es s h v w x f =
      let R = λ (_ : Unit {0}) (t : host.State).
        Added (Named canonical e.device) dest (table s) (table t) in
      let new = record vol { bind_mount_paths = some (bound dest vol.bind_mount_paths) } in
      let Q = λ (v : Volume) (t : host.State).
        (v ≡ new) × Added (Named canonical e.device) dest (table s) (table t) in
      rw (h, v.1)
        (bind-Branches R (Kept s) Q (mount host vol.mount_path dest ("--bind" ∷ []) fs)
          (λ _. pure new) s (mount_bound vol.mount_path dest fs e es s v w x f)
          (λ _ t a. (refl, a)))

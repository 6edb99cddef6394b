-- ===== src/Client/Mount/Table/Staged.antt =====
-- A device that is mounted for the first time, and then bound to a target.
use datera_csi.Base.{String, ◌≡◌, refl, Bool, true, Bool-cases, inl, inr, List, [], ◌∷◌, ◌++◌}
use mathlib.Core.Path.{subst}
use datera_csi.Base.Text.{trim_space}
use datera_csi.Base.Text.Fields.Words.{IsWord}
use datera_csi.Base.Go.{Result, ok, pure, attempt, ◌>>=◌}
use datera_csi.Base.Go.Branches.{Branches, bind-Branches, attempt-Branches}
use datera_csi.Client.Volume.{Volume}
use datera_csi.Client.Host.{Host, command_words, run_output}
use datera_csi.Client.Mount.{make_dir, device_from_mount, mount_command, mount, mount_volume}
use datera_csi.Client.Mount.Table.{MountEntry, matching, Named, Mounts, Added}
use datera_csi.Client.Mount.Table.Commands.{command_words-word, device_missing}
use datera_csi.Client.Mount.Table.Bound.{make_dir-Branches, adds}

matching-append :
    (hit : MountEntry → Bool) (es : List MountEntry) (e : MountEntry)
    → matching hit es ≡ []
    → hit e ≡ true
    → matching hit (es ++ e ∷ []) ≡ e ∷ []
unfolding matching
matching-append hit [] e h t = rw t
matching-append hit (x ∷ es) e h t = elim (Bool-cases (hit x)) [
  | inl y ↦ absurd (cc (rw y at h))
  | inr n ↦ rw (n, matching-append hit es e (rw n at h) t)
]

new_words :
    (fs device dest : String)
    → IsWord fs
    → IsWord device
    → IsWord dest
    → command_words ("mount" ∷ "-t" ∷ fs ∷ device ∷ dest ∷ "" ∷ [])
      ≡ "mount" ∷ "-t" ∷ fs ∷ device ∷ dest ∷ []
unfolding command_words trim_space
new_words fs device dest u v w = rw (
  command_words-word fs (device ∷ dest ∷ "" ∷ []) u,
  command_words-word device (dest ∷ "" ∷ []) v,
  command_words-word dest ("" ∷ []) w,
)

module _ (host : Host) (m : Mounts host) where
  open m use {table, hits, canonical}

  mount_new :
      (device dest fs : String) (s : host.State)
      → IsWord device
      → IsWord dest
      → IsWord fs
      → matching (hits device) (table s) ≡ []
      → Branches
          (λ (_ : Unit {0}) (t : host.State).
            Added (Named canonical device) dest (table s) (table t))
          (λ (t : host.State). table t ≡ table s)
          (mount host device dest ("" ∷ []) fs s)
  unfolding mount mount_command
  mount_new device dest fs s v w u h =
      let Q = λ (_ : Unit {0}) (t : host.State).
        Added (Named canonical device) dest (table s) (table t) in
      let E = λ (t : host.State). table t ≡ table s in
      let run = λ (dev : Result String).
        run_output host (mount_command dev device dest ("" ∷ []) fs) >>= λ _.
        pure {S = host.State} tt in
      bind-Branches (λ (_ : Unit {0}) t. E t) E Q (make_dir host dest)
        (λ _. attempt (device_from_mount host device) >>= run) s (make_dir-Branches host m dest s)
        (λ _ t k.
          attempt-Branches (λ (_ : String) (_ : host.State). ⊥) E Q E
            (device_from_mount host device) run t (missing t k) (λ _ _ no. absurd no)
            (λ _ x j.
              adds host m (Named canonical device) dest (table s)
                ("mount" ∷ "-t" ∷ fs ∷ device ∷ dest ∷ "" ∷ []) ("-t" ∷ fs ∷ device ∷ dest ∷ []) x
                (new_words fs device dest u v w) j (m.mounts_new fs device dest x u v w)))
    where
      missing :
          (t : host.State)
          → table t ≡ table s
          → Branches
              (λ (_ : String) (_ : host.State). ⊥)
              (λ (x : host.State). table x ≡ table s)
              (device_from_mount host device t)
      missing t k =
          subst
            (λ (old : List MountEntry).
              Branches (λ (_ : String) (_ : host.State). ⊥) (λ (x : host.State). table x ≡ old)
                (device_from_mount host device t))
            k (device_missing host m device t v (rw k h))

  -- Mounting a volume's device that has no entry, with the one blank option that the driver splits off the
  -- empty text of no options: either the table has one more, or it is as it was.
  pub mount_volume-Added :
      (vol : Volume) (dest fs : String) (s : host.State)
      → IsWord vol.device_path
      → IsWord dest
      → IsWord fs
      → matching (hits vol.device_path) (table s) ≡ []
      → Branches
          (λ v t.
            (v ≡ record vol { mount_path = dest })
            × Added (Named canonical vol.device_path) dest (table s) (table t))
          (λ t. table t ≡ table s)
          (mount_volume host vol dest ("" ∷ []) fs s)
  unfolding mount_volume
  mount_volume-Added vol dest fs s v w u h =
      let R = λ (_ : Unit {0}) (t : host.State).
        Added (Named canonical vol.device_path) dest (table s) (table t) in
      let new = record vol { mount_path = dest } in
      let Q = λ (v : Volume) (t : host.State).
        (v ≡ new) × Added (Named canonical vol.device_path) dest (table s) (table t) in
      rw v.1 (
        bind-Branches R (λ (t : host.State). table t ≡ table s) Q
          (mount host vol.device_path dest ("" ∷ []) fs) (λ _. pure new) s
          (mount_new vol.device_path dest fs s v w u h) (λ _ t a. (refl, a)))

  -- The entry of a volume that was mounted at a path.
  pub staged_entry :
      (vol v : Volume) (stage fs : String) (s t : host.State)
      → IsWord vol.device_path
      → IsWord stage
      → IsWord fs
      → matching (hits vol.device_path) (table s) ≡ []
      → matching (hits stage) (table s) ≡ []
      → ((e : MountEntry) → e.path ≡ stage → hits stage e ≡ true)
      → mount_volume host vol stage ("" ∷ []) fs s ≡ (ok v, t)
      → (e : MountEntry) × (e.path ≡ stage)
        × Named canonical vol.device_path e.device
        × (v ≡ record vol { mount_path = stage })
        × (table t ≡ table s ++ e ∷ [])
        × (matching (hits stage) (table t) ≡ e ∷ [])
  staged_entry vol v stage fs s t a b d h k found p =
      let all = mount_volume-Added vol stage fs s a b d h in
      let (same, (e, device, at_stage, added)) = rw p at all in
      (
        e,
        at_stage,
        device,
        same,
        added,
        rw added (matching-append (hits stage) (table s) e k (found e at_stage)),
      )

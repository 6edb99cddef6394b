-- ===== src/Client/Mount/Table/Unmounted.antt =====
-- Unmounting, as a change of the table of mounts.
use datera_csi.Base.{
  String, ◌≡◌, ◌∙◌, refl, ap, true, false, Option, none, some, List, [], ◌∷◌, ◌++◌, str_eq, eq_refl,
}
use datera_csi.Base.Text.{trim_space}
use datera_csi.Base.Text.Fields.Words.{IsWord}
use datera_csi.Base.Go.{Error, Result, ok, err, panic, attempt, ◌>>=◌}
use datera_csi.Client.Volume.{Volume}
use datera_csi.Client.Host.{Host, command_words, run_cmd, returned}
use datera_csi.Client.Mount.{bind_mount, unmount, unbind_mount, drop_bind}
use datera_csi.Client.Mount.Table.{MountEntry, matching, Leaves, Mounts, take_off, has_path}
use datera_csi.Client.Mount.Table.Commands.{command_words-word}
use datera_csi.Client.Mount.Table.Bound.{bind_mount-Added}

has_path-append :
    (path : String) (es : List MountEntry) (e : MountEntry)
    → e.path ≡ path
    → has_path path (es ++ e ∷ []) ≡ true
unfolding has_path
has_path-append path [] e h = rw (h, eq_refl path)
has_path-append path (x ∷ es) e h = rw (has_path-append path es e h)

pub take_off-append :
    (path : String) (es : List MountEntry) (e : MountEntry)
    → e.path ≡ path
    → take_off path (es ++ e ∷ []) ≡ es
unfolding take_off
take_off-append path [] e h = unfold has_path in rw (h, eq_refl path)
take_off-append path (x ∷ es) e h = rw (has_path-append path es e h, take_off-append path es e h)

umount_words :
    (path : String) → IsWord path → command_words ("umount" ∷ path ∷ []) ≡ "umount" ∷ path ∷ []
unfolding command_words trim_space
umount_words path w = rw (command_words-word path [] w)

module _ (host : Host) (m : Mounts host) where
  open m use {table, hits}

  ran_unmount :
      (path : String) (s t : host.State) (failed : Option Error)
      → Leaves failed (table t ≡ take_off path (table s)) (table t ≡ table s)
      → let last = host.remove_all path t in
        Leaves failed
          (table last.1 ≡ take_off path (table s))
          ((table t ≡ table s) × (table last.1 ≡ table s))
  ran_unmount path s t none h = m.removes path t ∙ h
  ran_unmount path s t (some e) h = (h, m.removes path t ∙ h)

  -- Unmounting a path removes it and all below it, whatever umount answers, and its outcome is that of
  -- the removal. If umount succeeds, the entry that was mounted last at the path is off the table. If it
  -- fails, the table is as it was when the removal starts and after it: what is removed is then still
  -- mounted. The path is a word.
  pub unmount-removes :
      (path : String) (s : host.State)
      → IsWord path
      → let run = host.exec "umount" (path ∷ []) s in
        let last = host.remove_all path run.1 in
        (unmount host path s ≡ returned last.0 last.1)
        × Leaves run.0.1
            (table last.1 ≡ take_off path (table s))
            ((table run.1 ≡ table s) × (table last.1 ≡ table s))
  unfolding unmount run_cmd
  unmount-removes path s w =
      let run = host.exec "umount" (path ∷ []) s in
      (rw (run_cmd, umount_words path w), ran_unmount path s run.1 run.0.1 (m.unmounts path s w))

  -- The path stays in a table that a failing umount leaves.
  stays :
      (path : String) (s t : host.State) (failed : Option Error) (e : Error)
      → failed ≡ some e
      → has_path path (table s) ≡ true
      → Leaves failed (table t ≡ take_off path (table s)) (table t ≡ table s)
      → has_path path (table t) ≡ true
  stays path s t none e f h k = cc f
  stays path s t (some x) e f h k = rw k h

  -- Where a path is mounted and umount fails, unmounting the path goes on all the same: it removes the
  -- path and all below it from a machine on which the path is still mounted. Its outcome is that of the
  -- removal, so that it is no error where the removal succeeds. The path is a word.
  pub unmount-busy :
      (path : String) (s : host.State) (e : Error)
      → IsWord path
      → has_path path (table s) ≡ true
      → (host.exec "umount" (path ∷ []) s).0.1 ≡ some e
      → (t : host.State) × (has_path path (table t) ≡ true)
        × (unmount host path s ≡ returned (host.remove_all path t).0 (host.remove_all path t).1)
  unmount-busy path s e w h f =
      let run = host.exec "umount" (path ∷ []) s in
      (run.1, stays path s run.1 run.0.1 e f h (m.unmounts path s w), (unmount-removes path s w).0)

  returned_state : (failed : Option Error) (s : host.State) → (returned failed s).1 ≡ s
  returned_state none s = refl
  returned_state (some e) s = refl

  dropped :
      (v : Volume) (path : String) (known : Option (List String)) (r : Result (Unit {0}))
      (t : host.State)
      → known ≡ v.bind_mount_paths
      → ((attempt (λ (s : host.State). (r, t)) >>= drop_bind host v path) t).1 ≡ t
  unfolding drop_bind
  dropped v path none (ok _) t h = rw (← h)
  dropped v path (some paths) (ok _) t h = rw (← h)
  dropped v path known (err e) t h = refl
  dropped v path known panic t h = refl

  pub off_table :
      (path : String) (s : host.State)
      → IsWord path
      → (host.exec "umount" (path ∷ []) s).0.1 ≡ none
      → table (unmount host path s).1 ≡ take_off path (table s)
  off_table path s w h =
      let run = host.exec "umount" (path ∷ []) s in
      let last = host.remove_all path run.1 in
      let (e, k) = unmount-removes path s w in rw (e, returned_state last.0 last.1) (rw h at k)

  -- A volume bound to a path and then unbound: if umount succeeds, the table of mounts is what it was
  -- before, as long as the bind mount itself succeeded, the volume has a device path, the staging path,
  -- the target and the device that grep finds are words, and grep finds a line for the staging path.
  pub unbind_mount-restores :
      (vol v : Volume) (dest fs : String) (e : MountEntry) (es : List MountEntry) (s t : host.State)
      → str_eq vol.device_path "" ≡ false
      → IsWord vol.mount_path
      → IsWord dest
      → IsWord e.device
      → matching (hits vol.mount_path) (table s) ≡ e ∷ es
      → bind_mount host vol dest fs s ≡ (ok v, t)
      → (host.exec "umount" (dest ∷ []) t).0.1 ≡ none
      → table (unbind_mount host v dest t).1 ≡ table s
  unfolding unbind_mount
  unbind_mount-restores vol v dest fs e es s t h w d x f b u =
      let all = bind_mount-Added host m vol dest fs e es s h w d x f in
      let (_, (entry, _, at_dest, added)) = rw b at all in
      ap table
        (dropped v dest v.bind_mount_paths (unmount host dest t).0 (unmount host dest t).1 refl)
      ∙ off_table dest t d u
      ∙ ap (take_off dest) added
      ∙ take_off-append dest (table s) entry at_dest

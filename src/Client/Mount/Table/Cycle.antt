-- ===== src/Client/Mount/Table/Cycle.antt =====
-- The mounts of a volume from its staging to its unstaging.
use datera_csi.Base.{String, ◌≡◌, ◌∙◌, refl, ap, true, none, [], ◌∷◌}
use datera_csi.Base.Text.Fields.Words.{IsWord}
use datera_csi.Base.Go.{Result, ok, err, panic, pure, ◌>>=◌}
use datera_csi.Client.Volume.{Volume}
use datera_csi.Client.Host.{Host}
use datera_csi.Client.Mount.{mount_volume, bind_mount, unbind_mount, unmount, unmount_volume}
use datera_csi.Client.Mount.Table.{MountEntry, matching, Mounts, take_off}
use datera_csi.Client.Mount.Table.Unmounted.{unbind_mount-restores, off_table, take_off-append}
use datera_csi.Client.Mount.Table.Bound.{Named-IsWord}
use datera_csi.Client.Mount.Table.Staged.{staged_entry}

module _ (host : Host) (m : Mounts host) where
  open m use {table, hits}

  then_state :
      (v : Volume) (r : Result (Unit {0})) (t : host.State)
      → (((λ (s : host.State). (r, t)) >>= λ _. pure v) t).1 ≡ t
  then_state v (ok _) t = refl
  then_state v (err e) t = refl
  then_state v panic t = refl

  unmount_volume_state :
      (vol : Volume) (s : host.State)
      → IsWord vol.mount_path
      → (unmount_volume host vol s).1 ≡ (unmount host vol.mount_path s).1
  unfolding unmount_volume
  unmount_volume_state vol s w =
      let run = unmount host vol.mount_path s in
      rw w.1 (then_state (record vol { mount_path = "" }) run.0 run.1)

  -- A volume's device mounted at the staging path, bound to a target, unbound from it and unmounted
  -- again: the table of mounts is what it was before, if the two mounts and the two runs of umount
  -- succeed. The bind mount and its end take the volume that the step before left, and the last step any
  -- volume whose mount path is the staging path. The device is mounted with the one option "", which is
  -- what the driver splits off the empty text of no options. At the start grep finds no line for the device or the staging path, which are
  -- words like the target and the file system's name, and it finds an entry by its path.
  pub unmount_volume-restores :
      (vol v w last : Volume) (stage target fs kind : String) (s t u : host.State)
      → IsWord vol.device_path
      → IsWord stage
      → IsWord target
      → IsWord fs
      → matching (hits vol.device_path) (table s) ≡ []
      → matching (hits stage) (table s) ≡ []
      → ((e : MountEntry) → e.path ≡ stage → hits stage e ≡ true)
      → mount_volume host vol stage ("" ∷ []) fs s ≡ (ok v, t)
      → bind_mount host v target kind t ≡ (ok w, u)
      → (host.exec "umount" (target ∷ []) u).0.1 ≡ none
      → last.mount_path ≡ stage
      → (host.exec "umount" (stage ∷ []) (unbind_mount host w target u).1).0.1 ≡ none
      → table (unmount_volume host last (unbind_mount host w target u).1).1 ≡ table s
  unmount_volume-restores vol v w last stage target fs kind s t u a b c d h k found p q x l y =
      let (e, path, device, same, added, hit) =
        staged_entry host m vol v stage fs s t a b d h k found p in
      let after = (unbind_mount host w target u).1 in
      let back : table after ≡ table t =
        unbind_mount-restores host m v w target kind e [] t u (rw same a.1) (rw same b) c
          (Named-IsWord host m vol.device_path e.device a device) (rw same hit) q x in
      ap table (unmount_volume_state last after (rw l b))
      ∙ ap (λ (path : String). table (unmount host path after).1) l
      ∙ off_table host m stage after b y
      ∙ ap (take_off stage) (back ∙ added)
      ∙ take_off-append stage (table s) e path

-- ===== src/Client/Mount.antt =====
-- Mounting and unmounting, pkg/client/mount.go.
pub mod Binds
pub mod Targets
pub mod Table
pub mod Devices
use datera_csi.Base.{
  String, ◌<>◌, Bool, true, false, Option, none, some, List, [], ◌∷◌, ◌++◌, str_eq, ◌||◌,
  if◌then◌else◌,
}
use datera_csi.Base.Text.{trim_space}
use datera_csi.Base.Text.Fields.{fields}
use datera_csi.Base.Go.{
  Error, plain, Result, ok, err, panic, Action, pure, throw, crash, deref, attempt, fail_if, ◌>>=◌,
  ◌>>◌,
}
use datera_csi.Client.Volume.{Volume, add_to_set}
use datera_csi.Client.Host.{Host, run_cmd, run_output, returned}

-- `components[0]`
first_field : List String → Result String
first_field [] = panic
first_field (device ∷ _) = ok device

-- `for _, opt := range options { if opt == "--bind" { bind = true } }`
unfoldable pub has_bind : List String → Bool
has_bind [] = false
has_bind (o ∷ os) = let rest = has_bind os in str_eq o "--bind" || rest

-- The options without the first "--bind".
unfoldable pub remove_bind : List String → List String
remove_bind [] = []
remove_bind (o ∷ os) = let rest = remove_bind os in if str_eq o "--bind" then os else o ∷ rest

-- The command that `mount` runs, for the device that was found, or for none.
unfoldable pub mount_command : Result String → String → String → List String → String → List String
unfolding has_bind remove_bind
mount_command (ok dev) source dest options fs = "mount" ∷ dev ∷ dest ∷ remove_bind options
mount_command _ source dest options fs =
    if has_bind options
    then "mount" ∷ source ∷ dest ∷ options
    else "mount" ∷ "-t" ∷ fs ∷ source ∷ dest ∷ options

not_logged_in : Volume → Error
not_logged_in vol =
    plain ("No device path found for volume " <> (vol.name <> ".  Is the volume logged in?"))

-- `v.BindMountPaths.Add(dest)`, or a new set if there is none.
unfoldable pub bound : String → Option (List String) → List String
bound dest none = dest ∷ []
bound dest (some paths) = add_to_set dest paths

-- `Delete` of a set of strings.
unfoldable pub delete_from_set : String → List String → List String
delete_from_set x [] = []
delete_from_set x (y ∷ ys) =
    let rest = delete_from_set x ys in if str_eq x y then rest else y ∷ rest

module _ (host : Host) where
  unfoldable pub readlink : String → Action host.State String
  readlink device = run_output host ("readlink" ∷ "-f" ∷ device ∷ [])

  unfoldable pub device_from_mount : String → Action host.State String
  unfolding first_field readlink
  device_from_mount file = do
    out ← run_output host ("sh" ∷ "-c" ∷ ("grep '" <> (file <> "' /proc/mounts")) ∷ [])
    device ← (λ s. (first_field (fields out), s))
    dev ← attempt (readlink device)
    pure (elim dev [ ok link ↦ trim_space link | _ ↦ device ])

  -- `if _, err := os.Stat(dest); os.IsNotExist(err) { err = os.MkdirAll(dest, os.ModePerm) ... }`
  pub make_dir : String → Action host.State (Unit {0})
  make_dir dest = do
    missing ← (λ s. let (b, t) = host.is_not_exist dest s in (ok b, t))
    if missing
        then (do failed ← (λ s. let (e, t) = host.mkdir_all dest s in (ok e, t)); returned failed)
        else pure tt

  unfoldable pub mount : String → String → List String → String → Action host.State (Unit {0})
  unfolding make_dir
  mount source dest options fs = do
    make_dir dest
    dev ← attempt (device_from_mount source)
    run_output host (mount_command dev source dest options fs)
    pure tt

  -- The error of the command is logged; that of the removal counts.
  unfoldable pub unmount : String → Action host.State (Unit {0})
  unmount path = do
    run_cmd host ("umount" ∷ path ∷ [])
    failed ← (λ s. let (e, t) = host.remove_all path s in (ok e, t))
    returned failed

  -- `(*Volume).Mount`, and the others of a volume, each with the volume as it is afterwards.
  unfoldable pub mount_volume : Volume → String → List String → String → Action host.State Volume
  unfolding not_logged_in
  mount_volume vol dest options fs = do
    fail_if (str_eq vol.device_path "") (not_logged_in vol)
    mount vol.device_path dest options fs
    pure (record vol { mount_path = dest })

  -- `(*Volume).BindMount`
  unfoldable pub bind_mount : Volume → String → String → Action host.State Volume
  unfolding not_logged_in
  bind_mount vol dest fs = do
    fail_if (str_eq vol.device_path "") (not_logged_in vol)
    fail_if (str_eq vol.mount_path "") (
        plain (
          "Mount path doesn't exist for volume "
          <> (vol.name <> ", cannot bind-mount an unmounted volume")))
    mount vol.mount_path dest ("--bind" ∷ []) fs
    pure (record vol { bind_mount_paths = some (bound dest vol.bind_mount_paths) })

  drop_bind : Volume → String → Result (Unit {0}) → Action host.State Volume
  drop_bind vol path (ok _) = do
    paths ← deref vol.bind_mount_paths
    pure (record vol { bind_mount_paths = some (delete_from_set path paths) })
  drop_bind vol path _ = pure vol

  -- `(*Volume).UnBindMount`: an error of the removal is logged, and the path stays in the set.
  unfoldable pub unbind_mount : Volume → String → Action host.State Volume
  unfolding drop_bind
  unbind_mount vol path = do done ← attempt (unmount path); drop_bind vol path done

  -- `(*Volume).Unmount`
  unfoldable pub unmount_volume : Volume → Action host.State Volume
  unmount_volume vol = do
    fail_if (str_eq vol.mount_path "") (plain "Volume is already unmounted")
    unmount vol.mount_path
    pure (record vol { mount_path = "" })

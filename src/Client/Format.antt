-- ===== src/Client/Format.antt =====
-- `Format` of pkg/client/mount.go, and the search for a file system on a device.
pub mod Tries
use datera_csi.Base.{
  String, ◌<>◌, ℕ, zero, suc, Bool, true, false, not, ◌&&◌, Option, none, some, List, [], ◌∷◌, ◌++◌,
  str_eq, if◌then◌else◌,
}
use datera_csi.Base.Int.{ℤ, pos, negsuc}
use datera_csi.Base.Text.{contains}
use datera_csi.Base.Go.{
  Error, plain, Result, ok, err, panic, Action, pure, throw, crash, lift, attempt, ◌>>=◌, ◌>>◌,
}
use datera_csi.Client.Volume.{Volume}
use datera_csi.Client.Host.{Host, run_cmd, run_output, returned}

-- The loop of `format` with `timeout` at the given number less one: it ends below 0.
abbrev pub tries : ℤ → ℕ
tries (pos n) = suc n
tries (negsuc n) = 0

-- `out != "" && strings.Contains(out, "will not make a filesystem here")`
abbrev pub is_mounted : String → Bool
is_mounted out = not (str_eq out "") && contains out "will not make a filesystem here"

abbrev pub mkfs : String → String → List String → List String
mkfs device fs_type fs_args = (("mkfs." <> fs_type) ∷ fs_args) ++ device ∷ []

module _ (host : Host) where
  no_devices : Action host.State String
  no_devices = do
    run_output host ("lsblk" ∷ "-f" ∷ [])
    throw (plain "No block devices returned from lsblk")

  -- `data.BlockDevices[0].FsType`: nil pointers panic.
  first_fs : Option (List (Option String)) → Action host.State String
  unfolding no_devices
  first_fs none = crash
  first_fs (some []) = no_devices
  first_fs (some (none ∷ _)) = crash
  first_fs (some (some fs ∷ _)) =
      if str_eq fs "" then throw (plain "No filesystem found") else pure fs

  unfoldable pub find_fs : String → Action host.State String
  unfolding first_fs
  find_fs device = do
    out ← run_output host ("lsblk" ∷ "-f" ∷ device ∷ "--json" ∷ [])
    devices ← lift (host.lsblk out)
    first_fs devices

  unfoldable pub find_mnt : String → Action host.State String
  find_mnt device = run_output host ("grep" ∷ ("'" <> (device <> "'")) ∷ "/proc/mounts" ∷ [])

  -- `format`. A round that fails is followed by another, unless the device is mounted.
  unfoldable pub format : ℕ → List String → Action host.State (Unit {0})
  format zero cmd = do r ← run_cmd host cmd; returned r.1
  format (suc n) cmd =
      let rest = format n cmd in
      do
        r ← run_cmd host cmd
        elim r.1 [ none ↦ pure tt | some e ↦ if is_mounted r.0 then throw e else rest ]

  make_fs : Volume → String → List String → ℤ → Action host.State Volume
  make_fs vol fs_type fs_args timeout = do
    format (tries timeout) (mkfs vol.device_path fs_type fs_args)
    pure (record vol { fs_type = fs_type; fs_args = fs_args })

  unless_mounted : Volume → String → List String → ℤ → Result String → Action host.State Volume
  unfolding make_fs
  unless_mounted vol fs_type fs_args timeout (ok _) = pure (record vol { formatted = true })
  unless_mounted vol fs_type fs_args timeout _ = make_fs vol fs_type fs_args timeout

  unless_found : Volume → String → List String → ℤ → Result String → Action host.State Volume
  unfolding unless_mounted
  unless_found vol fs_type fs_args timeout (ok fs) =
      pure (record vol { formatted = true; fs_type = fs })
  unless_found vol fs_type fs_args timeout _ = do
    mnt ← attempt (find_mnt vol.device_path)
    unless_mounted vol fs_type fs_args timeout mnt

  -- `(*Volume).Format`, with the volume as it is afterwards.
  unfoldable pub format_volume : Volume → String → List String → ℤ → Action host.State Volume
  unfolding unless_found
  format_volume vol fs_type fs_args timeout =
      if vol.formatted
      then pure vol
      else do fs ← attempt (find_fs vol.device_path); unless_found vol fs_type fs_args timeout fs

-- ===== src/Client/Mount/Devices.antt =====
-- `getMajorMinor`, `devLink` and `isDevice` of pkg/client/mount.go, for block volumes. Nothing calls
-- them.
use datera_csi.Base.{String, ℕ, Bool, not, ◌&&◌, Option, [], ◌∷◌}
use datera_csi.Base.Int.{pos}
use datera_csi.Base.Num.{format_int}
use datera_csi.Base.Text.{starts_with}
use datera_csi.Base.Go.{Result, Action, pure, deref, ◌>>=◌, ◌>>◌}
use datera_csi.Client.Host.{Host, run_output}

-- `unix.Stat` of a device, its two parts `unix.Major` and `unix.Minor`, and `os.Stat` of a file: whether
-- it is a directory, and nil where it is not there.
pub record Devices (host : Host) : Type 0 where
  pub rdev : String → Action host.State ℕ
  pub major : ℕ → ℕ
  pub minor : ℕ → ℕ
  pub is_dir : String → host.State → Option Bool × host.State

module _ (host : Host) (devices : Devices host) where
  unfoldable pub get_major_minor : String → Action host.State (ℕ × ℕ)
  get_major_minor device = do dev ← devices.rdev device; pure (devices.major dev, devices.minor dev)

  unfoldable pub dev_link : String → String → Action host.State (Unit {0})
  unfolding get_major_minor
  dev_link device dest = do
    (major, minor) ← get_major_minor device
    run_output host ("mknod" ∷ dest ∷ "b" ∷ format_int (pos major) ∷ format_int (pos minor) ∷ [])
    pure tt

  -- A file that is not there is read through nil.
  unfoldable pub is_device : String → Action host.State Bool
  is_device file = do
    f ← (λ s. let (d, t) = devices.is_dir file s in (Result.ok d, t))
    dir ← deref f
    pure (not dir && starts_with file "/dev/")

-- ===== src/Client/ExpandFs.antt =====
-- Growing a file system: `ExpandFs`, `checkDeviceSize` and `expandFs` of pkg/client/mount.go.
pub mod Sizes
use datera_csi.Base.{
  String, ◌<>◌, ℕ, zero, suc, ◌-◌, ◌^◌, Option, List, [], ◌∷◌, str_eq, if◌then◌else◌,
}
use datera_csi.Base.Int.{ℤ, pos, negsuc, ◌*ℤ◌, wrap64, eqb_ℤ, gib}
use datera_csi.Base.Num.{NumError, syntax, range, Parsed, value, refused, parse_int}
use datera_csi.Base.Text.{starts_with}
use datera_csi.Base.Text.Fields.{trim_newline}
use datera_csi.Base.Go.{Error, plain, Action, pure, throw, ◌>>=◌, ◌>>◌}
use datera_csi.Client.Host.{Host, run_cmd, run_output}
use datera_csi.Client.Mount.{device_from_mount}

-- What `size, err := strconv.ParseInt(out, 10, 0)` leaves in `size`: an error is only logged, and
-- the value is 0 for a text that is no number, and the nearest int64 for one that does not fit.
unfoldable pub read_size : String → ℤ
read_size out = elim (parse_int out) [
  | value n ↦ n
  | refused syntax ↦ pos 0
  | refused range ↦ if starts_with out "-" then negsuc (2 ^ 63 - 1) else pos (2 ^ 63 - 1)
]

-- `expectedSize = int64(expectedSize * units.GiB)`, in every round.
unfoldable pub in_bytes : ℤ → ℤ
in_bytes size = wrap64 (size *ℤ pos gib)

abbrev timed_out : String → Error
timed_out device =
    plain ("Blockdevice " <> (device <> " did not resolve to expected size before timeout reached"))

module _ (host : Host) where
  -- One round: the sessions are scanned again, and the size of the device is read. The errors of
  -- both commands are only logged.
  unfoldable pub device_size : String → Action host.State ℤ
  device_size device = do
    run_cmd host ("iscsiadm" ∷ "-m" ∷ "session" ∷ "-R" ∷ [])
    out ← run_cmd host ("blockdev" ∷ "--getsize64" ∷ device ∷ [])
    pure (read_size (trim_newline out.0))

  -- The loop of `checkDeviceSize` with `timeout` at the given number.
  unfoldable pub check_rounds : ℕ → String → ℤ → Action host.State (Unit {0})
  check_rounds zero device expected = do
    size ← device_size device
    if eqb_ℤ size (in_bytes expected) then pure tt else throw (timed_out device)
  check_rounds (suc n) device expected =
      let rest = check_rounds n device (in_bytes expected) in
      do size ← device_size device; if eqb_ℤ size (in_bytes expected) then pure tt else rest

  unfoldable pub check_device_size : String → ℤ → Action host.State (Unit {0})
  check_device_size = check_rounds 60

  -- `expandFs`: for another file system than the two the command is empty.
  unfoldable pub expand_fs : String → String → Action host.State (Unit {0})
  expand_fs path fs = do
    run_output host (
        if str_eq fs "ext4"
        then "resize2fs" ∷ path ∷ []
        else if str_eq fs "xfs"
        then "xfs_growfs" ∷ path ∷ []
        else [])
    pure tt

  -- `(*Volume).ExpandFs`
  unfoldable pub expand_volume_fs : String → String → ℤ → Action host.State (Unit {0})
  expand_volume_fs path fs size = do
    device ← device_from_mount host path
    check_device_size device size
    expand_fs device fs

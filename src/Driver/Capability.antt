-- ===== src/Driver/Capability.antt =====
-- `RegisterVolumeCapability` of pkg/driver/driver.go.
pub mod Laws
use datera_csi.Base.{String, ◌<>◌, Bool, Option, none, some, List, ◌||◌, str_eq, if◌then◌else◌}
use datera_csi.Base.Text.{join}
use datera_csi.Base.Dict.{Dict, insert}
use datera_csi.Base.Go.{Result, ok, err, panic, plain}

-- The access type: block, mount with a file system and flags, or one that is not set.
pub data Access : Type 0 where
  block unset : Access
  mount : String → List String → Access

-- `csi.VolumeCapability`; the mode is given by the name that it prints as.
pub record Capability : Type 0 where
  pub access : Access
  pub mode : Option String

unfoldable pub is_supported_fs : String → Bool
is_supported_fs fs = str_eq fs "ext4" || str_eq fs "xfs"

abbrev mode_text : Option String → String
mode_text none = ""
mode_text (some mode) = mode

-- The entries for a mount with a file system: an empty name stands for ext4. The message ends with the
-- keys of a Go map, in one of their orders.
record_mount : String → List String → String → Dict String → Result (Dict String)
unfolding is_supported_fs
record_mount fs flags mode md =
    let chosen = if str_eq fs "" then "ext4" else fs in
    if is_supported_fs chosen
    then ok (
        insert "access_mode" mode (
          insert "m_flags" (join "" flags)
            (insert "fs_type" chosen (insert "access_type" "mount" md))))
    else err
        (plain ("Unsupported filesystem type: " <> (chosen <> ", supported types :re [ext4 xfs]")))

register_access : Access → String → Dict String → Result (Dict String)
unfolding record_mount
register_access block mode md = ok (insert "access_mode" mode (insert "access_type" "block" md))
register_access (mount fs flags) mode md = record_mount fs flags mode md
register_access unset mode md =
    err (plain "Unsupported VolumeCapability: .  Supported capabilities are Mount and Block")

unfoldable pub register_volume_capability : Option Capability → Dict String → Result (Dict String)
unfolding register_access
register_volume_capability none md = err (plain "VolumeCapability is nil")
register_volume_capability (some vc) md = register_access vc.access (mode_text vc.mode) md

-- `for _, vc := range vcs`: the first error ends the loop.
unfoldable pub register_all : List (Option Capability) → Dict String → Result (Dict String)
unfolding register_volume_capability
register_all List.[] md = ok md
register_all (List.◌∷◌ vc vcs) md = elim (register_volume_capability vc md) [
  | ok new ↦ register_all vcs new
  | err e ↦ err e
  | panic ↦ panic
]

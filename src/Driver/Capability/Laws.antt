-- ===== src/Driver/Capability/Laws.antt =====
-- What `RegisterVolumeCapability` leaves in the metadata.
use datera_csi.Base.{
  String, eq_iff, refl, ◌≡◌, Option, none, some, Bool, true, false, Bool-cases, inl, inr, str_eq,
  arith, if◌then◌else◌,
}
use datera_csi.Base.Text.{join}
use datera_csi.Base.Dict.{Dict, lookup, lookup-insert}
use datera_csi.Base.Go.{Result, ok}
use datera_csi.Driver.Capability.{
  Access, block, unset, mount, is_supported_fs, mode_text, register_volume_capability, record_mount,
}

eq_sym : (s t : String) → str_eq s t ≡ str_eq t s
eq_sym s t = ground (arith, eq_iff s t, eq_iff t s)

-- The file system that a mount asks for.
unfoldable pub chosen_fs : String → String
chosen_fs fs = if str_eq fs "" then "ext4" else fs

-- The entry of a key after an access type of a capability was registered with a mode.
unfoldable pub entry_for : Access → String → String → Option String → Option String
entry_for (mount fs flags) mode key before =
    if str_eq key "access_mode"
    then some mode
    else if str_eq key "m_flags"
    then some (join "" flags)
    else if str_eq key "fs_type"
    then some (chosen_fs fs)
    else if str_eq key "access_type"
    then some "mount"
    else before
entry_for _ mode key before =
    if str_eq key "access_mode"
    then some mode
    else if str_eq key "access_type"
    then some "block"
    else before

-- Whether an access type is accepted: block, and a mount with a supported file system or none.
unfoldable pub accepted : Access → Bool
accepted block = true
accepted (mount fs flags) = is_supported_fs (chosen_fs fs)
accepted unset = false

-- The entry of a key in what a call returned; none at all if it failed.
pub entry_in : String → Result (Dict String) → Option (Option String)
entry_in key (ok md) = some (lookup key md)
entry_in key _ = none

-- A capability is accepted exactly if its access type is, and then each entry of the metadata is what
-- the capability says of its key, or as it was.
pub entry-register_volume_capability :
    (access : Access) (mode : Option String) (md : Dict String) (key : String)
    → entry_in key (register_volume_capability (some (record { access = access; mode = mode })) md)
      ≡ (if accepted access
          then some (entry_for access (mode_text mode) key (lookup key md))
          else none)
unfolding register_volume_capability accepted entry_for chosen_fs entry_in
entry-register_volume_capability block mode md key =
    simp lookup-insert (ground (arith, eq_sym "access_mode" key, eq_sym "access_type" key))
entry-register_volume_capability unset mode md key = refl
entry-register_volume_capability (mount fs flags) mode md key =
    elim (Bool-cases (is_supported_fs (if str_eq fs "" then "ext4" else fs))) [
      | inl e ↦
          rw (entry_in, record_mount, e)
            (simp lookup-insert (
              ground (
                arith,
                eq_sym "access_mode" key,
                eq_sym "access_type" key,
                eq_sym "m_flags" key,
                eq_sym "fs_type" key,
              )))
      | inr e ↦ rw (entry_in, record_mount, e) refl
    ]

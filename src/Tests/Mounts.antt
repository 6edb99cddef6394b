-- ===== src/Tests/Mounts.antt =====
-- A machine that keeps a table of mounts, and the theorems on it.
use datera_csi.Base.{
  String, ◌<>◌, ◌≡◌, inl, refl, Bool, true, false, Option, none, some, List, [], ◌∷◌, ◌++◌, str_eq,
  if◌then◌else◌, eq_refl, arith,
}
use datera_csi.Base.Text.{starts_with}
use datera_csi.Base.Text.Fields.Words.{IsWord}
use datera_csi.Base.Go.{ok, plain}
use datera_csi.Base.Go.Branches.{Branches}
use datera_csi.Client.Volume.{Volume}
use datera_csi.Client.Host.{Host, returned}
use datera_csi.Client.Mount.{bind_mount, unmount, unmount_volume, unbind_mount, bound}
use datera_csi.Client.Mount.Table.{
  MountEntry, matching, grepped, Mounts, Named, Added, has_path, take_off,
}
use datera_csi.Client.Mount.Table.Bound.{bind_mount-Added}
use datera_csi.Client.Mount.Table.Unmounted.{unmount-busy}
use datera_csi.Client.Mount.Table.Cycle.{unmount_volume-restores}
use datera_csi.Tests.Machine.{machine, staged}

abbrev second_word : List String → String
second_word (x ∷ y ∷ _) = y
second_word _ = ""

abbrev third_word : List String → String
third_word (x ∷ y ∷ z ∷ _) = z
third_word _ = ""

abbrev fourth_word : List String → String
fourth_word (x ∷ y ∷ z ∷ w ∷ _) = w
fourth_word _ = ""

abbrev first_word : List String → String
first_word (x ∷ _) = x
first_word _ = ""

-- The lines that the command of a search finds: here, those of the very path.
abbrev found : String → MountEntry → Bool
found cmd e = str_eq cmd ("grep '" <> (e.path <> "' /proc/mounts"))

abbrev at : String → String → MountEntry
at device path = record { device = device; path = path; others = "ext4 rw 0 0" }

abbrev tabled : Host
tabled = record machine {
  State = List MountEntry;
  exec = λ p args s.
      if str_eq p "sh"
      then (grepped (matching (found (second_word args)) s), s)
      else if str_eq p "readlink"
      then ((second_word args <> "\n", none), s)
      else if str_eq p "mount"
      then (
        ("", none),
        s
            ++ (if starts_with (first_word args) "-"
                then at (third_word args) (fourth_word args)
                else at (first_word args) (second_word args))
              ∷ [],
      )
      else if str_eq p "umount"
      then (("", none), take_off (first_word args) s)
      else (("", none), s);
  is_not_exist = λ path s. (false, s);
  mkdir_all = λ path s. (none, s);
  write_file = λ path text s. (none, s);
  remove_all = λ path s. (none, s);
  intn = λ n s. (1, s);
  initiator_file = λ s. (ok "InitiatorName=iqn.node\n", s);
  connect = λ c s. (("/dev/sda", none), s);
  disconnect = λ iqn ips s. (none, s);
}

abbrev tables : Mounts tabled
tables = record {
  table = λ s. s;
  hits = λ file. found ("grep '" <> (file <> "' /proc/mounts"));
  canonical = λ d. d;
  canonical-IsWord = λ d w. w;
  greps = λ file s w. (refl, refl);
  canonical_canonical = λ d. refl;
  links = λ d s w. (refl, refl);
  mounts = λ device path s v w. (at device path, inl refl, refl, rw v.0);
  mounts_new = λ kind device path s u v w. (at device path, inl refl, refl, refl);
  unmounts = λ path s w. refl;
  looks = λ path s. refl;
  makes = λ path s. refl;
  removes = λ path s. refl;
}

abbrev stage_entry : List MountEntry
stage_entry = at "/dev/sda" "/stage" ∷ []

IsWord-b : IsWord "/b"
IsWord-b = ground arith

IsWord-sda : IsWord "/dev/sda"
IsWord-sda = ground arith

IsWord-stage : IsWord "/stage"
IsWord-stage = ground arith

bind_mount-Added_example :
    Branches
      (λ v t.
        (v ≡ record staged { bind_mount_paths = some (bound "/b" (some ("/a" ∷ []))) })
        × Added (Named (λ d. d) "/dev/sda") "/b" stage_entry t)
      (λ t. t ≡ stage_entry)
      (bind_mount tabled staged "/b" "ext4" stage_entry)
unfolding matching
bind_mount-Added_example =
    bind_mount-Added tabled tables staged "/b" "ext4" (at "/dev/sda" "/stage") [] stage_entry refl
      IsWord-stage IsWord-b IsWord-sda refl

-- The same machine, where each path is in use.
abbrev in_use : Host
in_use = record tabled {
  exec = λ p args s.
      if str_eq p "umount" then (("", some (plain "target is busy")), s) else tabled.exec p args s;
}

abbrev kept_tables : Mounts in_use
kept_tables = record {
  table = λ s. s;
  hits = tables.hits;
  canonical = λ d. d;
  canonical-IsWord = λ d w. w;
  canonical_canonical = λ d. refl;
  greps = tables.greps;
  links = tables.links;
  mounts = tables.mounts;
  mounts_new = tables.mounts_new;
  unmounts = λ path s w. refl;
  looks = tables.looks;
  makes = tables.makes;
  removes = tables.removes;
}

unmount-busy_example :
    (t : List MountEntry) × (has_path "/stage" t ≡ true)
    × (unmount in_use "/stage" stage_entry ≡ returned none t)
unfolding has_path
unmount-busy_example =
    unmount-busy in_use kept_tables "/stage" stage_entry (plain "target is busy") IsWord-stage refl
      refl

IsWord-ext4 : IsWord "ext4"
IsWord-ext4 = ground arith

abbrev fresh : Volume
fresh = record staged { mount_path = ""; bind_mount_paths = none }

abbrev on_stage : Volume
on_stage = record fresh { mount_path = "/stage" }

abbrev on_both : List MountEntry
on_both = at "/dev/sda" "/stage" ∷ at "/dev/sda" "/b" ∷ []

unmount_volume-restores_example :
    (unmount_volume tabled on_stage
      (unbind_mount tabled
        (record on_stage { bind_mount_paths = some ("/b" ∷ []) })
        "/b"
        on_both).1).1
    ≡ []
unfolding matching bind_mount bound datera_csi.Client.Mount.mount
    datera_csi.Client.Mount.device_from_mount datera_csi.Client.Host.run_output
    datera_csi.Client.Host.command_words datera_csi.Base.Text.trim_space
    datera_csi.Base.Text.Fields.fields datera_csi.Client.Mount.mount_command
    datera_csi.Client.Mount.mount_volume unbind_mount unmount datera_csi.Client.Host.run_cmd
    take_off
unmount_volume-restores_example =
    unmount_volume-restores tabled tables fresh on_stage
      (record on_stage { bind_mount_paths = some ("/b" ∷ []) }) on_stage "/stage" "/b" "ext4" "ext4"
      [] stage_entry on_both IsWord-sda IsWord-stage IsWord-b IsWord-ext4 refl refl
      (λ e p. rw p (eq_refl "grep '/stage' /proc/mounts")) refl refl refl refl refl

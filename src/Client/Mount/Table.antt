-- ===== src/Client/Mount/Table.antt =====
-- The machine's table of mounts, as the commands that pkg/client/mount.go runs show and change it.
pub mod Commands
pub mod Bound
pub mod Unmounted
pub mod Staged
pub mod Cycle
use datera_csi.Base.{
  String, ◌<>◌, ◌≡◌, ◌⊎◌, Bool, Option, none, some, List, [], ◌∷◌, ◌++◌, str_eq, if◌then◌else◌,
}
use datera_csi.Base.Text.Fields.Words.{IsWord}
use datera_csi.Base.Go.{Error, plain}
use datera_csi.Client.Host.{Host}

-- An entry of /proc/mounts: the device, the path, and what its line says then.
pub record MountEntry : Type 0 where
  pub device : String
  pub path : String
  pub others : String

abbrev pub line : MountEntry → String
line e = e.device <> (" " <> (e.path <> (" " <> (e.others <> "\n"))))

abbrev pub lines : List MountEntry → String
lines [] = ""
lines (e ∷ es) = line e <> lines es

-- The entries whose lines grep finds.
unfoldable pub matching : (MountEntry → Bool) → List MountEntry → List MountEntry
matching hit [] = []
matching hit (e ∷ es) = let rest = matching hit es in if hit e then e ∷ rest else rest

-- What grep writes: it fails if it finds no line.
abbrev pub grepped : List MountEntry → String × Option Error
grepped [] = ("", some (plain "exit status 1"))
grepped (e ∷ es) = (lines (e ∷ es), none)

-- Unmounting takes off the entry of the path that was mounted last.
unfoldable pub has_path : String → List MountEntry → Bool
has_path path [] = Bool.false
has_path path (e ∷ es) =
    let rest = has_path path es in if rest then Bool.true else str_eq e.path path

unfoldable pub take_off : String → List MountEntry → List MountEntry
unfolding has_path
take_off path [] = []
take_off path (e ∷ es) =
    let rest = take_off path es in
    if has_path path es then e ∷ rest else if str_eq e.path path then es else e ∷ es

-- A name of a device: the one that it was given, or its canonical one.
abbrev pub Named : (String → String) → String → String → Type 0
Named canonical device d = (d ≡ device) ⊎ (d ≡ canonical device)

-- The table after a mount: one more entry, of a device and the path.
abbrev pub Added : (String → Type 0) → String → List MountEntry → List MountEntry → Type 0
Added IsDevice path old new =
    (e : MountEntry) × IsDevice e.device × (e.path ≡ path) × (new ≡ old ++ e ∷ [])

-- What a command leaves: one thing if it succeeds, another if it fails.
abbrev pub Leaves : Option Error → Type 0 → Type 0 → Type 0
Leaves none P Q = P
Leaves (some _) P Q = Q

-- What grep, readlink, mount and umount do with the table, as they are documented: grep shows the
-- lines that it finds, readlink the canonical name of a device if it succeeds, a mount adds an entry,
-- which has the name of the device that was given or the canonical one, umount takes one off, and a
-- command that fails leaves the table. The canonical name of a canonical name is itself. The files and the directories are not in the table.
pub record Mounts (host : Host) : Type 0 where
  pub table : host.State → List MountEntry
  pub hits : String → MountEntry → Bool
  pub canonical : String → String
  pub canonical-IsWord : (d : String) → IsWord d → IsWord (canonical d)
  pub canonical_canonical : (d : String) → canonical (canonical d) ≡ canonical d
  pub greps :
      (file : String) (s : host.State)
      → IsWord file
      → let run = host.exec "sh" ("-c" ∷ ("grep '" <> (file <> "' /proc/mounts")) ∷ []) s in
        (run.0 ≡ grepped (matching (hits file) (table s))) × (table run.1 ≡ table s)
  pub links :
      (device : String) (s : host.State)
      → IsWord device
      → let run = host.exec "readlink" ("-f" ∷ device ∷ []) s in
        Leaves run.0.1 (run.0.0 ≡ canonical device <> "\n") Unit × (table run.1 ≡ table s)
  pub mounts :
      (device path : String) (s : host.State)
      → IsWord device
      → IsWord path
      → let run = host.exec "mount" (device ∷ path ∷ []) s in
        Leaves run.0.1
          (Added (Named canonical device) path (table s) (table run.1))
          (table run.1 ≡ table s)
  pub mounts_new :
      (kind device path : String) (s : host.State)
      → IsWord kind
      → IsWord device
      → IsWord path
      → let run = host.exec "mount" ("-t" ∷ kind ∷ device ∷ path ∷ []) s in
        Leaves run.0.1
          (Added (Named canonical device) path (table s) (table run.1))
          (table run.1 ≡ table s)
  pub unmounts :
      (path : String) (s : host.State)
      → IsWord path
      → let run = host.exec "umount" (path ∷ []) s in
        Leaves run.0.1 (table run.1 ≡ take_off path (table s)) (table run.1 ≡ table s)
  pub looks : (path : String) (s : host.State) → table (host.is_not_exist path s).1 ≡ table s
  pub makes : (path : String) (s : host.State) → table (host.mkdir_all path s).1 ≡ table s
  pub removes : (path : String) (s : host.State) → table (host.remove_all path s).1 ≡ table s

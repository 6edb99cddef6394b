-- ===== src/Common/Log.antt =====
-- `checkArgs` of pkg/common/log.go: every formatted log line passes it. It warns through `Warningf`,
-- which calls it again; the depth of the calls is given as fuel.
pub mod Depth
use Prim.Native.Char.{code}
use Prim.Native.String.{String, [], ◌∷◌}
use datera_csi.Base.{
  Bool, true, false, ℕ, zero, suc, ◌+◌, ◌==◌, Option, none, some, List, str_eq, if◌then◌else◌,
}
use datera_csi.Base.Text.{starts_with, join}

-- `strings.Count(s, sub)` for a `sub` that does not overlap itself.
unfoldable pub count_of : String → String → ℕ
count_of [] sub = 0
count_of (c ∷ s) sub =
    let rest = count_of s sub in if starts_with (c ∷ s) sub then suc rest else rest

unfoldable pub verbs : List String
verbs = List.◌∷◌ "%s" (
    List.◌∷◌ "%f" (
      List.◌∷◌ "%d"
        (List.◌∷◌ "%v" (List.◌∷◌ "%#v" (List.◌∷◌ "%t" (List.◌∷◌ "%p" (List.◌∷◌ "%+v" List.[])))))))

unfoldable pub count_all : List String → String → ℕ
unfolding count_of
count_all List.[] s = 0
count_all (List.◌∷◌ v vs) s = count_of s v + count_all vs s

-- `strings.HasSuffix(s, "\n")`
unfoldable pub ends_line : String → Bool
ends_line [] = false
ends_line (c ∷ s) = let rest = ends_line s in if str_eq s "" then code c == 10 else rest

-- `if !strings.HasSuffix(s, "\n") { s = strings.Join([]string{s, "\n"}, "") }`
unfoldable pub with_line_end : String → String
unfolding ends_line
with_line_end s = if ends_line s then s else join "" (List.◌∷◌ s (List.◌∷◌ "\n" List.[]))

abbrev pub warning : String
warning = "Wrong number of args for format string, [%d != %d]\n"

-- The format to use and the formats that were warned with; `none` if the fuel ends.
unfoldable pub check_args : ℕ → String → ℕ → Option (String × List String)
unfolding verbs count_all with_line_end
check_args zero s args = none
check_args (suc fuel) s args =
    let warned = check_args fuel warning 2 in
    if count_all verbs s == args
    then some (with_line_end s, List.[])
    else elim warned [ none ↦ none | some (w, ws) ↦ some (with_line_end s, List.◌∷◌ w ws) ]

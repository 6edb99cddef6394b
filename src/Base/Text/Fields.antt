-- ===== src/Base/Text/Fields.antt =====
-- `strings.Fields` and `strings.TrimSuffix` at a line end.
pub mod Words
use Prim.Native.Char.{code}
use Prim.Native.String.{String, [], ◌∷◌}
use mathlib.Core.Bool.{◌&&◌}
use mathlib.Core.List.{List}
use text.Mathlib.Text.{◌==◌ as str_eq}
use datera_csi.Base.Tests.{◌==◌, if◌then◌else◌}
use datera_csi.Base.Text.{is_space}

-- A word ends: an empty one is none.
abbrev end_word : String → List String → List String
end_word word words = if str_eq word "" then words else List.◌∷◌ word words

-- The word that a text begins with, and the words after it.
words_of : String → String × List String
words_of [] = ("", List.[])
words_of (c ∷ s) =
    let (word, words) = words_of s in
    if is_space (code c) then ("", end_word word words) else (c ∷ word, words)

-- `strings.Fields`
unfoldable pub fields : String → List String
unfolding words_of
fields s = let (word, words) = words_of s in end_word word words

-- `strings.TrimSuffix(s, "\n")`
unfoldable pub trim_newline : String → String
trim_newline [] = []
trim_newline (c ∷ s) =
    let rest = trim_newline s in if (code c == 10) && str_eq s "" then [] else c ∷ rest

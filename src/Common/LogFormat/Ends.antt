-- ===== src/Common/LogFormat/Ends.antt =====
-- The line end that `checkArgs` adds, and the formatter that takes it off.
use Prim.Native.Char.{code}
use Prim.Native.String.{String, [], ◌∷◌, ◌++◌ as ◌<>◌}
use text.Mathlib.TextLemmas.{cons-append}
use datera_csi.Base.{◌≡◌, refl, Bool-cases, inl, inr}
use datera_csi.Base.Text.{is_space, trim_left, trim_right, trim, trim_space, join}
use datera_csi.Common.Context.{LogEntry}
use datera_csi.Common.Log.{with_line_end, ends_line}
use datera_csi.Common.LogFormat.{format_entry}

trim_right-line_end : (s : String) → trim_right is_space (s <> "\n") ≡ trim_right is_space s
unfolding trim_right
trim_right-line_end [] = refl
trim_right-line_end (c ∷ s) = rw (cons-append, trim_right, trim_right-line_end s)

trim-line_end : (s : String) → trim is_space (s <> "\n") ≡ trim is_space s
unfolding trim trim_left
trim-line_end [] = unfold trim_right in refl
trim-line_end (c ∷ s) = elim (Bool-cases (is_space (code c))) [
  | inl e ↦ rw (cons-append, trim_left, e) (trim-line_end s)
  | inr e ↦
      rw (cons-append, trim_left, e) (rw (cons-append c s "\n") at (trim_right-line_end (c ∷ s)))
]

trim_space-line_end : (s : String) → trim_space (with_line_end s) ≡ trim_space s
unfolding trim_space with_line_end join
trim_space-line_end s = elim (Bool-cases (ends_line s)) [
  | inl e ↦ rw e
  | inr e ↦ rw e (trim-line_end s)
]

-- The line end that the check of a format adds is never seen: at any time and for any entry, the
-- formatter writes the same line with and without it.
pub format_entry-with_line_end :
    (time : String) (e : LogEntry)
    → format_entry time (record e { message = with_line_end e.message }) ≡ format_entry time e
unfolding format_entry
format_entry-with_line_end time e = rw (trim_space-line_end e.message)

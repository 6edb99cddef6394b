-- ===== src/Common/Log/Depth.antt =====
-- `checkArgs` ends.
use datera_csi.Base.{String, ℕ, suc, ◌≡◌, arith, ◌==◌, some, [], ◌∷◌, if◌then◌else◌}
use datera_csi.Common.Log.{check_args, count_all, verbs, with_line_end, warning}

-- With any depth of calls from 2 on the check of a format returns: the format with a line end, and one
-- warning if the number of verbs in it is not that of the arguments, and none if it is. The warning's
-- own format has as many verbs as arguments, so warning ends the calls.
pub check_args-two :
    (more : ℕ) (s : String) (args : ℕ)
    → check_args (suc (suc more)) s args
      ≡ some (with_line_end s, if count_all verbs s == args then [] else warning ∷ [])
unfolding check_args count_all verbs with_line_end
check_args-two more s args = ground arith

-- ===== src/Tests/Hosts.antt =====
-- The machine, the commands and the log, on a small machine.
use datera_csi.Base.{
  ◌↔◌, ◌≡◌, ◌≤◌, refl, String, ℕ, true, false, if◌then◌else◌, some, none, ◌==◌, str_eq, [], ◌∷◌,
  List, All, length,
}
use datera_csi.Base.Int.{pos, negsuc}
use datera_csi.Base.Text.{join, split}
use datera_csi.Base.Go.{ok, panic}
use datera_csi.Common.Log.{check_args, count_all, verbs, with_line_end, warning}
use datera_csi.Common.Log.Depth.{check_args-two}
use datera_csi.Client.Host.Words.{IsBlank}
use datera_csi.Client.Format.{tries, format}
use datera_csi.Client.Format.Tries.{Formats, format_iff}
use datera_csi.Client.ExpandFs.{check_rounds}
use datera_csi.Client.ExpandFs.Sizes.{check_rounds_unreadable}
use datera_csi.Cmd.IscsiSend.{direct, send_main}
use datera_csi.Cmd.IscsiSend.Outcome.{outcome, send_main-outcome}
use datera_csi.Cmd.IscsiRecv.{send_args}
use datera_csi.Cmd.IscsiRecv.Blank.{send_args-panics}
use datera_csi.Tests.Backend.{setting_up}
use datera_csi.Tests.Machine.{machine, nameless}

send_main-outcome_example :
    send_main machine setting_up (direct machine setting_up) "iscsiadm -m session" 0
    ≡ (outcome setting_up "" none, 2)
unfolding datera_csi.Base.Text.split datera_csi.Client.Host.run_cmd
    datera_csi.Client.Host.command_words datera_csi.Base.Text.trim_space
send_main-outcome_example =
    send_main-outcome machine setting_up "iscsiadm -m session" "" none 0 1 2 refl refl

check_rounds_unreadable_example : (check_rounds nameless 60 "/dev/sda" (pos 5) 0).0 ≡ ok tt
unfolding datera_csi.Base.Num.parse_int datera_csi.Base.Text.Fields.trim_newline
check_rounds_unreadable_example =
    check_rounds_unreadable nameless "/dev/sda" (λ args s. refl) 58 (pos 5) 0

format_iff_example :
    ((format machine (tries (pos 2)) ("mkfs.ext4" ∷ "/dev/sda" ∷ []) 0 ≡ (ok tt, 1))
      ↔ Formats machine ("mkfs.ext4" ∷ "/dev/sda" ∷ []) 3 0 1)
    × ((format machine (tries (negsuc 2)) ("mkfs.ext4" ∷ "/dev/sda" ∷ []) 0 ≡ (ok tt, 1))
        ↔ Formats machine ("mkfs.ext4" ∷ "/dev/sda" ∷ []) 0 0 1)
format_iff_example = format_iff machine ("mkfs.ext4" ∷ "/dev/sda" ∷ []) 2 0 1

send_args-panics_example :
    ((send_args machine setting_up " " 0).0 ≡ panic) ↔ All IsBlank ("" ∷ "" ∷ [])
unfolding split
send_args-panics_example = send_args-panics machine setting_up " " 0

check_args-two_example : check_args 2 "size %d" 0 ≡ some ("size %d\n", warning ∷ [])
unfolding datera_csi.Common.Log.check_args datera_csi.Common.Log.with_line_end
    datera_csi.Common.Log.count_all datera_csi.Common.Log.verbs join
check_args-two_example = check_args-two 0 "size %d" 0

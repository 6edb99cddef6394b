-- ===== src/Common/LogFormat.antt =====
-- `LogFormatter` of pkg/common/log.go: how an entry becomes a line.
pub mod Ends
use datera_csi.Base.{String, ◌<>◌, List, [], ◌∷◌}
use datera_csi.Base.Int.{ℤ}
use datera_csi.Base.Num.{format_int}
use datera_csi.Base.Text.{join, trim_space}
use datera_csi.Common.Context.{Level, debug, info, warn, error, fatal, Field, num, str, LogEntry}

-- `strings.ToUpper(level.String())`
unfoldable pub level_text : Level → String
level_text debug = "DEBUG"
level_text info = "INFO"
level_text warn = "WARNING"
level_text error = "ERROR"
level_text fatal = "FATAL"

-- `fmt.Sprintf("%s: %d", f, v)` for the integers, and `"%s: %s"` for the rest.
unfoldable pub field_text : String → Field → String
field_text f (num n) = f <> (": " <> format_int n)
field_text f (str s) = f <> (": " <> s)

-- The loop over the fields, in the order in which the map gives them.
unfoldable pub fields_text : String → List (String × Field) → String
unfolding field_text join
fields_text acc [] = acc
fields_text acc ((f, v) ∷ rest) = fields_text (join " " (acc ∷ field_text f v ∷ [])) rest

-- `Format`: `time` is the entry's time as RFC 3339 writes it.
unfoldable pub format_entry : String → LogEntry → String
unfolding level_text fields_text
format_entry time entry =
    time
    <> (" "
        <> (level_text entry.level
            <> (" "
                <> (trim_space entry.message
                    <> (" ||> " <> (fields_text "" entry.fields <> "\n"))))))

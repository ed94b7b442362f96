-- ===== src/Output.antt =====
-- The output of a command: `ProcessOutput` of pkg/process/process.go. The logfmt decoder is an
-- argument.
pub mod Verbatim
mod Examples
use process_wrapper.Prelude.{
  ℕ, ◌==◌, Bool, true, false, ◌||◌, List, [], ◌∷◌, ◌++◌, Option, none, some, Str, codes, map,
  str_eq, is_empty, contains_text, if◌then◌else◌,
}
use process_wrapper.Command.{Command}

pub data Severity : Type 0 where
  info warning error : Severity

-- One line that is forwarded: as it is, or as a log entry with a severity. The entries of lines that
-- are logfmt carry their level as a field.
pub data Forwarded : Type 0 where
  printed : Str → Forwarded
  logged : Severity → Str → Forwarded
  relogged : Severity → Str → Str → Forwarded

-- The keys and values that the decoder scans in a line, in order.
abbrev pub Logfmt : Type 0
Logfmt = Str → List (Str × Str)

-- The last value of a key; empty without one.
unfoldable pub last_of : Str → Str → List (Str × Str) → Str
unfolding str_eq
last_of key found [] = found
last_of key found ((k, v) ∷ pairs) = last_of key (if str_eq k key then v else found) pairs

-- The level and the message of `getMessage`.
unfoldable pub get_message : Logfmt → Str → Str × Str
unfolding last_of
get_message decode out =
    let level = last_of (codes "level") [] (decode out) in
    let message = last_of (codes "msg") [] (decode out) in
    if is_empty level then (codes "unknown", out) else (level, message)

-- `LOG_FORMAT`, unless the command has a format of its own.
abbrev pub log_format : Str → Command → Str
log_format variable c = if is_empty c.log_format then variable else c.log_format

abbrev has_error : Str → Bool
has_error out = contains_text (codes "CRITICAL") out || contains_text (codes "ERROR") out

unfoldable pub forward_plain : Str → Str → Forwarded
unfolding str_eq contains_text
forward_plain format out =
    if str_eq format (codes "free") || str_eq format (codes "plain")
    then printed out
    else if str_eq format (codes "auto")
    then (if has_error out
        then logged error out
        else if contains_text (codes "WARNING") out
        then logged warning out
        else logged info out)
    else logged info out

unfoldable pub severity_of : Str → Severity
unfolding str_eq
severity_of level =
    if str_eq level (codes "warning")
    then warning
    else if str_eq level (codes "error")
    then error
    else info

-- The body of the loop.
unfoldable pub forward : Logfmt → Str → Str → Forwarded
unfolding get_message forward_plain severity_of
forward decode format out =
    let (level, message) = get_message decode out in
    if str_eq level (codes "unknown")
    then forward_plain format out
    else relogged (severity_of level) level message

-- The lines that `ReadString('\n')` returns without an error, their newlines included, and what is
-- left when the output ends. `line` is what has been read of a line.
unfoldable pub read_lines : Str → Str → List Str × Str
read_lines line [] = ([], line)
read_lines line (c ∷ text) =
    let next = read_lines [] text in
    let more = read_lines (line ++ c ∷ []) text in
    if c == b'\n' then ((line ++ c ∷ []) ∷ next.0, next.1) else more

-- `ProcessOutput` on the whole output of a command: it returns at the first error, which is the end.
unfoldable pub process_output : Logfmt → Str → Command → Str → List Forwarded
unfolding forward read_lines
process_output decode variable c text =
    map (forward decode (log_format variable c)) (read_lines [] text).0

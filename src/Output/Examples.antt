-- ===== src/Output/Examples.antt =====
-- Tests of the output of a command.
use process_wrapper.Prelude.{◌≡◌, refl, [], ◌∷◌, ◌++◌, Str, codes, contains_text, str_eq}
use process_wrapper.Command.{Command}
use process_wrapper.Output.{
  logged, relogged, error, warning, forward, read_lines, process_output, get_message, forward_plain,
  severity_of, last_of,
}
use process_wrapper.Output.Verbatim.{printed_text}
use process_wrapper.Sample.{web_command}

errors : forward (λ out. []) (codes "auto") (codes "an ERROR") ≡ logged error (codes "an ERROR")
unfolding forward get_message forward_plain contains_text str_eq last_of
errors = refl

-- A line of logfmt is logged anew, whatever the format is.
relogs :
    forward
      (λ out. (codes "level", codes "warning") ∷ (codes "msg", codes "slow") ∷ [])
      (codes "free")
      (codes "level=warning msg=slow")
    ≡ relogged warning (codes "warning") (codes "slow")
unfolding forward get_message severity_of str_eq last_of
relogs = refl

abbrev free_command : Command
free_command = record web_command { log_format = codes "free" }

abbrev text : Str
text = codes "one" ++ (b'\n' ∷ codes "two")

last_line_lost :
    printed_text (process_output (λ out. []) [] free_command text) ≡ codes "one" ++ b'\n' ∷ []
unfolding process_output read_lines forward get_message forward_plain str_eq last_of
last_line_lost = refl

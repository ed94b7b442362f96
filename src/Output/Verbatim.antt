-- ===== src/Output/Verbatim.antt =====
-- What of the output of a command is forwarded (pkg/process/process.go).
use process_wrapper.Prelude.{
  ◌≡◌, true, if◌then◌else◌, contains_byte, List, [], ◌∷◌, ◌++◌, Str, codes, str_eq,
}
use process_wrapper.Command.{Command}
use process_wrapper.Output.{Forwarded, printed, Logfmt, get_message}

-- The text that is printed as it is.
abbrev pub printed_text : List Forwarded → Str
printed_text [] = []
printed_text (printed text ∷ rest) = text ++ printed_text rest
printed_text (_ ∷ rest) = printed_text rest

abbrev pub concat : List Str → Str
concat [] = []
concat (text ∷ texts) = text ++ concat texts

-- The text up to its last newline, the newline included; without one it is empty.
abbrev pub through_last_newline : Str → Str
through_last_newline [] = []
through_last_newline (c ∷ text) =
    let rest = through_last_newline text in if contains_byte b'\n' (c ∷ text) then c ∷ rest else []

-- The decoder finds no level in a line, or the level `unknown`.
abbrev pub IsPlainLine : Logfmt → Str → Type 0
IsPlainLine decode out = str_eq (get_message decode out).0 (codes "unknown") ≡ true

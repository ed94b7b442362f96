-- ===== src/Stats/Examples.antt =====
-- Tests of the process statistics.
use process_wrapper.Prelude.{
  contains_byte, ◌≢◌, ◌≡◌, refl, false, List, [], ◌∷◌, none, some, Str, codes, arith, split,
}
use process_wrapper.Prelude.Int.{pos}
use process_wrapper.Prelude.Decimal.{read_digits, decimal, parse_uint}
use process_wrapper.Command.{Command}
use process_wrapper.Stats.{
  ProcStat, StatRound, new_proc_stats, after_paren, to_number, measured, usable, stat, get_stats,
}
use process_wrapper.Stats.Columns.{expected, stat_line, stat-stat_line}
use process_wrapper.Stats.Ending.{
  Reading, failed, dropped, grown, readings, ending, get_stats-ending,
}
use process_wrapper.Sample.Hundredths.{
  Hundredths, hundredths, hundredths-IsFloat, client, client-IsPrometheus,
}
use process_wrapper.Sample.{web_command}

abbrev zero_field : Str
zero_field = codes "0"

-- The fields from the state of a process to the size of its resident set.
abbrev fields : List Str
fields =
    codes "S"
    ∷ codes "1"
    ∷ zero_field
    ∷ zero_field
    ∷ zero_field
    ∷ zero_field
    ∷ zero_field
    ∷ zero_field
    ∷ zero_field
    ∷ zero_field
    ∷ zero_field
    ∷ codes "120"
    ∷ codes "30"
    ∷ zero_field
    ∷ zero_field
    ∷ zero_field
    ∷ zero_field
    ∷ zero_field
    ∷ zero_field
    ∷ zero_field
    ∷ zero_field
    ∷ codes "500"
    ∷ zero_field
    ∷ []

abbrev start : ProcStat Hundredths
start = record { pid = codes "7"; clktck = pos 10_000; page = pos 409_600; cpu_seconds = pos 100 }

abbrev web_line : Str
web_line = stat_line (codes "7") (codes "web") fields

-- A blank and a closing parenthesis in the name of the program move the columns.
moved :
    (stat (some (stat_line (codes "7") (codes "a) b") fields)) start).0
    ≢ (stat (some web_line) start).0
unfolding stat after_paren measured to_number split parse_uint read_digits
moved e = ground arith

stat-stat_line_example :
    let m = expected start 120 30 500 in
    stat (some web_line) start ≡ (some m, record start { cpu_seconds = m.cpu })
stat-stat_line_example =
    stat-stat_line start (codes "7") (codes "web") fields 120 30 500 hundredths-IsFloat
      (unfold contains_byte in refl) (unfold contains_byte in refl)
      (unfold contains_byte in ground arith) (omega arith) (unfold decimal in refl)
      (unfold decimal in refl) (unfold decimal in refl) (omega arith) (omega arith) (omega arith)

abbrev limited : Command
limited = record web_command { memory_limit_mb = 1_000_000 }

abbrev seen : StatRound
seen = record { done = false; file = some web_line }

abbrev missing : StatRound
missing = record { done = false; file = none }

-- The pid belongs to another process, whose name moves the columns.
abbrev reused : StatRound
reused = record { done = false; file = some (stat_line (codes "7") (codes "a) b") fields) }

abbrev rounds : List StatRound
rounds = missing ∷ missing ∷ seen ∷ missing ∷ reused ∷ []

abbrev from_start : List Reading
from_start = readings (new_proc_stats 7 (pos 0) (pos 0)) rounds

drop_seen : from_start ≡ failed ∷ failed ∷ grown ∷ failed ∷ dropped ∷ []
unfolding stat after_paren measured to_number split parse_uint read_digits new_proc_stats usable
drop_seen = refl

get_stats-ending_example : (get_stats client limited 7 rounds).exit ≡ ending from_start
get_stats-ending_example =
    get_stats-ending client limited 7 rounds hundredths-IsFloat client-IsPrometheus refl
      (refl, (refl, (refl, (refl, (refl, tt)))))

-- ===== src/Stats.antt =====
-- Process statistics: `NewProcStats` and `Stat` of pkg/stat/stat.go, and `GetStats` of
-- pkg/process/process_stats.go, over the floating-point numbers and the Prometheus client that it is
-- given.
pub mod Columns
pub mod Limit
pub mod Ending
pub mod Sends
mod Examples
use process_wrapper.Prelude.{
  ℕ, suc, Bool, true, false, ◌&&◌, List, [], ◌∷◌, ◌++◌, map, Option, none, some, Str, ◌==◌, ltb,
  leb, if◌then◌else◌, length, drop, split,
}
use process_wrapper.Prelude.Decimal.{decimal}
use process_wrapper.Prelude.Float.{Float}
use process_wrapper.Clock.{seconds}
use process_wrapper.Action.{Action, write_killed, send, sigkill, sleep, count_label, oom}
use process_wrapper.Command.{Command}
use process_wrapper.Registry.{Update, add_cpu, set_cpu, set_memory}
use process_wrapper.Registry.Accepted.{Prometheus}

-- `CLKTCK` and `PAGESIZE`
abbrev pub clock_ticks : ℕ
clock_ticks = 100

abbrev pub page_size : ℕ
page_size = 4096

pub record ProcStat {ℓ} (F : Type ℓ) : Type ℓ where
  pub pid : Str
  pub clktck : F
  pub page : F
  pub cpu_seconds : F

-- What `Stat` returns without an error.
pub record Measured {ℓ} (F : Type ℓ) : Type ℓ where
  pub cpu : F
  pub delta : F
  pub memory : F

-- `statFileString[i+1:]` at the first `)`; `none` is `i == -1`.
unfoldable pub after_paren : Str → Option Str
after_paren [] = none
after_paren (c ∷ text) = let rest = after_paren text in if c == b')' then some text else rest

-- `columns[i]`, after the test of the length
abbrev pub column : ℕ → List Str → Str
column i columns = elim (drop i columns) [ [] ↦ [] | (text ∷ rest) ↦ text ]

-- What a round of `GetStats` meets: whether its context is done, and the file.
pub record StatRound : Type 0 where
  pub done : Bool
  pub file : Option Str

-- What `GetStats` does: an action, or an update of a metric.
pub data Step {ℓ} (F : Type ℓ) : Type ℓ where
  act : Action → Step F
  updated : Update F → Step F

-- `GetStats` goes on, returns, or panics.
pub data Exit : Type 0 where
  looping returned panicked : Exit

pub record Outcome {ℓ} (F : Type ℓ) : Type ℓ where
  pub steps : List (Step F)
  pub exit : Exit

module _ {ℓ} {F : Type ℓ} where
  abbrev pub before_outcome : List (Step F) → Outcome F → Outcome F
  before_outcome steps o = record { steps = steps ++ o.steps; exit = o.exit }

  abbrev pub acts : List Action → List (Step F)
  acts [] = []
  acts (a ∷ actions) = act a ∷ acts actions

  -- The updates up to the first one that panics, and whether there is none.
  unfoldable pub make_updates : Prometheus F → List (Update F) → List (Step F) × Bool
  make_updates p [] = ([], true)
  make_updates p (u ∷ updates) =
      let (made, survived) = make_updates p updates in
      if p.panics u then ([], false) else (updated u ∷ made, survived)

module _ {ℓ} {F : Type ℓ} ⦃f : Float F⦄ where
  abbrev pub zero_or : F → ℕ → F
  zero_or value default = if f.eq value (f.of_nat 0) then f.of_nat default else value

  -- `NewProcStats`
  unfoldable pub new_proc_stats : ℕ → F → F → ProcStat F
  new_proc_stats pid clktck page = record {
    pid = decimal pid;
    clktck = zero_or clktck clock_ticks;
    page = zero_or page page_size;
    cpu_seconds = f.of_nat 0;
  }

  -- `sTof64`
  unfoldable pub to_number : Str → F
  to_number text = elim (f.parse_float text) [ none ↦ f.of_nat 0 | some v ↦ v ]

  -- The measurement that the columns give.
  unfoldable pub measured : ProcStat F → List Str → Measured F
  unfolding to_number
  measured s columns =
      let cpu =
        f.over (f.plus (to_number (column 12 columns)) (to_number (column 13 columns))) s.clktck in
      record {
        cpu = cpu;
        delta = f.minus cpu s.cpu_seconds;
        memory = f.times (to_number (column 22 columns)) s.page;
      }

  -- `Stat`, with the contents of the file
  unfoldable pub stat : Option Str → ProcStat F → Option (Measured F) × ProcStat F
  stat none s = (none, s)
  stat (some text) s = elim (after_paren text) [
    | none ↦ (none, s)
    | some rest ↦
        let columns = split b' ' rest in
        let m = measured s columns in
        if ltb (length columns) 23 then (none, s) else (some m, record s { cpu_seconds = m.cpu })
  ]

  -- `cpuSeconds+cpuDelta+memoryUsage == 0`
  unfoldable pub is_blank : Measured F → Bool
  is_blank m = f.eq (f.plus (f.plus m.cpu m.delta) m.memory) (f.of_nat 0)

  -- The measurement, unless it counts as a failure.
  unfoldable pub usable : Option (Measured F) → Option (Measured F)
  unfolding is_blank
  usable none = none
  usable (some m) = if is_blank m then none else some m

  -- `c.MemoryLimitMB > 0 && memoryUsage/1000000 > c.MemoryLimitMB`
  unfoldable pub exceeds_limit : Command → Measured F → Bool
  exceeds_limit c m =
      let limit = f.millionths c.memory_limit_mb in
      f.lt (f.of_nat 0) limit && f.lt limit (f.over m.memory (f.of_nat 1_000_000))

  unfoldable pub handle_memory_limit : Command → ℕ → Measured F → List Action
  unfolding exceeds_limit
  handle_memory_limit c pid m =
      if exceeds_limit c m
      then write_killed c.name true ∷ send pid sigkill ∷ count_label oom ∷ []
      else []

  unfoldable pub usage_updates : Command → Measured F → List (Update F)
  unfolding add_cpu set_cpu set_memory
  usage_updates c m = add_cpu c m.delta ∷ set_cpu c m.cpu ∷ set_memory c m.memory ∷ []

  -- The rounds of the loop, with the failures so far.
  unfoldable pub collect : Prometheus F → Command → ℕ → ℕ → ProcStat F → List StatRound → Outcome F
  unfolding stat usable usage_updates make_updates handle_memory_limit
  collect p c pid failed s [] = record { steps = []; exit = looping }
  collect p c pid failed s (r ∷ rounds) =
      let (m?, s') = stat r.file s in
      let retry = collect p c pid (suc failed) s' rounds in
      let go_on = collect p c pid 0 s' rounds in
      if r.done then record { steps = []; exit = returned } else elim (usable m?) [
        | none ↦
            if leb 3 (suc failed)
            then record { steps = []; exit = returned }
            else before_outcome (act (sleep (seconds 1)) ∷ []) retry
        | some m ↦
            let (made, survived) = make_updates p (usage_updates c m) in
            let limited = handle_memory_limit c pid m ++ sleep (seconds 10) ∷ [] in
            if survived
            then before_outcome (made ++ acts limited) go_on
            else record { steps = made; exit = panicked }
      ]

  unfoldable pub get_stats : Prometheus F → Command → ℕ → List StatRound → Outcome F
  unfolding collect new_proc_stats
  get_stats p c pid rounds = collect p c pid 0 (new_proc_stats pid (f.of_nat 0) (f.of_nat 0)) rounds

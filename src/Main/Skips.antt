-- ===== src/Main/Skips.antt =====
-- What the default of the flag `skip-commands` skips (main.go, and `NewSchedule` of
-- pkg/process/process.go).
use process_wrapper.Prelude.{
  ℕ, zero, suc, ◌+◌, ◌≡◌, ◌≢◌, refl, false, List, [], ◌∷◌, Str, arith, All, All-append, Bool-cases,
  inl, inr, slice_contains, str_eq, split,
}
use process_wrapper.Prelude.Int.{ℤ, pos, negsuc}
use process_wrapper.Command.{Command}
use process_wrapper.Schedule.{replica_name, replica, replicas_from, expand, schedule}
use process_wrapper.Main.{default_flags}

abbrev IsNamed : Command → Type 0
IsNamed c = c.name ≢ []

replica_name-ne : (name : Str) (r : ℕ) → replica_name name r ≢ []
unfolding replica_name
replica_name-ne [] r e = cc
replica_name-ne (c ∷ name) r e = cc

replicas_from-IsNamed : (c : Command) (r n : ℕ) → All IsNamed (replicas_from c r n)
unfolding replicas_from
replicas_from-IsNamed c r zero = tt
replicas_from-IsNamed c r (suc n) =
    (unfold replica in replica_name-ne c.name r, replicas_from-IsNamed c (r + 1) n)

expand-IsNamed : (c : Command) (n : ℤ) → IsNamed c → All IsNamed (expand c n)
expand-IsNamed c (pos zero) h = (h, tt)
expand-IsNamed c (pos (suc n)) h = replicas_from-IsNamed c 0 (suc n)
expand-IsNamed c (negsuc n) h = (h, tt)

skip_list : split b',' default_flags.skip_commands ≡ [] ∷ []
unfolding split
skip_list = refl

contains-named : (name : Str) → slice_contains ([] ∷ []) name ≡ false → name ≢ []
unfolding slice_contains str_eq
contains-named name h e = ground arith

schedule-IsNamed : (cs : List Command) → All IsNamed (schedule ([] ∷ []) cs)
unfolding schedule
schedule-IsNamed [] = tt
schedule-IsNamed (c ∷ cs) = elim (Bool-cases (slice_contains ([] ∷ []) c.name)) [
  | inl skipped ↦ rw skipped (schedule-IsNamed cs)
  | inr kept ↦ rw kept (
      All-append IsNamed (expand c c.replicas) (schedule ([] ∷ []) cs)
        (expand-IsNamed c c.replicas (contains-named c.name kept)) (schedule-IsNamed cs))
]

-- Without the flag `skip-commands` the list of skipped commands is not empty: it holds the empty name,
-- and a command without a name is never started.
pub default_skips_unnamed :
    (cs : List Command)
    → All (λ (c : Command). c.name ≢ []) (schedule (split b',' default_flags.skip_commands) cs)
default_skips_unnamed cs = rw skip_list (schedule-IsNamed cs)

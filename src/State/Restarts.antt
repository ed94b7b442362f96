-- ===== src/State/Restarts.antt =====
-- The restart history of `SetPid`, and `NumOfRestarts` over it (pkg/process/health.go).
use Prim.Native.Nat.{min}
use mathlib.Core.List.{append-nil, append_assoc}
use process_wrapper.Prelude.{
  none, ℕ, zero, suc, ◌+◌, ◌-◌, ◌/◌, ◌≤◌, ◌≡◌, refl, sym, ap, ◌∙◌, Bool, true, List, [], ◌∷◌, ◌++◌,
  Str, ltb, if◌then◌else◌, arith, length, length-append, length-drop, drop, drop-append_le,
  drop-drop, count, count-le, str_eq, str_eq_iff, All, Bool-cases, inl, inr,
}
use process_wrapper.Prelude.Int.{ltb_ℤ-sub_ℕ}
use process_wrapper.Prelude.Dict.{lookup, lookup_or, lookup_or-insert}
use process_wrapper.Clock.{Time, Duration, nanos}
use process_wrapper.State.{
  count_recent, State, push_history, set_pid, floating_pid_history, num_of_restarts, is_recent,
}

-- The last entries of a history, as many as `SetPid` keeps.
abbrev pub recent {ℓ} : {A : Type ℓ} → List A → List A
recent xs = drop (length xs - floating_pid_history) xs

push_history-drop : (h : List Time) (t : Time) → push_history h t ≡ recent (h ++ t ∷ [])
unfolding push_history
push_history-drop h t = elim (Bool-cases (ltb floating_pid_history (length (h ++ t ∷ [])))) [
  | inl long ↦ rw long
  | inr short ↦
      let few : length (h ++ t ∷ []) - floating_pid_history ≡ 0 = ground arith in rw (short, few)
]

pub push_history-recent :
    (xs : List Time) (t : Time) → push_history (recent xs) t ≡ recent (xs ++ t ∷ [])
push_history-recent xs t =
    let k = length xs - floating_pid_history in
    let same = drop-append_le k xs (t ∷ []) (omega arith) in
    let sum : k + (length (drop k xs ++ t ∷ []) - floating_pid_history)
        ≡ length (xs ++ t ∷ []) - floating_pid_history =
      omega
        (arith, length-append (drop k xs) (t ∷ []), length-append xs (t ∷ []), length-drop k xs) in
    push_history-drop (recent xs) t
    ∙ ap (drop (length (drop k xs ++ t ∷ []) - floating_pid_history)) (sym same)
    ∙ drop-drop (length (drop k xs ++ t ∷ []) - floating_pid_history) k (xs ++ t ∷ [])
    ∙ ap (λ n. drop n (xs ++ t ∷ [])) sum

-- One successful start of a process, as `Run` reports it to `SetPid`.
pub record Restart : Type 0 where
  pub name : Str
  pub pid : ℕ
  pub time : Time

unfoldable pub record_restarts : List Restart → State → State
record_restarts [] s = s
record_restarts (r ∷ rs) s = record_restarts rs (set_pid r.name r.pid r.time s)

abbrev pub times_of : Str → List Restart → List Time
times_of name [] = []
times_of name (r ∷ rs) = if str_eq r.name name then r.time ∷ times_of name rs else times_of name rs

history-set_pid :
    (r : Restart) (name : Str) (s : State)
    → lookup_or [] name (set_pid r.name r.pid r.time s).floating_pid ≡ (
        if str_eq r.name name
        then push_history (lookup_or [] r.name s.floating_pid) r.time
        else lookup_or [] name s.floating_pid)
unfolding set_pid
history-set_pid r name s = lookup_or-insert [] r.name name _ s.floating_pid

record_restarts-recent :
    (rs : List Restart) (name : Str) (xs : List Time) (s : State)
    → lookup_or [] name s.floating_pid ≡ recent xs
    → lookup_or [] name (record_restarts rs s).floating_pid ≡ recent (xs ++ times_of name rs)
unfolding record_restarts
record_restarts-recent [] name xs s h = rw append-nil h
record_restarts-recent (r ∷ rs) name xs s h = elim (Bool-cases (str_eq r.name name)) [
  | inl same ↦
      let e = (str_eq_iff r.name name).0 same in
      let next : lookup_or [] name (set_pid r.name r.pid r.time s).floating_pid
          ≡ recent (xs ++ r.time ∷ []) =
        rw (history-set_pid, same, e, h) (push_history-recent xs r.time) in
      rw (same, ← append_assoc xs (r.time ∷ []) (times_of name rs))
        (record_restarts-recent rs name (xs ++ r.time ∷ []) (set_pid r.name r.pid r.time s) next)
  | inr other ↦
      let next : lookup_or [] name (set_pid r.name r.pid r.time s).floating_pid ≡ recent xs =
        rw (history-set_pid, other) h in
      rw other (record_restarts-recent rs name xs (set_pid r.name r.pid r.time s) next)
]

-- However the restarts of several processes follow one another, the history of each process holds
-- its last ten start times, in order, if no history was kept before.
pub record_restarts_last_ten :
    (rs : List Restart) (name : Str) (s : State)
    → lookup name s.floating_pid ≡ none
    → lookup_or [] name (record_restarts rs s).floating_pid ≡ recent (times_of name rs)
unfolding lookup_or
record_restarts_last_ten rs name s h = record_restarts-recent rs name [] s (rw (h, lookup_or))

-- Start times in the order of the clock.
abbrev pub IsChronological : List Time → Type 0
IsChronological [] = Unit
IsChronological (t ∷ ts) = All (λ u. t ≤ u) ts × IsChronological ts

is_recent_mono :
    (now : Time) (period : Duration) (t u : Time)
    → t ≤ u
    → is_recent now period t ≡ true
    → is_recent now period u ≡ true
unfolding is_recent
is_recent_mono now period t u h r =
    let r' = rw ltb_ℤ-sub_ℕ at r in
    let q : t / nanos ≤ u / nanos = omega arith in rw ltb_ℤ-sub_ℕ (ground arith)

count_all : (p : Time → Bool) (ts : List Time) → All (λ u. p u ≡ true) ts → count p ts ≡ length ts
count_all p [] h = refl
count_all p (t ∷ ts) h = rw h.0 (omega (arith, count_all p ts h.1))

All-recent :
    (now : Time) (period : Duration) (t : Time) (ts : List Time)
    → is_recent now period t ≡ true
    → All (λ u. t ≤ u) ts
    → All (λ u. is_recent now period u ≡ true) ts
All-recent now period t [] r h = tt
All-recent now period t (u ∷ us) r h =
    (is_recent_mono now period t u h.0 r, All-recent now period t us r h.1)

count-drop :
    (now : Time) (period : Duration) (k : ℕ) (ts : List Time)
    → IsChronological ts
    → count (is_recent now period) (drop k ts)
      ≡ min (length ts - k) (count (is_recent now period) ts)
count-drop now period zero ts h = omega (arith, count-le (is_recent now period) ts)
count-drop now period (suc k) [] h = omega arith
count-drop now period (suc k) (t ∷ ts) h = elim (Bool-cases (is_recent now period t)) [
  | inl hit ↦ rw hit (
      omega (
        arith,
        count-drop now period k ts h.1,
        count_all (is_recent now period) ts (All-recent now period t ts hit h.0),
      ))
  | inr miss ↦ rw miss (omega (arith, count-drop now period k ts h.1))
]

count_recent-count :
    (clock : ℕ → Time) (period : Duration) (now : Time) (i : ℕ) (ts : List Time)
    → ((j : ℕ) → clock j ≡ now)
    → count_recent clock period i ts ≡ count (is_recent now period) ts
unfolding count_recent
count_recent-count clock period now i [] h = refl
count_recent-count clock period now i (t ∷ ts) h =
    rw (h i) (ground (arith, count_recent-count clock period now (suc i) ts h))

-- With the clock at `now` throughout the loop, and start times in the order of the clock,
-- `NumOfRestarts` is the number of all starts inside the period, capped at ten.
pub num_of_restarts_exact :
    (rs : List Restart) (name : Str) (s : State) (clock : ℕ → Time) (now : Time) (period : Duration)
    → lookup name s.floating_pid ≡ none
    → IsChronological (times_of name rs)
    → ((j : ℕ) → clock j ≡ now)
    → num_of_restarts clock period name (record_restarts rs s)
      ≡ min floating_pid_history (count (is_recent now period) (times_of name rs))
unfolding num_of_restarts
num_of_restarts_exact rs name s clock now period fresh sorted still =
    let ts = times_of name rs in
    rw (record_restarts_last_ten rs name s fresh) (
      count_recent-count clock period now 0 (recent ts) still
      ∙ count-drop now period (length ts - floating_pid_history) ts sorted
      ∙ omega (arith, count-le (is_recent now period) ts))

count_recent-le :
    (clock : ℕ → Time) (period : Duration) (i : ℕ) (ts : List Time)
    → count_recent clock period i ts ≤ length ts
unfolding count_recent
count_recent-le clock period i [] = omega arith
count_recent-le clock period i (t ∷ ts) = ground (arith, count_recent-le clock period (suc i) ts)

-- No run of restarts makes `NumOfRestarts` exceed ten, whatever the clock reads.
pub num_of_restarts-le :
    (rs : List Restart) (name : Str) (s : State) (clock : ℕ → Time) (period : Duration)
    → lookup name s.floating_pid ≡ none
    → num_of_restarts clock period name (record_restarts rs s) ≤ floating_pid_history
unfolding num_of_restarts
num_of_restarts-le rs name s clock period fresh =
    let ts = times_of name rs in
    rw (record_restarts_last_ten rs name s fresh) (
      omega (
        arith,
        count_recent-le clock period 0 (recent ts),
        length-drop (length ts - floating_pid_history) ts,
      ))

-- ===== src/Action/Invariant.antt =====
-- The maps of the shared `State` stay maps, its histories stay short, and its flags stay set, under
-- every interleaving of actions.
use process_wrapper.Prelude.{
  ◌-◌, length-drop, ◌++◌, ◌≤◌, ◌≡◌, refl, Bool, true, List, [], ◌∷◌, Str, length, arith,
}
use process_wrapper.Prelude.Dict.{Dict, IsDict, insert, lookup_or, insert-IsDict, delete-IsDict}
use process_wrapper.Clock.{Time}
use process_wrapper.State.{State, push_history, floating_pid_history, new_state}
use process_wrapper.Action.{
  Action, perform, perform_all, write_shutdown, write_state, drop_state, write_heart_beat,
  write_pid, write_cancel, write_killed, write_preempted,
}

abbrev pub AllShort : Dict (List Time) → Type 0
AllShort [] = Unit
AllShort ((k, h) ∷ m) = (length h ≤ floating_pid_history) × AllShort m

pub record IsWellFormed (s : State) : Type 0 where
  pub killed : IsDict s.killed_map
  pub status : IsDict s.status_map
  pub pids : IsDict s.pids_map
  pub floating : IsDict s.floating_pid
  pub beats : IsDict s.heart_beat
  pub cancels : IsDict s.cancel_routine_map
  pub short : AllShort s.floating_pid

-- A new state is well formed.
pub new_state-IsWellFormed : (file : Str) (drain : Bool) → IsWellFormed (new_state file drain)
unfolding new_state
new_state-IsWellFormed file drain = ground arith

length-push_history : (h : List Time) (t : Time) → length (push_history h t) ≤ floating_pid_history
unfolding push_history
length-push_history h t =
    let grown = h ++ t ∷ [] in
    ground (arith, length-drop (length grown - floating_pid_history) grown)

insert-AllShort :
    (k : Str) (h : List Time) (m : Dict (List Time))
    → length h ≤ floating_pid_history
    → AllShort m
    → AllShort (insert k h m)
unfolding insert
insert-AllShort k h [] l a = (l, tt)
insert-AllShort k h ((j, w) ∷ m) l a = ground (arith, insert-AllShort k h m l)

-- Every action keeps the state well formed.
perform-IsWellFormed : (a : Action) (s : State) → IsWellFormed s → IsWellFormed (perform a s)
unfolding perform
perform-IsWellFormed write_shutdown s w = ground arith
perform-IsWellFormed (write_state name b) s w =
    ground (arith, insert-IsDict name b s.status_map w.status)
perform-IsWellFormed (drop_state name) s w =
    ground (arith, delete-IsDict name s.status_map w.status)
perform-IsWellFormed (write_heart_beat name t) s w =
    ground (arith, insert-IsDict name t s.heart_beat w.beats)
perform-IsWellFormed (write_pid name pid t) s w =
    let old = lookup_or [] name s.floating_pid in
    ground (
      arith,
      insert-IsDict name pid s.pids_map w.pids,
      insert-IsDict name (push_history old t) s.floating_pid w.floating,
      insert-AllShort name (push_history old t) s.floating_pid (length-push_history old t) w.short,
    )
perform-IsWellFormed (write_cancel name c) s w =
    ground (arith, insert-IsDict name c s.cancel_routine_map w.cancels)
perform-IsWellFormed (write_killed name b) s w =
    ground (arith, insert-IsDict name b s.killed_map w.killed)
perform-IsWellFormed write_preempted s w = ground arith
perform-IsWellFormed _ s w = w

pub perform_all-IsWellFormed :
    (actions : List Action) (s : State) → IsWellFormed s → IsWellFormed (perform_all actions s)
unfolding perform_all
perform_all-IsWellFormed [] s w = w
perform_all-IsWellFormed (a ∷ rest) s w =
    perform_all-IsWellFormed rest (perform a s) (perform-IsWellFormed a s w)

-- Whatever the goroutines do, in whatever order, to the state that `NewState` allocates: each of
-- its six maps has at most one entry for a key, and no restart history has more than ten entries.
pub reachable-IsWellFormed :
    (actions : List Action) (file : Str) (drain : Bool)
    → IsWellFormed (perform_all actions (new_state file drain))
reachable-IsWellFormed actions file drain =
    perform_all-IsWellFormed actions (new_state file drain) (new_state-IsWellFormed file drain)

perform-shutdown : (a : Action) (s : State) → s.shutdown ≡ true → (perform a s).shutdown ≡ true
unfolding perform
perform-shutdown write_shutdown s h = refl
perform-shutdown _ s h = h

-- Once the shutdown flag is set no action resets it.
pub perform_all-shutdown :
    (actions : List Action) (s : State)
    → s.shutdown ≡ true
    → (perform_all actions s).shutdown ≡ true
unfolding perform_all
perform_all-shutdown [] s h = h
perform_all-shutdown (a ∷ rest) s h =
    perform_all-shutdown rest (perform a s) (perform-shutdown a s h)

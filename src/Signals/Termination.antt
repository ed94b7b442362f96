-- ===== src/Signals/Termination.antt =====
-- What a signal does to the commands (pkg/signals/signals.go).
use process_wrapper.Prelude.{
  str_eq, ℕ, ◌≡◌, ◌⊎◌, inl, inr, refl, true, List, [], ◌∷◌, ◌++◌, some, arith, Bool-cases, Str,
}
use process_wrapper.Prelude.Dict.{Dict, lookup}
use process_wrapper.State.{State, values, cancel_routines}
use process_wrapper.Action.{
  Action, Signal, sigterm, sigkill, sigquit, sigint, sigusr1, sigusr2, perform, perform_all, send,
  cancel, write_shutdown,
}
use process_wrapper.Action.Invariant.{perform_all-shutdown}
use process_wrapper.Signals.{
  Notifier, notify, terminate_pids, terminate_process, process_killer, begin_shutdown, cancels,
}

-- A termination signal.
abbrev pub IsGraceful : Signal → Type 0
IsGraceful sigterm = Unit
IsGraceful sigquit = Unit
IsGraceful _ = ⊥

abbrev pub Ends : Signal → Type 0
Ends sigint = Unit
Ends g = IsGraceful g

-- The action stands in the list.
abbrev pub Contains : Action → List Action → Type 0
Contains a [] = ⊥
Contains a (b ∷ bs) = (a ≡ b) ⊎ Contains a bs

pub Contains-append_left :
    (a : Action) (xs ys : List Action) → Contains a xs → Contains a (xs ++ ys)
Contains-append_left a [] ys h = absurd h
Contains-append_left a (x ∷ xs) ys (inl e) = inl e
Contains-append_left a (x ∷ xs) ys (inr h) = inr (Contains-append_left a xs ys h)

pub Contains-append_right :
    (a : Action) (xs ys : List Action) → Contains a ys → Contains a (xs ++ ys)
Contains-append_right a [] ys h = h
Contains-append_right a (x ∷ xs) ys h = inr (Contains-append_right a xs ys h)

perform_all-append :
    (xs ys : List Action) (s : State) → perform_all (xs ++ ys) s ≡ perform_all ys (perform_all xs s)
unfolding perform_all
perform_all-append [] ys s = refl
perform_all-append (x ∷ xs) ys s = perform_all-append xs ys (perform x s)

Contains-shutdown :
    (actions : List Action) (s : State)
    → Contains write_shutdown actions
    → (perform_all actions s).shutdown ≡ true
unfolding perform_all
Contains-shutdown [] s h = absurd h
Contains-shutdown (a ∷ rest) s (inl e) =
    perform_all-shutdown rest (perform a s) (rw (← e) (unfold perform in refl))
Contains-shutdown (a ∷ rest) s (inr h) = Contains-shutdown rest (perform a s) h

-- An interleaving of two lists of actions, each in its own order.
pub data Interleaves : List Action → List Action → List Action → Type 0 where
  none_left : Interleaves [] [] []
  first :
      {a : Action} {xs ys zs : List Action}
      → Interleaves xs ys zs
      → Interleaves (a ∷ xs) ys (a ∷ zs)
  second :
      {a : Action} {xs ys zs : List Action}
      → Interleaves xs ys zs
      → Interleaves xs (a ∷ ys) (a ∷ zs)

pub Contains-Interleaves :
    (a : Action) {xs ys zs : List Action} → Interleaves xs ys zs → Contains a xs → Contains a zs
Contains-Interleaves a none_left h = h
Contains-Interleaves a (first i) (inl e) = inl e
Contains-Interleaves a (first i) (inr h) = inr (Contains-Interleaves a i h)
Contains-Interleaves a (second i) h = inr (Contains-Interleaves a i h)

pub begin_shutdown-write_shutdown : (s : State) → Contains write_shutdown (begin_shutdown s)
unfolding begin_shutdown
begin_shutdown-write_shutdown s =
    inr (Contains-append_right write_shutdown (cancels (cancel_routines s)) _ (inr (inl refl)))

notify-write_shutdown :
    (n : Notifier) (s later : State) (g : Signal)
    → Ends g
    → Contains write_shutdown (notify n s later g)
unfolding notify
notify-write_shutdown n s later sigterm h =
    Contains-append_left _ (begin_shutdown s) _ (begin_shutdown-write_shutdown s)
notify-write_shutdown n s later sigquit h =
    Contains-append_left _ (begin_shutdown s) _ (begin_shutdown-write_shutdown s)
notify-write_shutdown n s later sigint h = inl refl
notify-write_shutdown n s later sigkill h = absurd h
notify-write_shutdown n s later sigusr1 h = absurd h
notify-write_shutdown n s later sigusr2 h = absurd h

-- After the reaction to SIGTERM, SIGQUIT or SIGINT the shutdown flag is set, however the actions of
-- other goroutines are interleaved with it.
pub notify-shutdown :
    (n : Notifier) (s later store : State) (g : Signal) (others actions : List Action)
    → Ends g
    → Interleaves (notify n s later g) others actions
    → (perform_all actions store).shutdown ≡ true
notify-shutdown n s later store g others actions h i =
    Contains-shutdown actions store
      (Contains-Interleaves write_shutdown i (notify-write_shutdown n s later g h))

-- The first action stands in the list, and the second behind it.
abbrev pub Before : Action → Action → List Action → Type 0
Before a b [] = ⊥
Before a b (x ∷ xs) = ((a ≡ x) × Contains b xs) ⊎ Before a b xs

Before-append_right : (a b : Action) (xs ys : List Action) → Before a b ys → Before a b (xs ++ ys)
Before-append_right a b [] ys h = h
Before-append_right a b (x ∷ xs) ys h = inr (Before-append_right a b xs ys h)

Before-append_left : (a b : Action) (xs ys : List Action) → Before a b xs → Before a b (xs ++ ys)
Before-append_left a b [] ys h = absurd h
Before-append_left a b (x ∷ xs) ys (inl (e, c)) = inl (e, Contains-append_left b xs ys c)
Before-append_left a b (x ∷ xs) ys (inr h) = inr (Before-append_left a b xs ys h)

terminate_pids-sends :
    (n : Notifier) (m : Dict ℕ) (name : Str) (pid : ℕ) (b : Action) (rest : List Action)
    → lookup name m ≡ some pid
    → n.find_process pid ≡ true
    → Contains b rest
    → Before (send pid sigterm) b (terminate_pids n (values m) ++ rest)
unfolding lookup terminate_pids
terminate_pids-sends n [] name pid b rest h f c = cc
terminate_pids-sends n ((k, p) ∷ m) name pid b rest h f c = elim (Bool-cases (str_eq k name)) [
  | inl same ↦
      let e : p ≡ pid = ground arith in
      rw (e, f) (inl (refl, Contains-append_right b (terminate_pids n (values m)) rest c))
  | inr other ↦
      let h' : lookup name m ≡ some pid = ground arith in
      let ih = terminate_pids-sends n m name pid b rest h' f c in
      elim (Bool-cases (n.find_process p)) [ inl found ↦ rw found (inr ih) | inr lost ↦ rw lost ih ]
]

terminate_process-sends :
    (n : Notifier) (later : State) (name : Str) (pid : ℕ)
    → lookup name later.pids_map ≡ some pid
    → n.find_process pid ≡ true
    → Before (send pid sigterm) (cancel n.cancel_all) (terminate_process n later)
unfolding terminate_process
terminate_process-sends n later name pid h f =
    terminate_pids-sends n later.pids_map name pid _ (process_killer n) h f
      (unfold process_killer in inr (inr (inl refl)))

-- On SIGTERM and SIGQUIT the process of every command that is registered after the handler's sleep,
-- and that is found, is sent SIGTERM, and the context whose end kills all commands is cancelled
-- after that.
pub notify-terminates :
    (n : Notifier) (s later : State) (g : Signal) (name : Str) (pid : ℕ)
    → IsGraceful g
    → lookup name later.pids_map ≡ some pid
    → n.find_process pid ≡ true
    → Before (send pid sigterm) (cancel n.cancel_all) (notify n s later g)
unfolding notify
notify-terminates n s later sigterm name pid g h f = Before-append_right _ _ (begin_shutdown s) _ (
    Before-append_left _ _ (terminate_process n later) _
      (terminate_process-sends n later name pid h f))
notify-terminates n s later sigquit name pid g h f = Before-append_right _ _ (begin_shutdown s) _ (
    Before-append_left _ _ (terminate_process n later) _
      (terminate_process-sends n later name pid h f))
notify-terminates n s later sigint name pid g h f = absurd g
notify-terminates n s later sigkill name pid g h f = absurd g
notify-terminates n s later sigusr1 name pid g h f = absurd g
notify-terminates n s later sigusr2 name pid g h f = absurd g

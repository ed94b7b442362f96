-- ===== src/Wrapper/Machines.antt =====
-- Predicates that hold of all machines of the wrapper.
use process_wrapper.Prelude.{ℕ, zero, suc, ◌≡◌, List, [], ◌∷◌, some, All}
use process_wrapper.Wrapper.{Machine, machine, set_machine}

pub All-set_machine :
    (P : Machine → Type 0) (i : ℕ) (m' : Machine) (ms : List Machine)
    → All P ms
    → P m'
    → All P (set_machine i m' ms)
All-set_machine P i m' [] h p = tt
All-set_machine P zero m' (m ∷ ms) h p = (p, h.1)
All-set_machine P (suc i) m' (m ∷ ms) h p = (h.0, All-set_machine P i m' ms h.1 p)

pub All-machine :
    (P : Machine → Type 0) (i : ℕ) (m : Machine) (ms : List Machine)
    → All P ms
    → machine i ms ≡ some m
    → P m
All-machine P i m [] h e = cc
All-machine P zero m (n ∷ ms) h e = let same : n ≡ m = cc in rw (← same) h.0
All-machine P (suc i) m (n ∷ ms) h e = All-machine P i m ms h.1 e

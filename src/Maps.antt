-- ===== src/Maps.antt =====
-- The maps of Go in `State` (pkg/process/health.go) without their order: association lists up to what
-- they hold for each key, as a quotient. A loop over a map meets its entries in any order, so what it
-- computes is a function of the map only if it is a function on the quotient.
pub mod Counts
pub mod Reports
mod Examples
use mathlib.Core.Quot
use mathlib.Core.Quot.{Quot}
use mathlib.Core.Bool.{Bool-set}
use process_wrapper.Prelude.{◌≡◌, refl, ◌↔◌, ◌≢◌, Bool, true, false, Str, some, ◌∙◌, sym, arith}
use process_wrapper.Prelude.Dict.{Dict, IsDict, lookup}
use process_wrapper.State.{State, all_healthy}
use process_wrapper.State.Health.{all_healthy_sound, all_healthy_complete}
use process_wrapper.Action.Invariant.{IsWellFormed}

abbrev pub Entries {ℓ} : Type ℓ → Type ℓ
Entries V = (m : Dict V) × IsDict m

abbrev pub SameMap {ℓ} : {V : Type ℓ} → Entries V → Entries V → Type ℓ
SameMap m n = (k : Str) → lookup k m.0 ≡ lookup k n.0

abbrev pub GoMap {ℓ} : Type ℓ → Type ℓ
GoMap V = Quot (SameMap {V = V})

abbrev pub map_of {ℓ} : {V : Type ℓ} → (m : Dict V) → IsDict m → GoMap V
map_of m d = Quot.mk (m, d)

pub same_tests : (a b : Bool) → ((a ≡ true) ↔ (b ≡ true)) → a ≡ b
same_tests true b h = sym (h.0 refl)
same_tests false true h = h.1 refl
same_tests false false h = refl

pub all_healthy-SameMap : (m n : Entries Bool) → SameMap m n → all_healthy m.0 ≡ all_healthy n.0
all_healthy-SameMap m n h = same_tests (all_healthy m.0) (all_healthy n.0) (
  (λ e. all_healthy_complete n.0 n.1 (λ k g. all_healthy_sound m.0 k e (h k ∙ g))),
  λ e. all_healthy_complete m.0 m.1 (λ k g. all_healthy_sound n.0 k e (sym (h k) ∙ g)),
)

-- The loop of `Readiness` and `Liveness`, on the map.
unfoldable pub healthy : GoMap Bool → Bool
healthy = Quot.lift Bool-set (λ m. all_healthy m.0) all_healthy-SameMap

-- The statuses of a state, as a map.
abbrev pub statuses : (s : State) → IsWellFormed s → GoMap Bool
statuses s w = map_of s.status_map w.status

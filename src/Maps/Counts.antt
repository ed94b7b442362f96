-- ===== src/Maps/Counts.antt =====
-- The number of unhealthy processes does not depend on the order of the map (`CreateReadinessFile`,
-- pkg/process/health.go).
use mathlib.Core.Quot
use native.Mathlib.Nat.{ℕ_set}
use mathlib.Core.Bool.{Bool-set}
use process_wrapper.Prelude.{
  ℕ, ◌+◌, ◌≡◌, refl, Bool, [], ◌∷◌, none, some, Str, str_eq_iff, str_eq_refl, arith, if◌then◌else◌,
  sym, ◌∙◌, ap,
}
use process_wrapper.Prelude.Dict.{Dict, IsDict, lookup, delete, lookup-delete, delete-IsDict}
use process_wrapper.Endpoints.{count_unhealthy, is_nil}
use process_wrapper.Maps.{Entries, SameMap, GoMap}

delete-absent : (k : Str) (m : Dict Bool) → lookup k m ≡ none → delete k m ≡ m
unfolding lookup delete
delete-absent k [] h = refl
delete-absent k ((j, w) ∷ m) h = ground (arith, delete-absent k m)

-- What a deleted entry counts.
abbrev counts : Bool → ℕ
counts status = if status then 0 else 1

count_unhealthy-delete :
    (k : Str) (v : Bool) (m : Dict Bool)
    → IsDict m
    → lookup k m ≡ some v
    → count_unhealthy m ≡ count_unhealthy (delete k m) + counts v
unfolding lookup delete count_unhealthy
count_unhealthy-delete k v [] d h = absurd cc
count_unhealthy-delete k v ((j, w) ∷ m) d h =
    ground (arith, str_eq_iff j k, count_unhealthy-delete k v m d.1, delete-absent j m d.0)

same-nil : (n : Dict Bool) → ((k : Str) → none ≡ lookup k n) → n ≡ []
unfolding lookup
same-nil [] h = refl
same-nil ((j, w) ∷ n) h = absurd (ground (arith, h j, str_eq_refl j))

same-tail :
    (k : Str) (v : Bool) (m n : Dict Bool)
    → IsDict ((k, v) ∷ m)
    → ((j : Str) → lookup j ((k, v) ∷ m) ≡ lookup j n)
    → (j : Str) → lookup j m ≡ lookup j (delete k n)
unfolding lookup
same-tail k v m n d h j = ground (arith, h j, str_eq_iff k j, lookup-delete k j n)

pub same-count :
    (m n : Dict Bool)
    → IsDict m
    → IsDict n
    → ((k : Str) → lookup k m ≡ lookup k n)
    → count_unhealthy m ≡ count_unhealthy n
unfolding count_unhealthy lookup
same-count [] n d e h = ap count_unhealthy (sym (same-nil n (λ k. h k)))
same-count ((k, v) ∷ m) n d e h =
    let rest = same-count m (delete k n) d.1 (delete-IsDict k n e) (same-tail k v m n d h) in
    let there : lookup k n ≡ some v = sym (h k) ∙ ground (arith, str_eq_refl k) in
    ground (arith, rest, count_unhealthy-delete k v n e there)

-- The number of unhealthy processes of `CreateReadinessFile`, on the map.
unfoldable pub unhealthy : GoMap Bool → ℕ
unhealthy = Quot.lift ℕ_set (λ m. count_unhealthy m.0) (λ m n h. same-count m.0 n.0 m.1 n.1 h)

pub is_nil-SameMap : (m n : Entries Bool) → SameMap m n → is_nil m.0 ≡ is_nil n.0
unfolding lookup
is_nil-SameMap ([], d) ([], e) h = refl
is_nil-SameMap ([], d) ((k, v) ∷ n, e) h = absurd (ground (arith, h k, str_eq_refl k))
is_nil-SameMap ((k, v) ∷ m, d) ([], e) h = absurd (ground (arith, h k, str_eq_refl k))
is_nil-SameMap ((k, v) ∷ m, d) ((j, w) ∷ n, e) h = refl

-- Whether the map has no entry.
unfoldable pub is_empty_map : GoMap Bool → Bool
is_empty_map = Quot.lift Bool-set (λ m. is_nil m.0) is_nil-SameMap

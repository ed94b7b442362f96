-- ===== src/Prelude/Dict.antt =====
-- Go maps with string keys, as association lists with one entry for each key.
use mathlib.Core.Path.{◌≡◌, refl}
use mathlib.Core.Option.{Option, none, some}
use mathlib.Core.List.{List, [], ◌∷◌}
use native.Mathlib.Omega.{arith}
use process_wrapper.Prelude.Tests.{if◌then◌else◌}
use process_wrapper.Prelude.Text.{Str, str_eq, str_eq_iff, str_eq_refl}

abbrev pub Dict {ℓ} : Type ℓ → Type ℓ
Dict V = List (Str × V)

module _ {ℓ} {V : Type ℓ} where
  -- `v, ok := m[k]`
  unfoldable pub lookup : Str → Dict V → Option V
  unfolding str_eq
  lookup k [] = none
  lookup k ((j, v) ∷ m) = if str_eq j k then some v else lookup k m

  -- `m[k] = v`
  unfoldable pub insert : Str → V → Dict V → Dict V
  unfolding str_eq
  insert k v [] = (k, v) ∷ []
  insert k v ((j, w) ∷ m) = if str_eq j k then (k, v) ∷ m else (j, w) ∷ insert k v m

  -- `delete(m, k)`
  unfoldable pub delete : Str → Dict V → Dict V
  unfolding str_eq
  delete k [] = []
  delete k ((j, w) ∷ m) = if str_eq j k then delete k m else (j, w) ∷ delete k m

module _ {ℓ} {V : Type ℓ} where
  -- `m[k]`, with the zero value of the type for a missing key
  unfoldable pub lookup_or : V → Str → Dict V → V
  unfolding lookup
  lookup_or d k m = elim (lookup k m) [ none ↦ d | some v ↦ v ]

  -- No key has two entries.
  abbrev pub IsDict : Dict V → Type ℓ
  IsDict [] = Unit
  IsDict ((k, v) ∷ m) = (lookup k m ≡ none) × IsDict m

  pub lookup-insert :
      (k j : Str) (v : V) (m : Dict V)
      → lookup j (insert k v m) ≡ (if str_eq k j then some v else lookup j m)
  unfolding lookup insert
  lookup-insert k j v [] = refl
  lookup-insert k j v ((i, w) ∷ m) =
      ground (arith, str_eq_iff k j, str_eq_iff i k, str_eq_iff i j, lookup-insert k j v m)

  pub lookup-delete :
      (k j : Str) (m : Dict V) → lookup j (delete k m) ≡ (if str_eq k j then none else lookup j m)
  unfolding lookup delete
  lookup-delete k j [] = ground arith
  lookup-delete k j ((i, w) ∷ m) =
      ground (arith, str_eq_iff k j, str_eq_iff i k, str_eq_iff i j, lookup-delete k j m)

module _ {ℓ} {V : Type ℓ} where
  pub lookup-insert_self : (k : Str) (v : V) (m : Dict V) → lookup k (insert k v m) ≡ some v
  lookup-insert_self k v m = simp (lookup-insert, str_eq_refl)

  pub insert-IsDict : (k : Str) (v : V) (m : Dict V) → IsDict m → IsDict (insert k v m)
  unfolding insert lookup
  insert-IsDict k v [] h = ground arith
  insert-IsDict k v ((j, w) ∷ m) h =
      ground (arith, str_eq_iff j k, str_eq_iff k j, insert-IsDict k v m, lookup-insert k j v m)

  pub delete-IsDict : (k : Str) (m : Dict V) → IsDict m → IsDict (delete k m)
  unfolding delete lookup
  delete-IsDict k [] h = h
  delete-IsDict k ((j, w) ∷ m) h =
      ground (arith, str_eq_iff j k, str_eq_iff k j, delete-IsDict k m, lookup-delete k j m)

  pub lookup_or-insert :
      (d : V) (k j : Str) (v : V) (m : Dict V)
      → lookup_or d j (insert k v m) ≡ (if str_eq k j then v else lookup_or d j m)
  unfolding lookup_or
  lookup_or-insert d k j v m = ground (arith, lookup-insert k j v m)

-- ===== src/Lease/OneKey.antt =====
-- An etcd with one key, for the tests of the shared lock.
use process_wrapper.Prelude.{
  ℕ, ◌+◌, ◌==◌, ◌≡◌, refl, Bool, true, false, Option, none, some, is_some, arith,
}
use process_wrapper.Prelude.Int.{ℤ, pos, negsuc}
use process_wrapper.Lease.Mutual.{IsKeeping}
use process_wrapper.Lease.{Etcd, IsTransactional, Others}

-- The lease that the key is bound to, and the next lease.
pub record OneKey : Type 0 where
  pub bound : Option ℕ
  pub next : ℕ

abbrev create_one : ℕ → OneKey → Option ℕ → OneKey × Option Bool
create_one id s none = (record s { bound = some id }, some true)
create_one id s (some other) = (s, some false)

abbrev is_bound_to : ℤ → Option ℕ → Bool
is_bound_to id none = false
is_bound_to (pos n) (some m) = n == m
is_bound_to (negsuc n) (some m) = false

abbrev pub etcd : Etcd
etcd = record {
  Store = OneKey;
  get = λ key s. some (is_some s.bound);
  grant = λ ttl s. (record s { next = s.next + 1 }, some s.next);
  create = λ key value id s. create_one id s s.bound;
  keep_alive = λ id s. (s, is_bound_to id s.bound);
  holder = λ key s. s.bound;
}

create_one-was_free :
    (id : ℕ) (s : OneKey) (b : Option ℕ) → (create_one id s b).1 ≡ some true → b ≡ none
create_one-was_free id s none h = refl
create_one-was_free id s (some m) h = ground arith

create_one-is_bound :
    (id : ℕ) (s : OneKey) (b : Option ℕ)
    → (create_one id s b).1 ≡ some true
    → (create_one id s b).0.bound ≡ some id
create_one-is_bound id s none h = refl
create_one-is_bound id s (some m) h = ground arith

pub etcd-IsTransactional : IsTransactional etcd
etcd-IsTransactional = record {
  was_free = λ k v id s h. create_one-was_free id s s.bound h;
  is_bound = λ k v id s h. create_one-is_bound id s s.bound h;
}

pub etcd-IsKeeping : IsKeeping etcd
etcd-IsKeeping = record { grants = λ ttl key id s h. h; renews = λ lease key id s h. h }

abbrev pub idle : Others etcd
idle i s = s

abbrev pub free : OneKey
free = record { bound = none; next = 5 }

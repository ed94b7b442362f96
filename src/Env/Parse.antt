-- ===== src/Env/Parse.antt =====
-- `parseEnv` splits at the first `=` (pkg/process/process.go).
use process_wrapper.Prelude.{◌≡◌, ◌≢◌, refl, ◌↔◌, [], ◌∷◌, ◌++◌, some, Str, arith, All}
use process_wrapper.Env.{parse_env}

abbrev pub IsKey : Str → Type 0
IsKey k = All (λ c. c ≢ b'=') k

parse_env_sound : (e k v : Str) → parse_env e ≡ some (k, v) → (e ≡ k ++ (b'=' ∷ v)) × IsKey k
unfolding parse_env
parse_env_sound [] k v h = cc
parse_env_sound (c ∷ e) [] v h = ground arith
parse_env_sound (c ∷ e) (d ∷ k) v h = ground (arith, parse_env_sound e k v)

pub parse_env-append : (k v : Str) → IsKey k → parse_env (k ++ (b'=' ∷ v)) ≡ some (k, v)
unfolding parse_env
parse_env-append [] v h = refl
parse_env-append (c ∷ k) v h = ground (arith, parse_env-append k v h.1)

-- `parseEnv` returns a key and a value exactly when the text is the key, a `=` and the value, with
-- no `=` in the key.
pub parse_env_iff : (e k v : Str) → (parse_env e ≡ some (k, v)) ↔ ((e ≡ k ++ (b'=' ∷ v)) × IsKey k)
parse_env_iff e k v = (parse_env_sound e k v, λ h. rw h.0 (parse_env-append k v h.1))

-- ===== src/Config/Examples.antt =====
-- Tests of the loaders.
use process_wrapper.Prelude.{
  ◌≡◌, refl, true, false, [], ◌∷◌, some, none, codes, split, contains_text,
}
use process_wrapper.Prelude.Dict.{insert}
use process_wrapper.Config.{Decoder, load_file, load_json_env, sidecar_envs}
use process_wrapper.Sample.{web_command}

-- It decodes the empty text only.
abbrev decoder : Decoder
decoder [] = ([], true)
decoder text = (web_command ∷ [], false)

missing_file : load_file decoder none ≡ some []
unfolding load_file
missing_file = refl

broken_file : load_file decoder (some (codes "x")) ≡ none
unfolding load_file
broken_file = refl

-- An error of the decoder does not stop `JSONEnv`.
broken_env : load_json_env decoder (λ name. name) ≡ web_command ∷ []
unfolding load_json_env
broken_env = refl

-- A value with `=` in it is dropped.
sidecars :
    sidecar_envs (codes "SIDECAR_A=1" ∷ codes "SIDECAR_B=x=y" ∷ codes "HOME=/" ∷ []) []
    ≡ (codes "SIDECAR_A", codes "1") ∷ []
unfolding sidecar_envs split contains_text insert
sidecars = refl

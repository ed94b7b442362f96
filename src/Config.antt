-- ===== src/Config.antt =====
-- Where the configuration comes from: the loaders of pkg/config (file.go, json_env.go, string.go) and
-- the durations of pkg/process/duration.go. The YAML and JSON decoders, the printing and parsing of
-- durations, files and variables are arguments.
pub mod Durations
mod Examples
use process_wrapper.Prelude.{
  ◌==◌, ℕ, Bool, true, false, List, [], ◌∷◌, Option, none, some, Str, codes, split, contains_text,
  if◌then◌else◌,
}
use process_wrapper.Prelude.Int.{ℤ}
use process_wrapper.Prelude.Dict.{Dict, insert}
use process_wrapper.Clock.{Duration}
use process_wrapper.Command.{Command}

-- A decoder: what it leaves in the slice of commands, and whether it is free of error.
abbrev pub Decoder : Type 0
Decoder = Str → List Command × Bool

abbrev env_prefix : Str
env_prefix = codes "SIDECAR"

-- The entry of one variable in the map of `File`: split at every `=`, it has two parts, and its name
-- holds the prefix.
abbrev sidecar_env : List Str → Dict Str → Dict Str
sidecar_env (k ∷ v ∷ []) envs = if contains_text env_prefix k then insert k v envs else envs
sidecar_env _ envs = envs

-- The map `Env` of a `File`, which is only logged.
unfoldable pub sidecar_envs : List Str → Dict Str → Dict Str
unfolding contains_text split
sidecar_envs [] envs = envs
sidecar_envs (e ∷ environ) envs = sidecar_envs environ (sidecar_env (split b'=' e) envs)

abbrev contents : Option Str → Str
contents none = []
contents (some text) = text

-- `none` is a `log.Fatalf`.
abbrev unless_fatal : List Command × Bool → Option (List Command)
unless_fatal (commands, true) = some commands
unless_fatal (commands, false) = none

-- `File.Load`: a file that cannot be read is decoded as an empty one.
unfoldable pub load_file : Decoder → Option Str → Option (List Command)
load_file decode file = unless_fatal (decode (contents file))

-- `JSONEnv.Load`: it reads `CONFIG`, whatever the field `Env` says, and goes on after an error.
unfoldable pub load_json_env : Decoder → (Str → Str) → List Command
load_json_env decode getenv = (decode (getenv (codes "CONFIG"))).0

-- `String.Load`
unfoldable pub load_string : Decoder → Str → List Command
load_string decode text = (decode text).0

-- What `json.Unmarshal` makes of a text, as far as `UnmarshalJSON` tells it apart. A number is given
-- cut to an integer.
pub data JsonValue : Type 0 where
  number : ℤ → JsonValue
  string : Str → JsonValue
  other_value : JsonValue

-- The codecs that durations go through.
pub record Codecs : Type 0 where
  pub encode_json : Str → Str
  pub decode_json : Str → Option JsonValue
  pub encode_yaml : Str → Str
  pub decode_yaml : Str → Option Str
  -- `time.Duration.String` and `time.ParseDuration`
  pub print_duration : Duration → Str
  pub parse_duration : Str → Option Duration

module _ (k : Codecs) where
  -- `MarshalJSON`
  unfoldable pub marshal_json : Duration → Str
  marshal_json d = k.encode_json (k.print_duration d)

  abbrev parsed : Option Duration → Duration × Bool
  parsed none = (ℤ.pos 0, false)
  parsed (some d) = (d, true)

  abbrev of_value : Duration → JsonValue → Duration × Bool
  of_value old (number n) = (n, true)
  of_value old (string text) = parsed (k.parse_duration text)
  of_value old other_value = (old, false)

  -- `UnmarshalJSON` into a duration that holds `old`: the duration afterwards, and whether the call is
  -- free of error.
  unfoldable pub unmarshal_json : Str → Duration → Duration × Bool
  unmarshal_json text old = elim (k.decode_json text) [
    | none ↦ (old, false)
    | some value ↦ of_value old value
  ]

  -- `MarshalYAML`
  unfoldable pub marshal_yaml : Duration → Str
  marshal_yaml d = k.encode_yaml (k.print_duration d)

  -- `UnmarshalYAML`
  unfoldable pub unmarshal_yaml : Str → Duration → Duration × Bool
  unmarshal_yaml text old = elim (k.decode_yaml text) [
    | none ↦ (old, false)
    | some tm ↦ elim (k.parse_duration tm) [ none ↦ (old, false) | some d ↦ (d, true) ]
  ]

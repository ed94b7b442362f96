-- ===== src/Config/Durations.antt =====
-- Durations written and read back (pkg/process/duration.go).
use process_wrapper.Prelude.{◌≡◌, refl, true, some, Str}
use process_wrapper.Clock.{Duration}
use process_wrapper.Config.{
  Codecs, string, marshal_json, unmarshal_json, marshal_yaml, unmarshal_yaml,
}

-- The documented behaviour of the codecs: a text, and a duration, are read back as written.
pub record AreFaithful (k : Codecs) : Type 0 where
  pub json : (text : Str) → k.decode_json (k.encode_json text) ≡ some (string text)
  pub yaml : (text : Str) → k.decode_yaml (k.encode_yaml text) ≡ some text
  pub duration : (d : Duration) → k.parse_duration (k.print_duration d) ≡ some d

-- A duration that is marshalled to JSON or to YAML and unmarshalled again is the same, without error,
-- whatever the target held before.
pub unmarshal-marshal :
    (k : Codecs) (d old : Duration)
    → AreFaithful k
    → (unmarshal_json k (marshal_json k d) old ≡ (d, true))
      × (unmarshal_yaml k (marshal_yaml k d) old ≡ (d, true))
unfolding unmarshal_json marshal_json unmarshal_yaml marshal_yaml
unmarshal-marshal k d old f = (
  rw (unmarshal_json, marshal_json, f.json (k.print_duration d), f.duration d) refl,
  rw (unmarshal_yaml, marshal_yaml, f.yaml (k.print_duration d), f.duration d) refl,
)

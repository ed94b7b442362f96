-- ===== src/Registry/Examples.antt =====
-- Tests of the metrics.
use process_wrapper.Prelude.{◌≡◌, refl, All, not, ◌↔◌, true, Str, [], ◌∷◌}
use process_wrapper.Prelude.Int.{pos, negsuc, ltb_ℤ}
use process_wrapper.Action.{restarted}
use process_wrapper.Command.{to_string}
use process_wrapper.Registry.{add_cpu, set_heart_beat_period}
use process_wrapper.Registry.Accepted.{IsAccepted, other_updates, other_updates-IsAccepted}
use process_wrapper.Sample.{web_command}
use process_wrapper.Sample.Hundredths.{hundredths, client, client-IsPrometheus}

-- One byte that no text in UTF-8 has.
abbrev not_utf8 : Str
not_utf8 = 255 ∷ []

other_updates-IsAccepted_example :
    All (IsAccepted client) (other_updates client web_command restarted (negsuc 0) (negsuc 7))
    × (client.panics (add_cpu web_command (negsuc 7)) ≡ ltb_ℤ (negsuc 7) (pos 0))
    × (client.panics (set_heart_beat_period not_utf8 (negsuc 7)) ≡ not (client.valid not_utf8))
    × (IsAccepted client (set_heart_beat_period not_utf8 (negsuc 7))
        ↔ (client.valid not_utf8 ≡ true))
other_updates-IsAccepted_example =
    other_updates-IsAccepted client web_command restarted (negsuc 0) not_utf8 (negsuc 7)
      client-IsPrometheus refl (unfold to_string in refl)

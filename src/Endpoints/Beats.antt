-- ===== src/Endpoints/Beats.antt =====
-- Heartbeats over HTTP (pkg/process/health.go).
use process_wrapper.Prelude.{◌≡◌, refl, false, Str, is_empty, str_eq, if◌then◌else◌}
use process_wrapper.Prelude.Dict.{lookup_or-insert}
use process_wrapper.Clock.{Time}
use process_wrapper.State.{State, get_heart_beat, set_heart_beat}
use process_wrapper.Action.{perform, perform_all}
use process_wrapper.Http.{no_response, write}
use process_wrapper.Endpoints.{get, patch, heartbeat_endpoint}

get_heart_beat-set_heart_beat :
    (k j : Str) (t : Time) (s : State)
    → get_heart_beat j (set_heart_beat k t s) ≡ (if str_eq k j then t else get_heart_beat j s)
unfolding get_heart_beat set_heart_beat
get_heart_beat-set_heart_beat k j t s = lookup_or-insert 0 k j t s.heart_beat

-- A GET of /heartbeat answers with the time of the last PATCH of the same name, and a PATCH of one
-- name does not change the answers for another.
pub heartbeat_endpoint-get_patch :
    (print_beat : Str → Time → Str) (k j : Str) (t now : Time) (s : State)
    → is_empty k ≡ false
    → is_empty j ≡ false
    → (heartbeat_endpoint print_beat get j now
        (perform_all (heartbeat_endpoint print_beat patch k t s).1 s)).0
      ≡ write (print_beat j (if str_eq k j then t else get_heart_beat j s)) no_response
unfolding heartbeat_endpoint perform_all perform
heartbeat_endpoint-get_patch print_beat k j t now s hk hj =
    rw (hk, hj, get_heart_beat-set_heart_beat k j t s) refl

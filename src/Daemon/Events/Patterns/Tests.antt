-- ===== src/Daemon/Events/Patterns/Tests.antt =====
-- Patterns at concrete input.
use ppz.Base.{
  ◌+◌, ◌*◌, ◌^◌, ◌≡◌, ◌≢◌, ◌↔◌, refl, List, [], ◌∷◌, Text, text_eq, has_prefix, utf8, encode_rune,
  Time, second, elapsed, time_unix, zero_time,
}
use ppz.Daemon.Events.{NatsEvent, contains}
use ppz.Daemon.Events.Patterns.{
  storm, kick, is_kind, caller_of, unique_callers, scan_swaps, bursts, detect_burst_swap_storm,
  to_lower, is_violation, near_expiry, kicks, detect_post_rotation_auth_violation,
}
use ppz.Daemon.Events.Patterns.Storms.{HasStorm, storm_iff}

abbrev noon : Time
noon = 2 ^ 66

abbrev event : Text → Time → Text → NatsEvent
event kind at reason = record {
  v = 1;
  kind = kind;
  at = at;
  caller = [];
  nc_id = [];
  jwt_exp = 5;
  reason = reason;
}

-- Three swaps in two seconds with a disconnect in between, and one long after.
abbrev events : List NatsEvent
events =
    event (utf8 "swap") noon []
    ∷ event (utf8 "disconnect") noon []
    ∷ event (utf8 "swap") (noon + second) []
    ∷ event (utf8 "swap") (noon + 2 * second) []
    ∷ event (utf8 "swap") (noon + 9 * second) []
    ∷ []

one_storm :
    detect_burst_swap_storm events
    ≡ record {
      name = utf8 "burst-swap-storm";
      at = noon;
      detail = storm 3 (2 * second) (utf8 "?" ∷ []);
    }
      ∷ []
unfolding detect_burst_swap_storm bursts scan_swaps unique_callers caller_of is_kind elapsed text_eq
    utf8 encode_rune
one_storm = refl

storm_iff_example : (detect_burst_swap_storm events ≢ []) ↔ HasStorm events
storm_iff_example = storm_iff events

kicked : NatsEvent
kicked = event (utf8 "disconnect") (zero_time + 62135596800 * second + 3 * second) []

refused : NatsEvent
refused = event (utf8 "closed") noon (utf8 "Authorization Violation")

one_kick :
    detect_post_rotation_auth_violation (kicked ∷ refused ∷ [])
    ≡ record {
      name = utf8 "post-rotation-auth-violation";
      at = kicked.at;
      detail = kick kicked.at 5;
    }
      ∷ []
unfolding detect_post_rotation_auth_violation kicks is_violation near_expiry to_lower contains
    is_kind elapsed time_unix zero_time text_eq has_prefix utf8 encode_rune kicked refused
one_kick = refl

-- ===== src/Daemon/Events/Patterns.antt =====
-- internal/daemon/nats_event_patterns.go: what `ppz diagnostics` warns about.
pub mod Storms
pub mod Sorted
mod Tests
use ppz.Base.{
  ℕ, zero, suc, ◌+◌, ◌*◌, ◌%◌, ◌^◌, Bool, true, false, not, ◌&&◌, ◌||◌, Option, none, some, List,
  [], ◌∷◌, ◌++◌, if◌then◌else◌, nat_eq, ltb, leb, any, map, take, last_or, Text, text_eq,
  has_prefix, utf8, Time, Duration, second, elapsed, time_unix,
}
use ppz.Daemon.Events.{NatsEvent, contains}

-- What the text of a hit is made of.
pub data Detail : Type 0 where
  storm : ℕ → Duration → List Text → Detail
  kick : Time → ℕ → Detail

pub record PatternHit : Type 0 where
  pub name : Text
  pub at : Time
  pub detail : Detail

abbrev pub burst_swap_window : Duration
burst_swap_window = 2 * second

abbrev pub burst_swap_min : ℕ
burst_swap_min = 3

unfoldable pub is_kind : Text → NatsEvent → Bool
is_kind kind ev = text_eq ev.kind kind

unfoldable pub caller_of : NatsEvent → Text
unfolding utf8
caller_of ev = if text_eq ev.caller [] then utf8 "?" else ev.caller

-- `seen` holds what was put out.
unfoldable pub unique_callers : List Text → List NatsEvent → List Text
unique_callers seen [] = []
unique_callers seen (ev ∷ events) =
    let c = caller_of ev in
    if any (λ t. text_eq t c) seen
    then unique_callers seen events
    else c ∷ unique_callers (c ∷ seen) events

-- The scan forward: `j` is the offset of the next event from the first swap, `end` that of the last one.
unfoldable pub scan_swaps : Time → ℕ → ℕ → ℕ → List NatsEvent → ℕ × ℕ
unfolding utf8
scan_swaps start j count end [] = (count, end)
scan_swaps start j count end (ev ∷ events) =
    let swap = is_kind (utf8 "swap") ev in
    let rest =
      scan_swaps start (suc j) (if swap then suc count else count) (if swap then j else end)
        events in
    if ltb burst_swap_window (elapsed ev.at start) then (count, end) else rest

-- The loop, which first passes over the rest of the last cluster.
unfoldable pub bursts : ℕ → List NatsEvent → List PatternHit
unfolding utf8
bursts passed [] = []
bursts (suc passed) (ev ∷ events) = bursts passed events
bursts zero (ev ∷ events) =
    let (count, end) = scan_swaps ev.at 1 1 0 events in
    let is_storm = is_kind (utf8 "swap") ev && leb burst_swap_min count in
    let rest = bursts (if is_storm then end else 0) events in
    let cluster = ev ∷ take end events in
    if is_storm
    then record {
      name = utf8 "burst-swap-storm";
      at = ev.at;
      detail =
          storm count (elapsed (last_or (map (λ e. e.at) cluster) ev.at) ev.at)
            (unique_callers [] cluster);
    }
      ∷ rest
    else rest

unfoldable pub detect_burst_swap_storm : List NatsEvent → List PatternHit
detect_burst_swap_storm events = bursts 0 events

abbrev pub auth_violation_proximity : Duration
auth_violation_proximity = 60 * second

-- `strings.ToLower` as far as the letters of ASCII go, into which two characters beyond ASCII also turn.
-- The number counts the bytes of such a character that are still to be passed over.
unfoldable pub to_lower : ℕ → Text → Text
to_lower passed [] = []
to_lower (suc passed) (c ∷ s) = to_lower passed s
to_lower zero (c ∷ s) =
    let dotted = has_prefix (c ∷ s) (196 ∷ 176 ∷ []) in
    let kelvin = has_prefix (c ∷ s) (226 ∷ 132 ∷ 170 ∷ []) in
    (if dotted
      then b'i'
      else if kelvin
      then b'k'
      else if leb b'A' c && leb c b'Z'
      then c + 32
      else c)
    ∷ to_lower (if dotted then 1 else if kelvin then 2 else 0) s

unfoldable pub is_violation : NatsEvent → Bool
unfolding utf8
is_violation ev =
    is_kind (utf8 "closed") ev && contains (to_lower 0 ev.reason) (utf8 "authorization violation")

unfoldable pub near_expiry : NatsEvent → Bool
near_expiry prior =
    not (nat_eq prior.jwt_exp 0)
    && (not (ltb auth_violation_proximity (elapsed prior.at (time_unix prior.jwt_exp)))
        && not (ltb auth_violation_proximity (elapsed (time_unix prior.jwt_exp) prior.at)))

-- `prior` is the last disconnect so far.
unfoldable pub kicks : Option NatsEvent → List NatsEvent → List PatternHit
unfolding utf8
kicks prior [] = []
kicks prior (ev ∷ events) =
    let rest = kicks (if is_kind (utf8 "disconnect") ev then some ev else prior) events in
    elim prior [
      | none ↦ rest
      | some d ↦
          if is_violation ev && near_expiry d
          then record {
            name = utf8 "post-rotation-auth-violation";
            at = d.at;
            detail = kick d.at d.jwt_exp;
          }
            ∷ rest
          else rest
    ]

unfoldable pub detect_post_rotation_auth_violation : List NatsEvent → List PatternHit
detect_post_rotation_auth_violation events = kicks none events

-- One run of the inner loop, on the hits before it from the last to the first.
unfoldable pub sink : PatternHit → List PatternHit → List PatternHit
sink h [] = h ∷ []
sink h (x ∷ out) = if ltb h.at x.at then x ∷ sink h out else h ∷ x ∷ out

unfoldable pub sort_hits : List PatternHit → List PatternHit → List PatternHit
sort_hits out [] = out
sort_hits out (h ∷ hits) = sort_hits (sink h out) hits

unfoldable pub reverse_onto : List PatternHit → List PatternHit → List PatternHit
reverse_onto acc [] = acc
reverse_onto acc (h ∷ hits) = reverse_onto (h ∷ acc) hits

unfoldable pub detect_patterns : List NatsEvent → List PatternHit
detect_patterns events =
    reverse_onto []
      (sort_hits [] (detect_burst_swap_storm events ++ detect_post_rotation_auth_violation events))

-- ===== src/Daemon/Events.antt =====
-- internal/daemon/nats_events.go: the ring of connection events, and the drops that `ppz status`
-- counts in it.
pub mod Ring
pub mod Drops
pub mod Retired
pub mod Patterns
mod Tests
use ppz.Base.{
  ℕ, zero, suc, ◌+◌, ◌-◌, ◌*◌, ◌^◌, Bool, true, false, not, ◌&&◌, ◌||◌, Option, none, some, List,
  [], ◌∷◌, ◌++◌, if◌then◌else◌, nat_eq, ltb, leb, length, Text, text_eq, has_prefix, utf8, Time,
  Duration, second, add, elapsed, is_nonpositive,
}

-- `NATSEvent`, with its `Type` as `kind`.
pub record NatsEvent : Type 0 where
  pub v : ℕ
  pub kind : Text
  pub at : Time
  pub caller : Text
  pub nc_id : Text
  pub jwt_exp : ℕ
  pub reason : Text

abbrev pub schema_version : ℕ
schema_version = 1

abbrev pub ring_cap : ℕ
ring_cap = 256

-- The capacity is an int, kept as its two's complement.
pub record EventRing : Type 0 where
  pub events : List NatsEvent
  pub cap : ℕ

unfoldable pub new_ring : ℕ → EventRing
new_ring cap = record { events = []; cap = if is_nonpositive cap then ring_cap else cap }

unfoldable pub stamp : NatsEvent → NatsEvent
stamp ev = if nat_eq ev.v 0 then record ev { v = schema_version } else ev

module _ {A : Type 0} where
  -- Go's `copy`: as many items as both have.
  unfoldable pub copy : List A → List A → List A
  copy [] src = []
  copy (x ∷ dst) [] = x ∷ dst
  copy (x ∷ dst) (y ∷ src) = y ∷ copy dst src

  abbrev pub tail : List A → List A
  tail [] = []
  tail (x ∷ xs) = xs

  -- `xs[i] = v`; out of range is a panic.
  unfoldable pub set : List A → ℕ → A → Option (List A)
  set [] i v = none
  set (x ∷ xs) zero v = some (v ∷ xs)
  set (x ∷ xs) (suc i) v = elim (set xs i v) [ none ↦ none | some ys ↦ some (x ∷ ys) ]

  abbrev pub get_elem? : List A → ℕ → Option A
  get_elem? [] i = none
  get_elem? (x ∷ xs) zero = some x
  get_elem? (x ∷ xs) (suc i) = get_elem? xs i

-- `none` is a panic.
unfoldable pub append : NatsEvent → EventRing → Option EventRing
append ev r =
    if ltb (length r.events) r.cap
    then some (record r { events = r.events ++ stamp ev ∷ [] })
    else elim (set (copy r.events (tail r.events)) (length r.events - 1) (stamp ev)) [
      | none ↦ none
      | some events ↦ some (record r { events = events })
    ]

unfoldable pub swap_reason : Text → Text → Text
unfolding utf8
swap_reason old_id new_id = utf8 "old=" ++ (old_id ++ (utf8 " new=" ++ new_id))

-- `strings.Contains`.
unfoldable pub contains : Text → Text → Bool
contains [] sub = has_prefix [] sub
contains (c ∷ s) sub = has_prefix (c ∷ s) sub || contains s sub

unfoldable pub swap_reason_retired : Text → Text → Bool
unfolding contains utf8
swap_reason_retired reason nc_id = contains reason (utf8 "old=" ++ (nc_id ++ utf8 " "))

abbrev pub swap_drop_attribution_window : Duration
swap_drop_attribution_window = 5 * second

module _ (events : List NatsEvent) (ev : NatsEvent) where
  -- The loop, with `j` the number of events that it has still to look at. The index is in range, so
  -- that `none` does not occur.
  unfoldable pub attributed_before : ℕ → Bool
  attributed_before zero = false
  attributed_before (suc j) =
      let rest = attributed_before j in
      elim (get_elem? events j) [
        | none ↦ false
        | some e ↦
            if ltb swap_drop_attribution_window (elapsed ev.at e.at)
            then false
            else if text_eq e.kind (utf8 "swap") && swap_reason_retired e.reason ev.nc_id
            then true
            else rest
      ]

unfoldable pub swap_attributed_disconnect : List NatsEvent → ℕ → NatsEvent → Bool
unfolding attributed_before
swap_attributed_disconnect events i ev =
    if text_eq ev.nc_id [] then false else attributed_before events ev i

abbrev pub hour : Duration
hour = 3600 * second

unfoldable pub is_drop : List NatsEvent → Time → ℕ → NatsEvent → Bool
is_drop events cutoff i ev =
    text_eq ev.kind (utf8 "disconnect")
    && (not (ltb ev.at cutoff) && not (swap_attributed_disconnect events i ev))

-- The loop over the events from index `i` on.
unfoldable pub count_drops : List NatsEvent → Time → ℕ → List NatsEvent → ℕ
count_drops events cutoff i [] = 0
count_drops events cutoff i (ev ∷ rest) =
    (if is_drop events cutoff i ev then 1 else 0) + count_drops events cutoff (i + 1) rest

-- `dropsLastHour` of `natsStatusSnapshot`.
unfoldable pub drops_last_hour : EventRing → Time → ℕ
unfolding count_drops
drops_last_hour r now = count_drops r.events (add now (2 ^ 64 - hour)) 0 r.events

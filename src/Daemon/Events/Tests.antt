-- ===== src/Daemon/Events/Tests.antt =====
-- Events at concrete input.
use ppz.Base.{
  true, arith, ℕ, ◌+◌, ◌*◌, ◌^◌, ◌≡◌, ◌<◌, ◌↔◌, refl, some, [], ◌∷◌, Text, text_eq, utf8,
  encode_rune, has_prefix, Time, second, add, elapsed,
}
use ppz.Daemon.Events.{
  NatsEvent, EventRing, get_elem?, stamp, append, set, copy, swap_reason, swap_reason_retired,
  contains, attributed_before, swap_attributed_disconnect, new_ring, is_drop, drops_last_hour,
}
use ppz.Daemon.Events.Retired.{swap_reason_retired_iff}
use ppz.Daemon.Events.Ring.{appends, ring_of, capacity, in_order, appends-last_items}
use ppz.Daemon.Events.Drops.{IsDrop, drops_last_hour_iff}

abbrev noon : Time
noon = 2 ^ 64

abbrev event : Text → Time → Text → Text → NatsEvent
event kind at nc_id reason = record {
  v = 0;
  kind = kind;
  at = at;
  caller = [];
  nc_id = nc_id;
  jwt_exp = 0;
  reason = reason;
}

-- A connection is replaced and closed, and the new one drops a minute later.
abbrev swapped : NatsEvent
swapped = event (utf8 "swap") noon (utf8 "0xB") (swap_reason (utf8 "0xA") (utf8 "0xB"))

abbrev closed : NatsEvent
closed = event (utf8 "disconnect") (noon + second) (utf8 "0xA") []

abbrev dropped : NatsEvent
dropped = event (utf8 "disconnect") (noon + 60 * second) (utf8 "0xB") []

abbrev ring : EventRing
ring = record { events = swapped ∷ closed ∷ dropped ∷ []; cap = 256 }

one_drop : drops_last_hour ring (noon + 120 * second) ≡ 1
unfolding drops_last_hour is_drop attributed_before swap_reason_retired swap_reason text_eq utf8
    encode_rune contains has_prefix add elapsed swap_attributed_disconnect
one_drop = refl

kept_two :
    appends 2 (dropped ∷ closed ∷ swapped ∷ [])
    ≡ some (record { events = stamp closed ∷ stamp dropped ∷ []; cap = 2 })
unfolding appends append set copy new_ring
kept_two = refl

appends-last_items_example :
    appends 2 (dropped ∷ closed ∷ swapped ∷ [])
    ≡ some (ring_of (capacity 2) (in_order (dropped ∷ closed ∷ swapped ∷ [])))
appends-last_items_example = appends-last_items 2 (dropped ∷ closed ∷ swapped ∷ [])

drops_last_hour_iff_example : (0 < drops_last_hour ring (noon + 120 * second)) ↔ (
    (i : ℕ) × (ev : NatsEvent) × (get_elem? ring.events i ≡ some ev)
    × IsDrop ring.events (noon + 120 * second) i ev)
drops_last_hour_iff_example = drops_last_hour_iff ring (noon + 120 * second)

abbrev id_a : Text
id_a = b'A' ∷ []

abbrev id_ab : Text
id_ab = b'A' ∷ b'B' ∷ []

swap_reason_retired_iff_example :
    (swap_reason_retired (swap_reason id_ab id_a) id_a ≡ true) ↔ (id_a ≡ id_ab)
swap_reason_retired_iff_example =
    swap_reason_retired_iff id_ab id_a id_a (ground arith, ground arith)
      (ground arith, ground arith) (ground arith, ground arith)

-- ===== src/Daemon/Heartbeats/Tests.antt =====
-- Heartbeats at concrete input.
use ppz.Base.{
  ◌+◌, ◌*◌, ◌^◌, ◌≡◌, ◌≢◌, ◌↔◌, refl, some, List, [], ◌∷◌, In, Text, text_eq, utf8, encode_rune,
  Time, zero_time, second, elapsed, arith,
}
use ppz.Daemon.Heartbeats.{
  HeartbeatEntry, stale, classify_heartbeat_status, snapshot_account, sort_by_handle, insert_sorted,
  text_lt, stamp_entry, drop_other_accounts, combine_heartbeat_status,
}
use ppz.Daemon.Heartbeats.Status.{interval_of, rule, classify-rule}
use ppz.Daemon.Heartbeats.Cache.{Op, stamps, drops_others, after, latest_beat}
use ppz.Daemon.Heartbeats.Sorted.{IsSorted, snapshot_account-latest_beat}

abbrev noon : Time
noon = 2 ^ 64

abbrev beat : Text → Text → HeartbeatEntry
beat handle account = record {
  handle = handle;
  account_id = account;
  payload = [];
  arrived_at = noon;
}

abbrev bob : HeartbeatEntry
bob = beat (utf8 "bob") (utf8 "org")

abbrev ann : HeartbeatEntry
ann = beat (utf8 "ann") (utf8 "org")

-- A late beat of the account that was left comes after the login.
abbrev login : List Op
login =
    stamps ann
    ∷ stamps (beat (utf8 "eve") (utf8 "old"))
    ∷ drops_others (utf8 "org")
    ∷ stamps bob
    ∷ []

shown : snapshot_account (utf8 "org") (after login) ≡ ann ∷ bob ∷ []
unfolding after snapshot_account sort_by_handle insert_sorted text_lt stamp_entry
    drop_other_accounts text_eq utf8 encode_rune
shown = refl

snapshot_account-latest_beat_example :
    IsSorted (snapshot_account (utf8 "org") (after login))
    × (In bob (snapshot_account (utf8 "org") (after login)) ↔ (
        (utf8 "org" ≢ [])
        × (latest_beat (utf8 "bob") login ≡ some bob)
        × (utf8 "org" ≡ utf8 "org")))
snapshot_account-latest_beat_example = snapshot_account-latest_beat (utf8 "org") login bob

-- A late beat of the same handle under the account that was left hides the row.
hidden :
    snapshot_account (utf8 "org") (after (stamps (beat (utf8 "bob") (utf8 "old")) ∷ login))
    ≡ ann ∷ []
unfolding after snapshot_account sort_by_handle insert_sorted text_lt stamp_entry
    drop_other_accounts text_eq utf8 encode_rune
hidden = refl

half_past : classify_heartbeat_status noon (noon + 90 * second) 60 ≡ stale
unfolding classify_heartbeat_status elapsed zero_time
half_past = refl

not_zero : noon ≢ zero_time
unfolding zero_time
not_zero = omega arith

classify-rule_example :
    classify_heartbeat_status noon (noon + 90 * second) 60
    ≡ rule noon (noon + 90 * second) (interval_of 60)
classify-rule_example =
    classify-rule noon (noon + 90 * second) 60 not_zero (omega arith) (omega arith)

doubtful : combine_heartbeat_status (utf8 "stale") (utf8 "working") ≡ utf8 "stale|working"
unfolding combine_heartbeat_status
doubtful = refl

-- ===== src/Daemon/Heartbeats.antt =====
-- internal/daemon/heartbeat_cache.go, heartbeat_status.go and heartbeat_owners.go: the latest beat of
-- each agent, and how `ppz who` shows it.
pub mod Cache
pub mod Sorted
pub mod Status
mod Tests
use ppz.Base.{
  ℕ, ◌+◌, ◌*◌, ◌%◌, ◌^◌, Bool, true, false, not, ◌&&◌, ◌||◌, List, [], ◌∷◌, ◌++◌, map,
  if◌then◌else◌, nat_eq, ltb, filter, Text, text_eq, utf8, Time, Duration, zero_time, second,
  elapsed, is_nonpositive,
}

pub record HeartbeatEntry : Type 0 where
  pub handle : Text
  pub account_id : Text
  pub payload : Text
  pub arrived_at : Time

-- The map by handle: an entry stands under its own handle.
abbrev pub Cache : Type 0
Cache = List HeartbeatEntry

unfoldable pub stamp_entry : HeartbeatEntry → Cache → Cache
stamp_entry e [] = e ∷ []
stamp_entry e (x ∷ cache) = if text_eq x.handle e.handle then e ∷ cache else x ∷ stamp_entry e cache

unfoldable pub clear : Cache → Cache
clear cache = []

unfoldable pub drop_other_accounts : Text → Cache → Cache
drop_other_accounts account cache = filter (λ e. text_eq e.account_id account) cache

-- Go's `<` on strings.
unfoldable pub text_lt : Text → Text → Bool
text_lt s [] = false
text_lt [] (b ∷ t) = true
text_lt (a ∷ s) (b ∷ t) = ltb a b || (nat_eq a b && text_lt s t)

-- `sort.Slice` by handle, where no two entries have one handle.
unfoldable pub insert_sorted : HeartbeatEntry → Cache → Cache
insert_sorted e [] = e ∷ []
insert_sorted e (x ∷ cache) =
    if text_lt e.handle x.handle then e ∷ x ∷ cache else x ∷ insert_sorted e cache

unfoldable pub sort_by_handle : Cache → Cache
sort_by_handle [] = []
sort_by_handle (e ∷ cache) = insert_sorted e (sort_by_handle cache)

unfoldable pub snapshot : Cache → Cache
snapshot cache = sort_by_handle cache

unfoldable pub snapshot_account : Text → Cache → Cache
snapshot_account account cache =
    if text_eq account []
    then []
    else sort_by_handle (filter (λ e. text_eq e.account_id account) cache)

unfoldable pub apply_heartbeat_stamp : Text → HeartbeatEntry → Cache → Cache
apply_heartbeat_stamp channel e cache =
    if text_eq channel (utf8 "heartbeat") then stamp_entry e cache else cache

-- What `ppz who` reads of a source and shows of an entry.
pub record Source : Type 0 where
  pub handle : Text
  pub created_by : Text

pub record WhoEntry : Type 0 where
  pub handle : Text
  pub owner : Text
  pub payload : Text
  pub arrived_at : Time

-- The map of owners: the last source with a handle, or else the empty text.
unfoldable pub owner_of : Text → Text → List Source → Text
owner_of h found [] = found
owner_of h found (s ∷ sources) =
    owner_of h (if text_eq s.handle h then s.created_by else found) sources

unfoldable pub enrich_entries_with_owners : Cache → List Source → List WhoEntry
unfolding owner_of
enrich_entries_with_owners cache sources =
    map
      (λ e. record {
        handle = e.handle;
        owner = owner_of e.handle [] sources;
        payload = e.payload;
        arrived_at = e.arrived_at;
      })
      cache

-- `<` and `*` on `time.Duration`.
abbrev pub less : Duration → Duration → Bool
less a b = ltb ((a + 2 ^ 63) % 2 ^ 64) ((b + 2 ^ 63) % 2 ^ 64)

abbrev pub times : Duration → Duration → Duration
times a b = a * b % 2 ^ 64

pub data Liveness : Type 0 where
  online stale offline : Liveness

-- An age below 0 is that of a beat from the future. The interval is an int64 of seconds.
unfoldable pub classify_heartbeat_status : Time → Time → ℕ → Liveness
classify_heartbeat_status last now interval_sec =
    if nat_eq last zero_time
    then offline
    else let interval = times (if is_nonpositive interval_sec then 60 else interval_sec) second in
      let age = elapsed now last in
      if ltb now last
      then online
      else if less (times 2 age) (times 3 interval)
      then online
      else if less age (times 3 interval)
      then stale
      else offline

unfoldable pub liveness_text : Liveness → Text
unfolding utf8
liveness_text online = utf8 "online"
liveness_text stale = utf8 "stale"
liveness_text offline = utf8 "offline"

unfoldable pub combine_heartbeat_status : Text → Text → Text
unfolding utf8 text_eq
combine_heartbeat_status liveness agent_state =
    if text_eq agent_state [] || text_eq liveness (utf8 "offline")
    then liveness
    else liveness ++ (utf8 "|" ++ agent_state)

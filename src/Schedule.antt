-- ===== src/Schedule.antt =====
-- internal/schedule/schedule.go: when a scheduled send fires.
pub mod Later
pub mod Decide
mod Tests
use ppz.Base.{
  ℕ, ◌+◌, ◌*◌, ◌/◌, ◌%◌, ◌^◌, ◌<◌, ◌≡◌, ◌≢◌, Bool, true, false, Option, none, some, if◌then◌else◌,
  nat_eq, ltb, leb, Text, text_eq, has_prefix, utf8, Time, zero_time, Duration, second,
  is_nonpositive, add, elapsed, List, [], ◌∷◌,
}

abbrev pub missfire_grace : Duration
missfire_grace = 60 * second

abbrev pub min_every : Duration
min_every = second

-- `type Kind string`, whose values are three constants, or any other text.
pub data Kind : Type 0 where
  kind_at kind_every kind_cron : Kind
  kind_other : Text → Kind

-- github.com/robfig/cron/v3, which is not part of the repository: a parameter. `next` gives the zero
-- time when the expression never comes up, and otherwise an instant after the one it is given.
pub record Crons : Type 1 where
  pub Location : Type 0
  pub utc : Location
  pub Schedule : Type 0
  pub parse_standard : Text → Option Schedule
  pub next : Schedule → Location → Time → Time
  pub next_later :
      (s : Schedule) (l : Location) (t : Time) → next s l t ≢ zero_time → t < next s l t

-- Go's parsers of durations and timestamps, with an error as `none`.
pub record Clocks (Location : Type 0) : Type 0 where
  pub parse_duration : Text → Option Duration
  pub parse_rfc3339 : Text → Option Time
  pub parse_local : Location → Text → Option Time

pub data ParseError : Type 0 where
  empty bad_offset unrecognised past bad_interval below_minimum bad_cron : ParseError

pub data Parsed (A : Type 0) : Type 0 where
  failed : ParseError → Parsed A
  parsed : A → Parsed A

-- The instant, if it is strictly in the future.
unfoldable pub in_future : Time → Time → Parsed Time
in_future t now = if ltb now t then parsed t else failed past

-- The argument behind its first byte, if that is `+`.
unfoldable pub after_plus : Text → Option Text
after_plus [] = none
after_plus (c ∷ rest) = if nat_eq c b'+' then some rest else none

unfoldable pub parse_at : {L : Type 0} → Clocks L → Text → Time → L → Parsed Time
unfolding after_plus
parse_at clocks arg now loc = if text_eq arg [] then failed empty else elim (after_plus arg) [
  | some rest ↦ elim (clocks.parse_duration rest) [
    | none ↦ failed bad_offset
    | some d ↦ in_future (add now d) now
  ]
  | none ↦ elim (clocks.parse_rfc3339 arg) [
    | some t ↦ in_future t now
    | none ↦ elim (clocks.parse_local loc arg) [
      | none ↦ failed unrecognised
      | some t ↦ in_future t now
    ]
  ]
]

-- An int64 below the minimum: negative, or smaller.
unfoldable pub parse_every : {L : Type 0} → Clocks L → Text → Parsed Duration
parse_every clocks arg = elim (clocks.parse_duration arg) [
  | none ↦ failed bad_interval
  | some d ↦
      if leb (2 ^ 63) d
      then failed below_minimum
      else if ltb d min_every
      then failed below_minimum
      else parsed d
]

-- The slot of the grid: an int64, as is its product with the interval.
unfoldable pub slot : Duration → Duration → ℕ
slot diff every = if ltb 0 diff then (diff / every + 1) % 2 ^ 64 else 1

pub record Verdict : Type 0 where
  pub fire : Bool
  pub done : Bool
  pub next : Time

abbrev pub is_one_off : Kind → Bool
is_one_off kind_at = true
is_one_off _ = false

module _ (crons : Crons) where
  -- `at` is the instant of a one-off and the anchor of an interval; no location stands for UTC.
  pub record Spec : Type 0 where
    pub kind : Kind
    pub at : Time
    pub every : Duration
    pub cron : Text
    pub loc : Option crons.Location

  unfoldable pub parse_cron : Text → Option ParseError
  parse_cron expr = elim (crons.parse_standard expr) [ none ↦ some bad_cron | some _ ↦ none ]

  unfoldable pub zone : Option crons.Location → crons.Location
  zone none = crons.utc
  zone (some l) = l

  unfoldable pub next_after : Spec → Time → Option Time
  unfolding zone slot
  next_after s after = elim s.kind [
    | kind_at ↦ if ltb after s.at then some s.at else none
    | kind_every ↦
        if is_nonpositive s.every
        then none
        else some (add s.at (slot (elapsed after s.at) s.every * s.every % 2 ^ 64))
    | kind_cron ↦ elim (crons.parse_standard s.cron) [
      | none ↦ none
      | some sched ↦
          let next = crons.next sched (zone s.loc) after in
          if nat_eq next zero_time then none else some next
    ]
    | kind_other _ ↦ none
  ]

  unfoldable pub decide : Spec → Time → Time → Verdict
  decide s next now =
      if ltb now next
      then record { fire = false; done = false; next = next }
      else if is_one_off s.kind
      then record { fire = true; done = true; next = next }
      else elim (next_after s now) [
        | none ↦ record { fire = false; done = true; next = next }
        | some nn ↦ record { fire = leb (elapsed now next) missfire_grace; done = false; next = nn }
      ]

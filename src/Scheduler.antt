-- ===== src/Scheduler.antt =====
-- internal/server/scheduler.go, and the statements of internal/db/schedules.go that it calls: the
-- loop that claims due rows, fires them and settles them.
pub mod Outage
pub mod Failures
mod Tests
use ppz.Base.{
  ℕ, ◌+◌, ◌*◌, ◌≡◌, Bool, true, false, not, ◌&&◌, ◌||◌, Option, none, some, List, [], ◌∷◌,
  if◌then◌else◌, nat_eq, ltb, leb, any, Text, Time, zero_time, Duration, second,
}
use ppz.Schedule.{
  Kind, kind_at, kind_every, kind_cron, kind_other, Crons, Clocks, Spec, decide, Verdict,
}

-- What a publish error may wrap; `errors.Is` looks for one of these in the chain.
pub data Sentinel : Type 0 where
  connection_closed no_servers timed_out deadline_exceeded no_stream_response : Sentinel
  other_error : Text → Sentinel

abbrev pub PublishError : Type 0
PublishError = List Sentinel

abbrev pub is_infra : Sentinel → Bool
is_infra connection_closed = true
is_infra no_servers = true
is_infra timed_out = true
is_infra deadline_exceeded = true
is_infra no_stream_response = false
is_infra (other_error _) = false

abbrev pub is_no_stream : Sentinel → Bool
is_no_stream no_stream_response = true
is_no_stream _ = false

abbrev pub max_schedule_failures : ℕ
max_schedule_failures = 5

unfoldable pub is_infra_transient : PublishError → Bool
is_infra_transient err = any is_infra err

unfoldable pub drop_after_failure : PublishError → ℕ → Bool
unfolding is_infra_transient
drop_after_failure err fail_count =
    if is_infra_transient err
    then false
    else if any is_no_stream err
    then true
    else leb max_schedule_failures fail_count

abbrev pub schedule_claim_lease : Duration
schedule_claim_lease = 30 * second

-- The columns of a schedule that the loop reads or writes.
pub record Row : Type 0 where
  pub kind : Kind
  pub spec : Text
  pub tz : Text
  pub created_at : Time
  pub next_fire_at : Time
  pub last_fired_at : Option Time
  pub fail_count : ℕ

-- The UPDATE of `ClaimDueSchedules` on one due row. It returns the row as it was.
unfoldable pub claim : Time → Row → Row
claim now row = record row { next_fire_at = now + schedule_claim_lease }

-- No next instant deletes the row, and no firing time leaves the counter as it is.
unfoldable pub complete_fire : Option Time → Option Time → Row → Option Row
complete_fire none fired_at row = none
complete_fire (some next) none row = some (record row { next_fire_at = next })
complete_fire (some next) (some fired_at) row =
    some (record row { next_fire_at = next; last_fired_at = some fired_at; fail_count = 0 })

unfoldable pub bump_schedule_fail_count : Row → Row
bump_schedule_fail_count row = record row { fail_count = row.fail_count + 1 }

-- What the world answers to one round: the publish, and whether each statement reached the database.
pub record Answers : Type 0 where
  pub publish : Option PublishError
  pub bumped : Bool
  pub completed : Bool

module _ (crons : Crons) (clocks : Clocks crons.Location)
    (load_location : Text → Option crons.Location) where
  blank : Kind → Spec crons
  blank kind = record { kind = kind; at = zero_time; every = 0; cron = []; loc = none }

  -- `rowSpec`; `none` is an error.
  unfoldable pub row_spec : Row → Option (Spec crons)
  unfolding blank
  row_spec row = elim row.kind [
    | kind_at ↦ elim (clocks.parse_rfc3339 row.spec) [
      | none ↦ none
      | some t ↦ some (record (blank kind_at) { at = t })
    ]
    | kind_every ↦ elim (clocks.parse_duration row.spec) [
      | none ↦ none
      | some d ↦ some (record (blank kind_every) { at = row.created_at; every = d })
    ]
    | kind_cron ↦ elim (crons.parse_standard row.spec) [
      | none ↦ none
      | some _ ↦
          let loc : crons.Location = elim (load_location row.tz) [
            | none ↦ crons.utc
            | some l ↦ l
          ] in
          some (record (blank kind_cron) { cron = row.spec; loc = some loc })
    ]
    | kind_other _ ↦ none
  ]

  -- The settling statement, on the row that the claim left.
  unfoldable pub complete : Answers → Option Time → Option Time → Row → Option Row
  complete answers next fired_at claimed =
      if answers.completed then complete_fire next fired_at claimed else some claimed

  unfoldable pub settle_verdict : Answers → Verdict → Time → Row → Option Row
  unfolding complete
  settle_verdict answers d now claimed =
      complete answers (if d.done then none else some d.next) (if d.fire then some now else none)
        claimed

  -- A publish that failed, with the row as it was and the row as the claim left it.
  unfoldable pub settle_failure : Answers → PublishError → Row → Row → Option Row
  unfolding complete
  settle_failure answers err row claimed =
      if is_infra_transient err
      then some claimed
      else let stored = if answers.bumped then bump_schedule_fail_count claimed else claimed in
        let fail_count = if answers.bumped then stored.fail_count else row.fail_count + 1 in
        if drop_after_failure err fail_count then complete answers none none stored else some stored

  -- The body of the loop in `fireDueSchedules`.
  unfoldable pub settle : Answers → Row → Time → Row → Option Row
  unfolding settle_verdict settle_failure complete
  settle answers row now claimed = elim (row_spec row) [
    | none ↦ complete answers none none claimed
    | some spec ↦
        let d = decide crons spec row.next_fire_at now in
        if d.fire
        then elim answers.publish [
          | none ↦ settle_verdict answers d now claimed
          | some err ↦ settle_failure answers err row claimed
        ]
        else settle_verdict answers d now claimed
  ]

  -- One tick, on one stored row.
  unfoldable pub tick : Answers → Time → Row → Option Row
  unfolding settle
  tick answers now row =
      if leb row.next_fire_at now then settle answers row now (claim now row) else some row

  -- Whether a tick publishes.
  unfoldable pub publishes : Time → Row → Bool
  publishes now row =
      if leb row.next_fire_at now
      then elim (row_spec row) [
        | none ↦ false
        | some spec ↦ (decide crons spec row.next_fire_at now).fire
      ]
      else false

-- ===== src/Scheduler/Tests.antt =====
-- The theorems on the firing loop, applied to a row that is due every ten seconds.
use ppz.Base.{
  ◌+◌, ◌*◌, ◌≤◌, ◌≡◌, ◌↔◌, ◌⊎◌, inr, refl, false, true, none, some, [], ◌∷◌, any, arith, second,
  utf8, elapsed,
}
use ppz.Schedule.{kind_every, Crons, Clocks, Spec, next_after, decide}
use ppz.Scheduler.{
  Row, Answers, no_stream_response, connection_closed, is_infra_transient, is_no_stream, row_spec,
  tick, publishes, schedule_claim_lease,
}
use ppz.Scheduler.Outage.{Outage, GoesOn, rounds, Outage-publishes}
use ppz.Scheduler.Failures.{tick-deletes_iff}

abbrev minutely : Crons
minutely = record {
  Location = Unit;
  utc = tt;
  Schedule = Unit;
  parse_standard = λ expr. some tt;
  next = λ s l t. t + 60 * second;
  next_later = λ s l t n. omega arith;
}

-- Every duration reads as ten seconds.
abbrev tens : Clocks Unit
tens = record {
  parse_duration = λ s. some (10 * second);
  parse_rfc3339 = λ s. none;
  parse_local = λ l s. none;
}

abbrev row : Row
row = record {
  kind = kind_every;
  spec = utf8 "10s";
  tz = [];
  created_at = 5 * second;
  next_fire_at = 35 * second;
  last_fired_at = none;
  fail_count = 4;
}

abbrev lost : Answers
lost = record { publish = some (connection_closed ∷ []); bumped = true; completed = true }

abbrev gone : Answers
gone = record { publish = some (no_stream_response ∷ []); bumped = true; completed = true }

abbrev every_ten : Spec minutely
every_ten = record {
  kind = kind_every;
  at = 5 * second;
  every = 10 * second;
  cron = [];
  loc = none;
}

reads_row : row_spec minutely tens (λ z. none) row ≡ some every_ten
unfolding row_spec
reads_row = refl

fires : publishes minutely tens (λ z. none) (37 * second) row ≡ true
unfolding publishes row_spec decide next_after elapsed
fires = refl

goes_on : GoesOn minutely tens (λ z. none) every_ten
unfolding next_after
goes_on t = inr (λ e. cc, (_, refl))

lost-Outage : Outage lost
unfolding is_infra_transient
lost-Outage = (_, refl, refl)

Outage-publishes_example :
    (left : Row) × (rounds minutely tens
        (λ z. none)
        (lost ∷ lost ∷ lost ∷ lost ∷ [])
        (37 * second)
        row
      ≡ some left)
    × (left.fail_count ≡ 4)
    × (left.last_fired_at ≡ none)
    × (publishes minutely tens (λ z. none) (37 * second + 4 * schedule_claim_lease) left ≡ true)
Outage-publishes_example =
    Outage-publishes minutely tens (λ z. none) (lost ∷ lost ∷ lost ∷ lost ∷ []) every_ten
      (37 * second) row reads_row goes_on (omega arith) (omega arith)
      (lost-Outage, (lost-Outage, (lost-Outage, (lost-Outage, tt))))

tick-deletes_iff_example : (tick minutely tens (λ z. none) gone (37 * second) row ≡ none) ↔ (
    (is_infra_transient (no_stream_response ∷ []) ≡ false)
    × ((any is_no_stream (no_stream_response ∷ []) ≡ true) ⊎ (5 ≤ 4 + 1)))
tick-deletes_iff_example =
    tick-deletes_iff minutely tens (λ z. none) gone (37 * second) row fires
      (no_stream_response ∷ []) refl (refl, refl)

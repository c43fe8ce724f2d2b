-- ===== src/Scheduler/Failures.antt =====
-- Which failed publishes cost a row its place.
use ppz.Base.{
  ◌+◌, ◌≤◌, ◌≡◌, ◌↔◌, ◌⊎◌, refl, true, false, Option, none, some, arith, if◌then◌else◌, any,
  Option-cases, inl, inr, Text, Time,
}
use ppz.Schedule.{Crons, Clocks, decide}
use ppz.Scheduler.{
  PublishError, is_infra_transient, is_no_stream, drop_after_failure, bump_schedule_fail_count,
  complete_fire, claim, Row, Answers, row_spec, settle, settle_failure, settle_verdict, complete,
  tick, publishes,
}

-- Every statement reaches the database.
abbrev pub Reached : Answers → Type 0
Reached a = (a.bumped ≡ true) × (a.completed ≡ true)

module _ (crons : Crons) (clocks : Clocks crons.Location)
    (load_location : Text → Option crons.Location) (a : Answers) (now : Time) (row : Row)
    (h : publishes crons clocks load_location now row ≡ true) where
  failed_round :
      (err : PublishError)
      → a.publish ≡ some err
      → tick crons clocks load_location a now row
        ≡ settle_failure crons clocks load_location a err row (claim now row)
  unfolding tick settle publishes
  failed_round err e = elim (Option-cases (row_spec crons clocks load_location row)) [
    | inl bad ↦ absurd (ground (arith, bad))
    | inr (spec, good) ↦ ground (arith, good, e)
  ]

  -- When a round publishes, the publish fails and the database is in reach, the row is deleted
  -- exactly when no lost connection is in the error and either the stream is gone or this is at
  -- least the fifth failure in a row.
  pub tick-deletes_iff :
      (err : PublishError)
      → a.publish ≡ some err
      → Reached a
      → (tick crons clocks load_location a now row ≡ none) ↔ (
          (is_infra_transient err ≡ false)
          × ((any is_no_stream err ≡ true) ⊎ (5 ≤ row.fail_count + 1)))
  unfolding settle_failure drop_after_failure complete complete_fire claim bump_schedule_fail_count
  tick-deletes_iff err e (b, c) = rw (failed_round err e) (ground (arith, b, c))

  fired_round :
      a.publish ≡ none
      → a.completed ≡ true
      → (next : Option Time) × (tick crons clocks load_location a now row
          ≡ complete_fire next (some now) (claim now row))
  unfolding tick settle publishes settle_verdict complete
  fired_round e c = elim (Option-cases (row_spec crons clocks load_location row)) [
    | inl bad ↦ absurd (ground (arith, bad))
    | inr (spec, good) ↦
        let d = decide crons spec row.next_fire_at now in
        (if d.done then none else some d.next, ground (arith, good, e, c))
  ]

  reset :
      (next : Option Time)
      → (complete_fire next (some now) (claim now row) ≡ none)
        ⊎ ((left : Row) × (complete_fire next (some now) (claim now row) ≡ some left)
            × (left.fail_count ≡ 0)
            × (left.last_fired_at ≡ some now))
  unfolding complete_fire
  reset none = inl refl
  reset (some next) = inr (_, refl, refl, refl)

  -- When a round publishes with success and the settling statement reaches the database, the row
  -- is gone, or its count of failures is 0 and its last firing is now.
  pub tick-resets :
      a.publish ≡ none
      → a.completed ≡ true
      → (tick crons clocks load_location a now row ≡ none)
        ⊎ ((left : Row) × (tick crons clocks load_location a now row ≡ some left)
            × (left.fail_count ≡ 0)
            × (left.last_fired_at ≡ some now))
  tick-resets e c = let (next, same) = fired_round e c in rw same (reset next)

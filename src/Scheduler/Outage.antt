-- ===== src/Scheduler/Outage.antt =====
-- What a lost connection does to a row, however often the publish is tried.
use ppz.Base.{
  ◌+◌, ◌*◌, ◌≤◌, ◌≡◌, ◌≢◌, ◌⊎◌, length, refl, subst, ◌∙◌, true, Option, none, some, List, [], ◌∷◌,
  arith, All, Option-cases, inl, inr, Text, Time,
}
use ppz.Schedule.{kind_at, Crons, Clocks, Spec, decide, next_after}
use ppz.Schedule.Decide.{WithinGrace, decide-fire_iff}
use ppz.Scheduler.{
  PublishError, is_infra_transient, claim, schedule_claim_lease, Row, Answers, row_spec, settle,
  settle_failure, tick, publishes,
}

-- The connection is lost for every round.
abbrev pub Outage : Answers → Type 0
Outage a = (err : PublishError) × (a.publish ≡ some err) × (is_infra_transient err ≡ true)

module _ (crons : Crons) (clocks : Clocks crons.Location)
    (load_location : Text → Option crons.Location) where
  -- A round that publishes and loses the connection leaves the row as the claim left it.
  pub Outage-round :
      (a : Answers) (now : Time) (row : Row)
      → Outage a
      → publishes crons clocks load_location now row ≡ true
      → tick crons clocks load_location a now row ≡ some (claim now row)
  unfolding tick settle publishes settle_failure claim
  Outage-round a now row (err, e, infra) h =
      elim (Option-cases (row_spec crons clocks load_location row)) [
        | inl bad ↦ absurd (ground (arith, bad))
        | inr (spec, good) ↦ ground (arith, good, e, infra)
      ]

  -- A schedule with an occurrence after every instant, or a one-off.
  abbrev pub GoesOn : Spec crons → Type 0
  GoesOn spec =
      (t : Time)
      → (spec.kind ≡ kind_at)
        ⊎ ((spec.kind ≢ kind_at) × ((u : Time) × (next_after crons spec t ≡ some u)))

  why_fires :
      (spec : Spec crons) (now : Time) (row : Row)
      → (spec.kind ≡ kind_at)
        ⊎ ((spec.kind ≢ kind_at) × ((u : Time) × (next_after crons spec now ≡ some u)))
      → WithinGrace row.next_fire_at now
      → (spec.kind ≡ kind_at)
        ⊎ ((spec.kind ≢ kind_at)
            × ((u : Time) × (next_after crons spec now ≡ some u))
            × WithinGrace row.next_fire_at now)
  why_fires spec now row (inl k) grace = inl k
  why_fires spec now row (inr (k, u)) grace = inr (k, u, grace)

  publishes_due :
      (spec : Spec crons) (now : Time) (row : Row)
      → row_spec crons clocks load_location row ≡ some spec
      → GoesOn spec
      → row.next_fire_at ≤ now
      → WithinGrace row.next_fire_at now
      → publishes crons clocks load_location now row ≡ true
  unfolding publishes
  publishes_due spec now row good on due grace =
      let fires : (decide crons spec row.next_fire_at now).fire ≡ true =
        (decide-fire_iff crons spec row.next_fire_at now).1
          (due, why_fires spec now row (on now) grace) in
      ground (arith, good, fires)

  -- One round for each lease that runs out.
  unfoldable pub rounds : List Answers → Time → Row → Option Row
  rounds [] now row = some row
  rounds (a ∷ more) now row = elim (tick crons clocks load_location a now row) [
    | none ↦ none
    | some left ↦ rounds more (now + schedule_claim_lease) left
  ]

  rounds_step :
      (a : Answers) (more : List Answers) (now : Time) (row left : Row)
      → tick crons clocks load_location a now row ≡ some left
      → rounds (a ∷ more) now row ≡ rounds more (now + schedule_claim_lease) left
  unfolding rounds
  rounds_step a more now row left h = ground (arith, h)

  -- A schedule that is a one-off or always has a further occurrence, whose row is due and at most
  -- 60 seconds late, is still stored after any number of rounds that lose the connection, one
  -- each time the 30-second lease runs out, with its count of failures and its last firing as
  -- they were, and the next round publishes it.
  pub Outage-publishes :
      (answers : List Answers) (spec : Spec crons) (now : Time) (row : Row)
      → row_spec crons clocks load_location row ≡ some spec
      → GoesOn spec
      → row.next_fire_at ≤ now
      → WithinGrace row.next_fire_at now
      → All Outage answers
      → (left : Row) × (rounds answers now row ≡ some left)
        × (left.fail_count ≡ row.fail_count)
        × (left.last_fired_at ≡ row.last_fired_at)
        × (publishes crons clocks load_location (now + length answers * schedule_claim_lease) left
            ≡ true)
  unfolding rounds claim row_spec
  Outage-publishes [] spec now row good on due grace h = (
    row,
    refl,
    refl,
    refl,
    subst (λ t. publishes crons clocks load_location t row ≡ true) (omega arith)
        (publishes_due spec now row good on due grace),
  )
  Outage-publishes (a ∷ more) spec now row good on due grace h =
      let first = Outage-round a now row h.0 (publishes_due spec now row good on due grace) in
      let (left, e, c, l, p) =
        Outage-publishes more spec (now + schedule_claim_lease) (claim now row) good on
          (omega arith) (omega arith) h.1 in
      (
        left,
        rounds_step a more now row (claim now row) first ∙ e,
        c,
        l,
        subst (λ t. publishes crons clocks load_location t left ≡ true) (omega arith) p,
      )

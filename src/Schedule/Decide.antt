-- ===== src/Schedule/Decide.antt =====
-- The verdict on a claimed row.
use ppz.Base.{
  ◌+◌, ◌*◌, ◌<◌, ◌≤◌, ◌≡◌, refl, ◌≢◌, ◌↔◌, ◌⊎◌, inl, inr, true, false, none, some, arith,
  Option-cases, leb, Time, elapsed, second,
}
use ppz.Schedule.{
  Kind, kind_at, Crons, Spec, next_after, missfire_grace, Verdict, is_one_off, decide,
}
use ppz.Schedule.Later.{InRange, next_after-later}

-- No more than a minute late.
abbrev pub WithinGrace : Time → Time → Type 0
WithinGrace next now = now ≤ next + 60 * second

is_one_off_iff : (k : Kind) → (is_one_off k ≡ true) ↔ (k ≡ kind_at)
is_one_off_iff kind_at = (λ h. refl, λ h. refl)
is_one_off_iff k = ground arith

grace_iff :
    (next now : Time) → (leb (elapsed now next) missfire_grace ≡ true) ↔ WithinGrace next now
unfolding elapsed
grace_iff next now = ground arith

module _ (crons : Crons) (s : Spec crons) (next now : Time) where
  abbrev verdict : Verdict
  verdict = decide crons s next now

  -- `Decide` fires exactly when the stored instant has come and the schedule is a one-off, or has
  -- a further occurrence and is at most 60 seconds late.
  pub decide-fire_iff : (verdict.fire ≡ true) ↔ (
      (next ≤ now)
      × ((s.kind ≡ kind_at)
          ⊎ ((s.kind ≢ kind_at)
              × ((t : Time) × (next_after crons s now ≡ some t))
              × WithinGrace next now)))
  unfolding decide
  decide-fire_iff = elim (Option-cases (next_after crons s now)) [
    | inl e ↦ rw e (ground (arith, is_one_off_iff s.kind))
    | inr (t, e) ↦ rw e (ground (arith, is_one_off_iff s.kind, grace_iff next now))
  ]

  -- `Decide` declares a schedule spent exactly when the stored instant has come and the schedule
  -- is a one-off or has no further occurrence.
  pub decide-done_iff :
      (verdict.done ≡ true)
      ↔ ((next ≤ now) × ((s.kind ≡ kind_at) ⊎ (next_after crons s now ≡ none)))
  unfolding decide
  decide-done_iff = elim (Option-cases (next_after crons s now)) [
    | inl e ↦ rw e (ground (arith, is_one_off_iff s.kind))
    | inr (t, e) ↦ rw e (ground (arith, is_one_off_iff s.kind))
  ]

  -- A schedule that `Decide` does not declare spent gets a next instant strictly after now,
  -- where, for an interval, the time since the anchor and the interval together fit an int64.
  pub decide-next_later : InRange crons s now → verdict.done ≡ false → now < verdict.next
  unfolding decide
  decide-next_later r h = elim (Option-cases (next_after crons s now)) [
    | inl e ↦ ground (arith, e)
    | inr (t, e) ↦ ground (arith, e, next_after-later crons s now t r e)
  ]

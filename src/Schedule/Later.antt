-- ===== src/Schedule/Later.antt =====
-- Occurrences lie ahead, and those of an interval lie on its grid.
use native.Mathlib.Nat.{
  div-mul-le_self, div-le_self, lt-div-mul-add, div-lt_iff_lt-mul, mul-le-mul_right,
}
use ppz.Base.{
  ℕ, ◌+◌, ◌-◌, ◌*◌, ◌/◌, ◌^◌, ◌<◌, ◌≤◌, ◌≡◌, refl, true, false, Option, some, inl, inr, arith,
  Bool-cases, Option-cases, ltb, Time, Text, ◌⊎◌, is_nonpositive, add, elapsed,
}
use ppz.Schedule.{
  Kind, kind_at, kind_every, kind_cron, kind_other, Crons, Spec, slot, zone, next_after,
}

-- The interval's next occurrence, with numbers that an int64 holds.
pub record Grid (crons : Crons) (s : Spec crons) (after : Time) : Type 0 where
  pub kind : s.kind ≡ kind_every
  pub positive : 1 ≤ s.every
  pub small : (after - s.at) + s.every < 2 ^ 63

product_small : (e d : ℕ) → 1 ≤ d → e + d < 2 ^ 63 → (e / d + 1) * d < 2 ^ 63
product_small e d p h = omega (arith, div-mul-le_self e d)

slot_lem : (e d : ℕ) → 1 ≤ d → e + d < 2 ^ 63 → slot e d ≡ e / d + 1
unfolding slot
slot_lem e d p h = elim (Bool-cases (ltb 0 e)) [
  | inl late ↦ rw late (omega (arith, div-le_self e d))
  | inr early ↦ rw early (ground (arith, div-le_self e d))
]

module _ (crons : Crons) (s : Spec crons) where
  module _ (after : Time) (g : Grid crons s after) where
    abbrev gap : ℕ
    gap = after - s.at

    -- The index of the next occurrence on the grid.
    abbrev index : ℕ
    index = gap / s.every + 1

    gap_lem : elapsed after s.at ≡ gap
    unfolding elapsed
    gap_lem = ground (arith, g.small)

    next_on_grid : next_after crons s after ≡ some (s.at + index * s.every)
    unfolding next_after add
    next_on_grid =
        let small = product_small gap s.every g.positive g.small in
        rw (g.kind, gap_lem, slot_lem gap s.every g.positive g.small)
          (ground (arith, g.positive, g.small, small))

    index_first : after < s.at + index * s.every
    index_first = omega (arith, lt-div-mul-add {a = gap} {b = s.every} g.positive)

    index_least :
        (n : ℕ) → 1 ≤ n → after < s.at + n * s.every → s.at + index * s.every ≤ s.at + n * s.every
    index_least n p h =
        let least : s.every ≤ n * s.every = omega (arith, mul-le-mul_right s.every p) in
        let below : gap < n * s.every = omega (arith, g.positive) in
        let slots : gap / s.every < n = (div-lt_iff_lt-mul g.positive).1 below in
        omega (arith, mul-le-mul_right s.every slots)

    -- For an interval of at least 1 nanosecond, where the time since the anchor and the interval
    -- together fit an int64, `NextAfter` gives the anchor plus n intervals for the least n from 1
    -- on whose instant lies strictly after the given one.
    pub next_after-grid :
        (n : ℕ) × (next_after crons s after ≡ some (s.at + n * s.every))
        × (1 ≤ n)
        × (after < s.at + n * s.every)
        × ((m : ℕ) → 1 ≤ m → after < s.at + m * s.every → s.at + n * s.every ≤ s.at + m * s.every)
    next_after-grid = (index, next_on_grid, omega arith, index_first, index_least)

-- Numbers in range, where the schedule is an interval.
abbrev pub InRange : (crons : Crons) → Spec crons → Time → Type 0
InRange crons s after =
    s.kind ≡ kind_every → is_nonpositive s.every ≡ false → (after - s.at) + s.every < 2 ^ 63

later_at :
    (crons : Crons) (s : Spec crons) (after t : Time)
    → s.kind ≡ kind_at
    → next_after crons s after ≡ some t
    → after < t
unfolding next_after
later_at crons s after t k h = ground arith

stopped :
    (crons : Crons) (s : Spec crons) (after t : Time)
    → s.kind ≡ kind_every
    → is_nonpositive s.every ≡ true
    → next_after crons s after ≡ some t
    → ⊥
unfolding next_after
stopped crons s after t k e h = ground arith

same_later : {o : Option Time} {a t u : Time} → o ≡ some t → o ≡ some u → a < u → a < t
same_later h e l = ground arith

later_every :
    (crons : Crons) (s : Spec crons) (after t : Time)
    → s.kind ≡ kind_every
    → InRange crons s after
    → next_after crons s after ≡ some t
    → after < t
later_every crons s after t k r h = elim (Bool-cases (is_nonpositive s.every)) [
  | inl e ↦ absurd (stopped crons s after t k e h)
  | inr e ↦
      let g : Grid crons s after = record { kind = k; positive = ground arith; small = r k e } in
      let (n, eq, _, later, _) = next_after-grid crons s after g in same_later h eq later
]

later_cron :
    (crons : Crons) (s : Spec crons) (after t : Time)
    → s.kind ≡ kind_cron
    → next_after crons s after ≡ some t
    → after < t
unfolding next_after
later_cron crons s after t k h = elim (Option-cases (crons.parse_standard s.cron)) [
  | inl e ↦ absurd (ground arith)
  | inr (sched, e) ↦ ground (arith, crons.next_later sched (zone crons s.loc) after)
]

never_other :
    (crons : Crons) (s : Spec crons) (after t : Time) (name : Text)
    → s.kind ≡ kind_other name
    → next_after crons s after ≡ some t
    → ⊥
unfolding next_after
never_other crons s after t name k h = ground arith

Kind-cases :
    (k : Kind)
    → (k ≡ kind_at) ⊎ (k ≡ kind_every) ⊎ (k ≡ kind_cron) ⊎ ((name : Text) × (k ≡ kind_other name))
Kind-cases kind_at = inl refl
Kind-cases kind_every = inr (inl refl)
Kind-cases kind_cron = inr (inr (inl refl))
Kind-cases (kind_other name) = inr (inr (inr (name, refl)))

-- Whenever `NextAfter` gives an instant it lies strictly after the given one, for each kind of
-- schedule; for an interval, the time since the anchor and the interval together fit an int64.
pub next_after-later :
    (crons : Crons) (s : Spec crons) (after t : Time)
    → InRange crons s after
    → next_after crons s after ≡ some t
    → after < t
next_after-later crons s after t r h = elim (Kind-cases s.kind) [
  | inl k ↦ later_at crons s after t k h
  | inr (inl k) ↦ later_every crons s after t k r h
  | inr (inr (inl k)) ↦ later_cron crons s after t k h
  | inr (inr (inr (name, k))) ↦ absurd (never_other crons s after t name k h)
]

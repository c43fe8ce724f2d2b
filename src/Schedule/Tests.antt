-- ===== src/Schedule/Tests.antt =====
-- The theorems on internal/schedule, applied to an interval of ten seconds, with a cron of every minute.
use ppz.Base.{
  ℕ, ◌+◌, ◌*◌, ◌<◌, ◌≤◌, ◌≡◌, ◌≢◌, ◌↔◌, ◌⊎◌, refl, true, none, some, [], arith, Time, second,
  elapsed, add,
}
use ppz.Schedule.{kind_at, kind_every, Crons, Spec, next_after, slot, decide}
use ppz.Schedule.Later.{Grid, InRange, next_after-grid, next_after-later}
use ppz.Schedule.Decide.{WithinGrace, decide-fire_iff}

abbrev minutely : Crons
minutely = record {
  Location = Unit;
  utc = tt;
  Schedule = Unit;
  parse_standard = λ expr. some tt;
  next = λ s l t. t + 60 * second;
  next_later = λ s l t n. omega arith;
}

abbrev every_ten : Spec minutely
every_ten = record {
  kind = kind_every;
  at = 5 * second;
  every = 10 * second;
  cron = [];
  loc = none;
}

ten_on_Grid : Grid minutely every_ten (37 * second)
ten_on_Grid = record { kind = refl; positive = omega arith; small = omega arith }

next_after-grid_example :
    (n : ℕ) × (next_after minutely every_ten (37 * second) ≡ some (5 * second + n * (10 * second)))
    × (1 ≤ n)
    × (37 * second < 5 * second + n * (10 * second))
    × ((m : ℕ)
        → 1 ≤ m
        → 37 * second < 5 * second + m * (10 * second)
        → 5 * second + n * (10 * second) ≤ 5 * second + m * (10 * second))
next_after-grid_example = next_after-grid minutely every_ten (37 * second) ten_on_Grid

ten-InRange : InRange minutely every_ten (37 * second)
ten-InRange k p = omega arith

forty_five : next_after minutely every_ten (37 * second) ≡ some (45 * second)
unfolding next_after add elapsed slot
forty_five = refl

next_after-later_example : 37 * second < 45 * second
next_after-later_example =
    next_after-later minutely every_ten (37 * second) (45 * second) ten-InRange forty_five

decide-fire_iff_example : ((decide minutely every_ten (35 * second) (37 * second)).fire ≡ true) ↔ (
    (35 * second ≤ 37 * second)
    × ((kind_every ≡ kind_at)
        ⊎ ((kind_every ≢ kind_at)
            × ((t : Time) × (next_after minutely every_ten (37 * second) ≡ some t))
            × WithinGrace (35 * second) (37 * second))))
decide-fire_iff_example = decide-fire_iff minutely every_ten (35 * second) (37 * second)

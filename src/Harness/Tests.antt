-- ===== src/Harness/Tests.antt =====
-- The theorems on internal/harness, applied to a short session.
use ppz.Base.{ℕ, ◌+◌, ◌*◌, ◌^◌, ◌<◌, ◌≡◌, ◌↔◌, List, [], ◌∷◌, Time, millisecond, elapsed}
use ppz.Harness.{working, state, output_activity_window}
use ppz.Harness.Working.{Observation, output, input, tracked, Own, working_iff}

abbrev at : ℕ → Time
at t = 2 ^ 63 + t * millisecond

abbrev history : List Observation
history = output (at 9000) ∷ input (at 7000) ∷ output (at 500) ∷ []

working_iff_example :
    (state (at 9500) (tracked (at 100) history) ≡ working)
    ↔ ((t : Time) × Own (at 100) history t × (elapsed (at 9500) t < output_activity_window))
working_iff_example = working_iff (at 100) (at 9500) history

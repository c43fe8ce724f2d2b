-- ===== src/Daemon/Heartbeats/Status.antt =====
-- When an agent is shown as online, stale or offline.
use ppz.Base.{
  ℕ, ◌+◌, ◌*◌, ◌^◌, ◌≤◌, ◌<◌, ◌≡◌, ◌≢◌, Time, zero_time, second, elapsed, is_nonpositive,
  if◌then◌else◌, ltb, arith,
}
use native.Mathlib.Nat.{mod-eq_of_lt}
use ppz.Daemon.Heartbeats.{Liveness, online, stale, offline, less, times, classify_heartbeat_status}

-- The interval that counts, in nanoseconds: 60 seconds where none above 0 is given.
abbrev pub interval_of : ℕ → ℕ
interval_of n = (if is_nonpositive n then 60 else n) * second

less-ltb : (a b : ℕ) → a < 2 ^ 63 → b < 2 ^ 63 → less a b ≡ ltb a b
less-ltb a b h k = ground arith

times-small : (a b : ℕ) → a * b < 2 ^ 64 → times a b ≡ a * b
times-small a b h = omega (arith, mod-eq_of_lt h)

-- The rule without machine arithmetic.
abbrev pub rule : Time → Time → ℕ → Liveness
rule last now interval =
    if ltb (2 * now) (2 * last + 3 * interval)
    then online
    else if ltb now (last + 3 * interval)
    then stale
    else offline

module _ (last now : Time) (n : ℕ) where
  in_bounds :
      (i : ℕ)
      → 1 ≤ i
      → i < 2 ^ 61
      → now < last + 2 ^ 62
      → (if ltb now last
          then online
          else if less (times 2 (elapsed now last)) (times 3 i)
          then online
          else if less (elapsed now last) (times 3 i)
          then stale
          else offline)
        ≡ rule last now i
  unfolding elapsed
  in_bounds i p h k = ground arith

  -- For a last beat that is not the zero time, an interval, or 60 seconds where none above 0 is
  -- given, under 2^61 nanoseconds, and an age under 2^62, the machine arithmetic does not wrap:
  -- the status is online for less than one and a half intervals or a beat from the future, stale
  -- for less than three, and offline otherwise.
  pub classify-rule :
      last ≢ zero_time
      → interval_of n < 2 ^ 61
      → now < last + 2 ^ 62
      → classify_heartbeat_status last now n ≡ rule last now (interval_of n)
  unfolding classify_heartbeat_status
  classify-rule s h k =
      ground
        (arith, times-small (if is_nonpositive n then 60 else n) second, in_bounds (interval_of n))

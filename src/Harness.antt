-- ===== src/Harness.antt =====
-- internal/harness/activity.go and detector.go: whether the harness in a terminal works or idles.
pub mod Working
pub mod Detection
mod Tests
use ppz.Base.{
  ℕ, ◌*◌, Bool, true, false, not, ◌&&◌, ◌||◌, Option, none, some, List, [], ◌∷◌, if◌then◌else◌,
  nat_eq, ltb, Text, text_eq, Time, zero_time, Duration, second, millisecond, elapsed,
}

abbrev pub output_activity_window : Duration
output_activity_window = 1800 * millisecond

abbrev pub input_taint_window : Duration
input_taint_window = 1200 * millisecond

abbrev pub startup_grace_window : Duration
startup_grace_window = 3 * second

-- `type State string`, whose values are these constants.
pub data State : Type 0 where
  unknown idle working blocked : State

pub record Tracker : Type 0 where
  pub start : Time
  pub last_input : Time
  pub last_agent_out : Time

unfoldable pub new_tracker : Time → Tracker
new_tracker start = record { start = start; last_input = zero_time; last_agent_out = zero_time }

unfoldable pub observe_output : Time → Tracker → Tracker
observe_output now t =
    if ltb (elapsed now t.start) startup_grace_window
    then t
    else if not (nat_eq t.last_input zero_time) && ltb (elapsed now t.last_input) input_taint_window
    then t
    else if ltb t.last_agent_out now
    then record t { last_agent_out = now }
    else t

unfoldable pub observe_input : Time → Tracker → Tracker
observe_input now t = if ltb t.last_input now then record t { last_input = now } else t

unfoldable pub state : Time → Tracker → State
state now t =
    if not (nat_eq t.last_agent_out zero_time)
      && ltb (elapsed now t.last_agent_out) output_activity_window
    then working
    else idle

pub record ForegroundProc : Type 0 where
  pub pid : ℕ
  pub comm : Text
  pub argv : List Text

pub record DetectionResult : Type 0 where
  pub harness : Text
  pub child_pid : ℕ
  pub state : State

-- `screen` tells whether a source of the screen is set, and `tracker` is a pointer that may be nil.
pub record Detector : Type 0 where
  pub screen : Bool
  pub harness : Text
  pub child_pid : ℕ
  pub tracker : Option Tracker

unfoldable pub new_detector : Detector
new_detector = record { screen = false; harness = []; child_pid = 0; tracker = none }

unfoldable pub set_screen : Detector → Detector
set_screen d = record d { screen = true }

unfoldable pub detector_output : Time → Detector → Detector
detector_output now d = elim d.tracker [
  | none ↦ d
  | some t ↦ record d { tracker = some (observe_output now t) }
]

unfoldable pub detector_input : Time → Detector → Detector
detector_input now d = elim d.tracker [
  | none ↦ d
  | some t ↦ record d { tracker = some (observe_input now t) }
]

-- What the wrapper's goroutines call, each under the lock.
pub data Event : Type 0 where
  on_screen : Event
  on_poll : Option ForegroundProc → Time → Event
  on_output on_input : Time → Event

-- `Identify`, and the patterns of each harness's screen.
module _ (identify : Text → List Text → Text)
    (screen_detector_for : Text → Option (Text → Bool)) where
  -- `none` is an error of the inspector.
  unfoldable pub poll : Option ForegroundProc → Time → Detector → Detector
  poll none now d = d
  poll (some proc) now d =
      let name = identify proc.comm proc.argv in
      if text_eq name []
      then record d { harness = []; child_pid = 0; tracker = none }
      else if not (text_eq name d.harness) || not (nat_eq proc.pid d.child_pid)
      then record d { harness = name; child_pid = proc.pid; tracker = some (new_tracker now) }
      else d

  unfoldable pub arbitrate : Detector → Text → State → State
  arbitrate d content idle =
      if d.screen
      then elim (screen_detector_for d.harness) [
        | none ↦ idle
        | some shows_blocked ↦ if shows_blocked content then blocked else idle
      ]
      else idle
  arbitrate d content s = s

  -- `content` is what the source of the screen gives. `none` is the panic of a nil tracker.
  unfoldable pub snapshot : Time → Text → Detector → Option DetectionResult
  unfolding arbitrate
  snapshot now content d =
      if text_eq d.harness []
      then some (record { harness = []; child_pid = 0; state = unknown })
      else elim d.tracker [
        | none ↦ none
        | some t ↦ some (record {
          harness = d.harness;
          child_pid = d.child_pid;
          state = arbitrate d content (state now t);
        })
      ]

  unfoldable pub handle : Event → Detector → Detector
  unfolding poll
  handle on_screen d = set_screen d
  handle (on_poll proc now) d = poll proc now d
  handle (on_output now) d = detector_output now d
  handle (on_input now) d = detector_input now d

  unfoldable pub handle_all : List Event → Detector → Detector
  unfolding handle
  handle_all [] d = d
  handle_all (e ∷ events) d = handle_all events (handle e d)

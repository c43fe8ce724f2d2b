-- ===== src/Harness/Working.antt =====
-- What the tracker calls working, as a statement on the history of observations.
use ppz.Base.{
  ◌≤◌, ◌<◌, ◌≡◌, refl, ◌≢◌, ◌↔◌, ◌⊎◌, inl, inr, Bool, true, not, ◌&&◌, List, [], ◌∷◌, arith,
  if◌then◌else◌, ltb, nat_eq, Bool-cases, Time, zero_time, elapsed,
}
use ppz.Harness.{
  output_activity_window, input_taint_window, startup_grace_window, working, Tracker, new_tracker,
  observe_output, observe_input, state,
}

pub data Observation : Type 0 where
  output input : Time → Observation

abbrev pub observe : Observation → Tracker → Tracker
observe (output t) tracker = observe_output t tracker
observe (input t) tracker = observe_input t tracker

-- The newest observation stands first.
unfoldable pub tracked : Time → List Observation → Tracker
tracked start [] = new_tracker start
tracked start (x ∷ older) = observe x (tracked start older)

-- No input was seen less than the taint window before.
abbrev pub Untainted : Time → List Observation → Type 0
Untainted t [] = Unit
Untainted t (output u ∷ older) = Untainted t older
Untainted t (input u ∷ older) =
    (zero_time < u → input_taint_window ≤ elapsed t u) × Untainted t older

-- An output that is the harness's own: after the grace, and not in the wake of an input.
abbrev pub Own : Time → List Observation → Time → Type 0
Own start [] t = ⊥
Own start (input u ∷ older) t = Own start older t
Own start (output u ∷ older) t =
    ((u ≡ t) × (zero_time < u) × (startup_grace_window ≤ elapsed u start) × Untainted u older)
    ⊎ Own start older t

start_lem : (start : Time) (h : List Observation) → (tracked start h).start ≡ start
unfolding tracked observe_output observe_input new_tracker
start_lem start [] = refl
start_lem start (output t ∷ older) = ground (arith, start_lem start older)
start_lem start (input t ∷ older) = ground (arith, start_lem start older)

abbrev Quiet : Time → Time → Type 0
Quiet t last = (last ≡ zero_time) ⊎ (input_taint_window ≤ elapsed t last)

elapsed_anti : (t u v : Time) → u ≤ v → elapsed t v ≤ elapsed t u
unfolding elapsed
elapsed_anti t u v h = ground arith

-- An input makes for quiet exactly when it is long past and it was quiet before.
later-Quiet :
    (t last u : Time)
    → zero_time ≤ last
    → Quiet t (if ltb last u then u else last)
      ↔ ((zero_time < u → input_taint_window ≤ elapsed t u) × Quiet t last)
later-Quiet t last u h = elim (Bool-cases (ltb last u)) [
  | inl newer ↦ rw newer (
    λ q. (λ z. ground arith, inr (ground (arith, elapsed_anti t last u))),
    λ (k, q). inr (k (ground arith)),
  )
  | inr old ↦ rw old (λ q. (λ z. ground (arith, elapsed_anti t u last), q), λ (k, q). q)
]

last_input_floor : (start : Time) (h : List Observation) → zero_time ≤ (tracked start h).last_input
unfolding tracked observe_output observe_input new_tracker
last_input_floor start [] = omega arith
last_input_floor start (output t ∷ older) = ground (arith, last_input_floor start older)
last_input_floor start (input t ∷ older) = ground (arith, last_input_floor start older)

last_input-input :
    (start u : Time) (older : List Observation)
    → (tracked start (input u ∷ older)).last_input
      ≡ (if ltb (tracked start older).last_input u then u else (tracked start older).last_input)
unfolding tracked observe_input
last_input-input start u older = ground arith

last_input-output :
    (start u : Time) (older : List Observation)
    → (tracked start (output u ∷ older)).last_input ≡ (tracked start older).last_input
unfolding tracked observe_output
last_input-output start u older = ground arith

Untainted-iff :
    (start t : Time) (h : List Observation) → Quiet t (tracked start h).last_input ↔ Untainted t h
unfolding tracked new_tracker
Untainted-iff start t [] = (λ q. tt, λ q. inl refl)
Untainted-iff start t (output u ∷ older) =
    rw (last_input-output start u older) (Untainted-iff start t older)
Untainted-iff start t (input u ∷ older) =
    let step = later-Quiet t (tracked start older).last_input u (last_input_floor start older) in
    let rest = Untainted-iff start t older in
    rw (last_input-input start u older)
      (λ q. let (k, r) = step.0 q in (k, rest.0 r), λ (k, r). step.1 (k, rest.1 r))

-- The test that `ObserveOutput` makes.
abbrev counts : Time → Tracker → Bool
counts now t =
    not (ltb (elapsed now t.start) startup_grace_window)
    && not
        (not (nat_eq t.last_input zero_time) && ltb (elapsed now t.last_input) input_taint_window)
    && ltb zero_time now

counts_iff :
    (start t : Time) (h : List Observation)
    → (counts t (tracked start h) ≡ true)
      ↔ ((zero_time < t) × (startup_grace_window ≤ elapsed t start) × Untainted t h)
counts_iff start t h =
    let (quiet, clear) = Untainted-iff start t h in
    (
      λ k. (
        ground arith,
        ground (arith, start_lem start h),
        quiet (elim (Bool-cases (nat_eq (tracked start h).last_input zero_time)) [
          | inl e ↦ inl (ground arith)
          | inr e ↦ inr (ground arith)
        ]),
      ),
      λ (after, grace, untainted). let q = clear untainted in ground (arith, start_lem start h),
    )

last_out_floor :
    (start : Time) (h : List Observation) → zero_time ≤ (tracked start h).last_agent_out
unfolding tracked observe_output observe_input new_tracker
last_out_floor start [] = omega arith
last_out_floor start (output t ∷ older) = ground (arith, last_out_floor start older)
last_out_floor start (input t ∷ older) = ground (arith, last_out_floor start older)

last_out-output :
    (start t : Time) (older : List Observation)
    → (tracked start (output t ∷ older)).last_agent_out ≡ (
        if counts t (tracked start older) && ltb (tracked start older).last_agent_out t
        then t
        else (tracked start older).last_agent_out)
unfolding tracked observe_output
last_out-output start t older = ground (arith, last_out_floor start older)

last_out-input :
    (start u : Time) (older : List Observation)
    → (tracked start (input u ∷ older)).last_agent_out ≡ (tracked start older).last_agent_out
unfolding tracked observe_input
last_out-input start u older = ground arith

abbrev Fresh : Time → Time → Type 0
Fresh now last = (last ≢ zero_time) × (elapsed now last < output_activity_window)

Fresh-later :
    (now last u : Time)
    → zero_time ≤ last
    → zero_time < u
    → Fresh now (if ltb last u then u else last)
      ↔ ((elapsed now u < output_activity_window) ⊎ Fresh now last)
Fresh-later now last u h k = elim (Bool-cases (ltb last u)) [
  | inl newer ↦
      rw newer
        (λ q. inl q.1, λ q. (λ e. absurd (omega arith), ground (arith, elapsed_anti now last u)))
  | inr old ↦
      rw old (λ q. inr q, λ q. (λ e. ground (arith, old), ground (arith, elapsed_anti now u last)))
]

Fresh-iff :
    (start now : Time) (h : List Observation)
    → Fresh now (tracked start h).last_agent_out
      ↔ ((t : Time) × Own start h t × (elapsed now t < output_activity_window))
unfolding tracked new_tracker
Fresh-iff start now [] = (λ (n, k). absurd (n refl), λ (t, o, k). absurd o)
Fresh-iff start now (input u ∷ older) =
    rw (last_out-input start u older) (Fresh-iff start now older)
Fresh-iff start now (output u ∷ older) =
    let (there, back) = Fresh-iff start now older in
    elim (Bool-cases (counts u (tracked start older))) [
      | inl counted ↦
          let own = (counts_iff start u older).0 counted in
          let step =
            Fresh-later now (tracked start older).last_agent_out u (last_out_floor start older)
              own.0 in
          rw (last_out-output start u older, counted)
            (
              λ q. elim (step.0 q) [
                | inl fresh ↦ (u, inl (refl, own.0, own.1, own.2), fresh)
                | inr rest ↦ let (t, o, k) = there rest in (t, inr o, k)
              ],
              λ (t, o, k).
                  step.1 (elim o [
                    | inl (e, _, _, _) ↦ inl (ground arith)
                    | inr o ↦ inr (back (t, o, k))
                  ]),
            )
      | inr passed ↦
          rw (last_out-output start u older, passed)
            (
              λ q. let (t, o, k) = there q in (t, inr o, k),
              λ (t, o, k). back (elim o [
                | inl (e, a, b, c) ↦ absurd (ground (arith, (counts_iff start u older).1 (a, b, c)))
                | inr o ↦ (t, o, k)
              ]),
            )
    ]

-- After any history of observations the tracker says working exactly when some output of the
-- harness's own is less than 1.8 seconds old: one later than the zero time, from 3 seconds after
-- the start on, and from 1.2 seconds after every input observed before it.
pub working_iff :
    (start now : Time) (h : List Observation)
    → (state now (tracked start h) ≡ working)
      ↔ ((t : Time) × Own start h t × (elapsed now t < output_activity_window))
unfolding state
working_iff start now h =
    let (there, back) = Fresh-iff start now h in
    (λ e. there (λ z. ground arith, ground arith), λ o. let f = back o in ground arith)

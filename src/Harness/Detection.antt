-- ===== src/Harness/Detection.antt =====
-- The detector never reads a nil tracker.
use ppz.Base.{
  ◌≡◌, refl, sym, ◌∙◌, ◌≢◌, ◌↔◌, inl, inr, Bool, true, false, not, Option, none, some, List, [],
  ◌∷◌, arith, Text, text_eq, text_eq_iff, Time, Bool-cases, Option-cases,
}
use ppz.Harness.{
  unknown, ForegroundProc, DetectionResult, Detector, Tracker, new_detector, set_screen,
  detector_output, detector_input, poll, arbitrate, snapshot, state, Event, on_screen, on_poll,
  on_output, on_input, handle, handle_all,
}

-- A harness is identified exactly when there is a tracker.
abbrev pub is_set : Option Tracker → Bool
is_set none = false
is_set (some t) = true

abbrev pub WellFormed : Detector → Type 0
WellFormed d = is_set d.tracker ≡ not (text_eq d.harness [])

new_detector-WellFormed : WellFormed new_detector
unfolding new_detector text_eq
new_detector-WellFormed = refl

module _ (identify : Text → List Text → Text)
    (screen_detector_for : Text → Option (Text → Bool)) where
  poll-WellFormed :
      (proc : Option ForegroundProc) (now : Time) (d : Detector)
      → WellFormed d
      → WellFormed (poll identify screen_detector_for proc now d)
  unfolding poll text_eq
  poll-WellFormed none now d k = k
  poll-WellFormed (some proc) now d k = ground (arith, k)

  handle-WellFormed :
      (e : Event) (d : Detector)
      → WellFormed d
      → WellFormed (handle identify screen_detector_for e d)
  unfolding handle set_screen detector_output detector_input
  handle-WellFormed on_screen d k = k
  handle-WellFormed (on_poll proc now) d k = poll-WellFormed proc now d k
  handle-WellFormed (on_output now) d k = ground (arith, k)
  handle-WellFormed (on_input now) d k = ground (arith, k)

  handle_all-WellFormed :
      (events : List Event) (d : Detector)
      → WellFormed d
      → WellFormed (handle_all identify screen_detector_for events d)
  unfolding handle_all
  handle_all-WellFormed [] d k = k
  handle_all-WellFormed (e ∷ events) d k = handle_all-WellFormed events _ (handle-WellFormed e d k)

  known_state :
      (d : Detector) (content : Text) (now : Time) (t : Tracker)
      → arbitrate identify screen_detector_for d content (state now t) ≢ unknown
  unfolding arbitrate state
  known_state d content now t e = ground (arith, e)

  snapshot-some :
      (now : Time) (content : Text) (d : Detector)
      → WellFormed d
      → (r : DetectionResult) × (snapshot identify screen_detector_for now content d ≡ some r)
        × (r.harness ≡ d.harness)
        × ((r.state ≡ unknown) ↔ (d.harness ≡ []))
  unfolding snapshot arbitrate state
  snapshot-some now content d k = elim (Bool-cases (text_eq d.harness [])) [
    | inl empty ↦
        let blank : d.harness ≡ [] = (text_eq_iff _ _).0 empty in
        (
          record { harness = []; child_pid = 0; state = unknown },
          ground (arith, empty),
          sym blank,
          (λ e. blank, λ e. refl),
        )
    | inr full ↦ elim (Option-cases d.tracker) [
      | inl e ↦ absurd (ground (arith, full, e))
      | inr (t, e) ↦ (
        record {
          harness = d.harness;
          child_pid = d.child_pid;
          state = arbitrate identify screen_detector_for d content (state now t);
        },
        ground (arith, full, e),
        refl,
        (
          λ u. absurd (known_state d content now t u),
          λ z. absurd (ground (arith, full, text_eq_iff d.harness [])),
        ),
      )
    ]
  ]

  -- After any sequence of calls on a new detector, a snapshot does not dereference a nil tracker,
  -- it reports the harness identified, and its state is unknown exactly when there is none.
  pub snapshot-handle_all :
      (events : List Event) (now : Time) (content : Text)
      → (r : DetectionResult) × (snapshot identify screen_detector_for now content
            (handle_all identify screen_detector_for events new_detector)
          ≡ some r)
        × (r.harness ≡ (handle_all identify screen_detector_for events new_detector).harness)
        × ((r.state ≡ unknown) ↔ (r.harness ≡ []))
  snapshot-handle_all events now content =
      let (r, e, same, s) =
        snapshot-some now content _
          (handle_all-WellFormed events new_detector new_detector-WellFormed) in
      (r, e, same, (λ u. same ∙ s.0 u, λ z. s.1 (sym same ∙ z)))

-- ===== src/Daemon/Events/Patterns/Storms.antt =====
-- When there is a storm of swaps.
use ppz.Base.{
  ℕ, suc, ◌+◌, ◌≤◌, ◌≡◌, ◌≢◌, ◌↔◌, ◌⊎◌, inl, inr, refl, sym, ap, ◌∙◌, Bool, true, ◌&&◌, List, [],
  ◌∷◌, ◌++◌, if◌then◌else◌, ltb, leb, filter, length, utf8, Time, elapsed, arith, Bool-cases,
}
use ppz.Daemon.Events.{NatsEvent}
use ppz.Daemon.Events.Patterns.{
  burst_swap_window, burst_swap_min, is_kind, scan_swaps, bursts, detect_burst_swap_storm,
}

-- The events before the first one that is later than the window after an instant.
abbrev pub within : Time → List NatsEvent → List NatsEvent
within t [] = []
within t (ev ∷ events) =
    if ltb burst_swap_window (elapsed ev.at t) then [] else ev ∷ within t events

abbrev pub swaps : List NatsEvent → List NatsEvent
swaps events = filter (is_kind (utf8 "swap")) events

scan_swaps-length :
    (t : Time) (j count end : ℕ) (events : List NatsEvent)
    → (scan_swaps t j count end events).0 ≡ count + length (swaps (within t events))
unfolding scan_swaps
scan_swaps-length t j count end [] = omega arith
scan_swaps-length t j count end (ev ∷ events) =
    elim (Bool-cases (ltb burst_swap_window (elapsed ev.at t))) [
      | inl late ↦ rw late (omega arith)
      | inr soon ↦ elim (Bool-cases (is_kind (utf8 "swap") ev)) [
        | inl swap ↦
            rw (soon, swap) (scan_swaps-length t (suc j) (suc count) j events ∙ omega arith)
        | inr other ↦ rw (soon, other) (scan_swaps-length t (suc j) count end events)
      ]
    ]

-- A swap is followed by at least two others within the window.
abbrev pub HasStorm : List NatsEvent → Type 0
HasStorm events =
    (before : List NatsEvent) × (ev : NatsEvent) × (behind : List NatsEvent) × (events
      ≡ before ++ (ev ∷ behind))
    × (is_kind (utf8 "swap") ev ≡ true)
    × (2 ≤ length (swaps (within ev.at behind)))

starts_storm : NatsEvent → List NatsEvent → Bool
starts_storm ev events =
    is_kind (utf8 "swap") ev && leb burst_swap_min (scan_swaps ev.at 1 1 0 events).0

starts_storm_iff :
    (ev : NatsEvent) (events : List NatsEvent)
    → (starts_storm ev events ≡ true)
      ↔ ((is_kind (utf8 "swap") ev ≡ true) × (2 ≤ length (swaps (within ev.at events))))
unfolding starts_storm
starts_storm_iff ev events =
    let count = scan_swaps-length ev.at 1 1 0 events in
    (λ h. (ground arith, ground (arith, count)), λ (s, n). ground (arith, count))

bursts_some :
    (ev : NatsEvent) (events : List NatsEvent)
    → (bursts 0 (ev ∷ events) ≢ []) ↔ ((starts_storm ev events ≡ true) ⊎ (bursts 0 events ≢ []))
unfolding bursts starts_storm
bursts_some ev events = elim (Bool-cases (starts_storm ev events)) [
  | inl k ↦ (λ h. inl k, λ m e. ground (arith, k))
  | inr k ↦
      (λ h. inr (λ e. h (rw k e)), λ m. elim m [ inl t ↦ absurd (ground arith) | inr n ↦ rw k n ])
]

storm_sound : (events : List NatsEvent) → bursts 0 events ≢ [] → HasStorm events
unfolding bursts
storm_sound [] h = absurd (h refl)
storm_sound (ev ∷ events) h = elim ((bursts_some ev events).0 h) [
  | inl k ↦ let (s, n) = (starts_storm_iff ev events).0 k in ([], ev, events, refl, s, n)
  | inr later ↦
      let (before, e, behind, is, s, n) = storm_sound events later in
      (ev ∷ before, e, behind, ap (λ (l : List NatsEvent). ev ∷ l) is, s, n)
]

storm_complete :
    (before : List NatsEvent) (e : NatsEvent) (behind : List NatsEvent)
    → is_kind (utf8 "swap") e ≡ true
    → 2 ≤ length (swaps (within e.at behind))
    → bursts 0 (before ++ (e ∷ behind)) ≢ []
storm_complete [] e behind s n =
    (bursts_some e behind).1 (inl ((starts_storm_iff e behind).1 (s, n)))
storm_complete (ev ∷ before) e behind s n =
    (bursts_some ev (before ++ (e ∷ behind))).1 (inr (storm_complete before e behind s n))

-- `detectBurstSwapStorm` reports a storm exactly when some swap is followed by at least two more
-- before the first event that is over two seconds later.
pub storm_iff : (events : List NatsEvent) → (detect_burst_swap_storm events ≢ []) ↔ HasStorm events
unfolding detect_burst_swap_storm
storm_iff events = (
  storm_sound events,
  λ (before, e, behind, is, s, n) none_found.
      storm_complete before e behind s n (ap (bursts 0) (sym is) ∙ none_found),
)

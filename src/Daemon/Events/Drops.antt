-- ===== src/Daemon/Events/Drops.antt =====
-- Which disconnects count as drops.
use ppz.Base.{
  ℕ, zero, suc, ◌+◌, ◌-◌, ◌*◌, ◌^◌, ◌≤◌, ◌<◌, ◌≡◌, ◌↔◌, ◌⊎◌, inl, inr, refl, ap, subst, ◌∙◌, Bool,
  true, false, ◌&&◌, none, some, List, [], ◌∷◌, if◌then◌else◌, ltb, length, text_eq, text_eq_iff,
  utf8, Time, second, add, elapsed, arith, Bool-cases, Option-cases,
}
use native.Mathlib.Nat.{add-zero}
use ppz.Daemon.Events.{
  NatsEvent, EventRing, get_elem?, swap_reason_retired, swap_drop_attribution_window,
  attributed_before, swap_attributed_disconnect, is_drop, count_drops, drops_last_hour, hour,
}

-- A swap, less than five seconds before, that names the connection of `ev` as the one it retired.
abbrev pub Retires : NatsEvent → NatsEvent → Type 0
Retires ev e = (e.kind ≡ utf8 "swap") × (swap_reason_retired e.reason ev.nc_id ≡ true)

-- At most five seconds later, or earlier.
abbrev pub WithinWindow : NatsEvent → NatsEvent → Type 0
WithinWindow ev e = ev.at ≤ e.at + 5 * second

within_iff :
    (ev e : NatsEvent)
    → (ltb swap_drop_attribution_window (elapsed ev.at e.at) ≡ false) ↔ WithinWindow ev e
unfolding elapsed
within_iff ev e = ground arith

module _ (events : List NatsEvent) (ev : NatsEvent) where
  -- Among the first `i` events, a swap retired the connection, and it and all events after it are within
  -- the window.
  pub record Attributed (i : ℕ) : Type 0 where
    pub index : ℕ
    pub swap : NatsEvent
    pub before : index < i
    pub stands : get_elem? events index ≡ some swap
    pub retires : Retires ev swap
    pub close :
        (k : ℕ) (e : NatsEvent)
        → index ≤ k
        → k < i
        → get_elem? events k ≡ some e
        → WithinWindow ev e

  abbrev is_retiring : NatsEvent → Bool
  is_retiring e = text_eq e.kind (utf8 "swap") && swap_reason_retired e.reason ev.nc_id

  retiring_iff : (e : NatsEvent) → (is_retiring e ≡ true) ↔ Retires ev e
  retiring_iff e = ground (arith, text_eq_iff e.kind (utf8 "swap"))

  attributed_step :
      (j : ℕ) (e : NatsEvent)
      → get_elem? events j ≡ some e
      → attributed_before events ev (suc j) ≡ (
          if ltb swap_drop_attribution_window (elapsed ev.at e.at)
          then false
          else if is_retiring e
          then true
          else attributed_before events ev j)
  unfolding attributed_before
  attributed_step j e h = ground (arith, h)

  attributed_out : (j : ℕ) → get_elem? events j ≡ none → attributed_before events ev (suc j) ≡ false
  unfolding attributed_before
  attributed_out j h = ground (arith, h)

  found_here :
      (j : ℕ) (e : NatsEvent)
      → get_elem? events j ≡ some e
      → WithinWindow ev e
      → Retires ev e
      → Attributed (suc j)
  found_here j e at w r = record {
    index = j;
    swap = e;
    before = omega arith;
    stands = at;
    retires = r;
    close = λ k d le lt h.
        let same : k ≡ j = omega arith in
        let one : e ≡ d = cc (ap (get_elem? events) same) in subst (WithinWindow ev) one w;
  }

  found_earlier :
      (j : ℕ) (e : NatsEvent)
      → get_elem? events j ≡ some e
      → WithinWindow ev e
      → Attributed j
      → Attributed (suc j)
  found_earlier j e at w a = record {
    index = a.index;
    swap = a.swap;
    before = omega (arith, a.before);
    stands = a.stands;
    retires = a.retires;
    close = λ k d le lt h. elim (Bool-cases (ltb k j)) [
      | inl earlier ↦ a.close k d le (ground arith) h
      | inr later ↦
          let same : k ≡ j = ground arith in
          let one : e ≡ d = cc (ap (get_elem? events) same) in subst (WithinWindow ev) one w
    ];
  }

  attributed_sound : (i : ℕ) → attributed_before events ev i ≡ true → Attributed i
  unfolding attributed_before
  attributed_sound zero h = absurd (ground arith)
  attributed_sound (suc j) h = elim (Option-cases (get_elem? events j)) [
    | inl out ↦ absurd (ground (arith, attributed_out j out))
    | inr (e, at) ↦ elim (Bool-cases (ltb swap_drop_attribution_window (elapsed ev.at e.at))) [
      | inl far ↦ absurd (ground (arith, attributed_step j e at))
      | inr near ↦
          let w = (within_iff ev e).0 near in
          elim (Bool-cases (is_retiring e)) [
            | inl r ↦ found_here j e at w ((retiring_iff e).0 r)
            | inr other ↦
                let rest : attributed_before events ev j ≡ true =
                  cc (attributed_step j e at, near, other, h) in
                found_earlier j e at w (attributed_sound j rest)
          ]
    ]
  ]

  in_range :
      (xs : List NatsEvent) (j : ℕ) → j < length xs → (e : NatsEvent) × (get_elem? xs j ≡ some e)
  in_range [] j h = absurd (omega arith)
  in_range (x ∷ xs) zero h = (x, refl)
  in_range (x ∷ xs) (suc j) h = in_range xs j (omega arith)

  retired_earlier :
      (j : ℕ) (e : NatsEvent) (a : Attributed (suc j))
      → get_elem? events j ≡ some e
      → is_retiring e ≡ false
      → a.index < j
  retired_earlier j e a at other = elim (Bool-cases (ltb a.index j)) [
    | inl h ↦ ground arith
    | inr h ↦
        let same : a.index ≡ j = ground (arith, a.before) in
        let one : a.swap ≡ e = cc (a.stands, ap (get_elem? events) same, at) in
        absurd (ground (arith, (retiring_iff e).1 (subst (Retires ev) one a.retires)))
  ]

  attributed_complete :
      (i : ℕ) → i ≤ length events → Attributed i → attributed_before events ev i ≡ true
  attributed_complete zero h a = absurd (omega (arith, a.before))
  attributed_complete (suc j) h a =
      let (e, at) = in_range events j (omega arith) in
      let w : WithinWindow ev e = a.close j e (omega (arith, a.before)) (omega arith) at in
      let near = (within_iff ev e).1 w in
      elim (Bool-cases (is_retiring e)) [
        | inl r ↦ attributed_step j e at ∙ rw (near, r)
        | inr other ↦
            let earlier = retired_earlier j e a at other in
            attributed_step j e at
            ∙ (rw (near, other)
                (attributed_complete j (omega arith) (record {
                  index = a.index;
                  swap = a.swap;
                  before = earlier;
                  stands = a.stands;
                  retires = a.retires;
                  close = λ k d le lt g. a.close k d le (omega arith) g;
                })))
      ]

  attributed_iff :
      (i : ℕ) → i ≤ length events → (attributed_before events ev i ≡ true) ↔ Attributed i
  attributed_iff i h = (attributed_sound i, attributed_complete i h)

-- A disconnect in the last hour that no swap accounts for.
pub record IsDrop (events : List NatsEvent) (now : Time) (i : ℕ) (ev : NatsEvent) : Type 0 where
  pub disconnect : ev.kind ≡ utf8 "disconnect"
  pub recent : now ≤ ev.at + hour
  pub unexplained : (ev.nc_id ≡ []) ⊎ ¬ Attributed events ev i

module _ (events : List NatsEvent) (now : Time) where
  abbrev cutoff : Time
  cutoff = add now (2 ^ 64 - hour)

  recent_iff : (ev : NatsEvent) → (ltb ev.at cutoff ≡ false) ↔ (now ≤ ev.at + hour)
  unfolding add
  recent_iff ev = ground arith

  refute :
      {i : ℕ} {ev : NatsEvent}
      → (ev.nc_id ≡ []) ⊎ ¬ Attributed events ev i
      → text_eq ev.nc_id [] ≡ false
      → attributed_before events ev i ≡ true
      → ⊥
  refute {i} {ev} (inl k) e a = ground (arith, (text_eq_iff ev.nc_id []).1 k)
  refute {i} {ev} (inr n) e a = n (attributed_sound events ev i a)

  unexplained_iff :
      (i : ℕ) (ev : NatsEvent)
      → i ≤ length events
      → (swap_attributed_disconnect events i ev ≡ false)
        ↔ ((ev.nc_id ≡ []) ⊎ ¬ Attributed events ev i)
  unfolding swap_attributed_disconnect
  unexplained_iff i ev h = elim (Bool-cases (text_eq ev.nc_id [])) [
    | inl e ↦ (λ g. inl ((text_eq_iff ev.nc_id []).0 e), λ g. rw e)
    | inr e ↦ elim (Bool-cases (attributed_before events ev i)) [
      | inl a ↦ (λ g. absurd (ground arith), λ g. absurd (refute g e a))
      | inr a ↦
          (λ g. inr (λ b. ground (arith, attributed_complete events ev i h b)), λ g. rw (e, a))
    ]
  ]

  is_drop_iff :
      (i : ℕ) (ev : NatsEvent)
      → i ≤ length events
      → (is_drop events cutoff i ev ≡ true) ↔ IsDrop events now i ev
  unfolding is_drop
  is_drop_iff i ev h = (
    λ g. record {
      disconnect = (text_eq_iff ev.kind (utf8 "disconnect")).0 (ground arith);
      recent = (recent_iff ev).0 (ground arith);
      unexplained = (unexplained_iff i ev h).0 (ground arith);
    },
    λ d.
        let k = (text_eq_iff ev.kind (utf8 "disconnect")).1 d.disconnect in
        let t = (recent_iff ev).1 d.recent in
        let u = (unexplained_iff i ev h).1 d.unexplained in ground arith,
  )

  count_sound :
      (i : ℕ) (rest : List NatsEvent)
      → 0 < count_drops events cutoff i rest
      → (k : ℕ) × (ev : NatsEvent) × (get_elem? rest k ≡ some ev)
        × (is_drop events cutoff (i + k) ev ≡ true)
  unfolding count_drops
  count_sound i [] h = absurd (omega arith)
  count_sound i (ev ∷ rest) h = elim (Bool-cases (is_drop events cutoff i ev)) [
    | inl d ↦ (0, ev, refl, subst (λ n. is_drop events cutoff n ev ≡ true) (omega arith) d)
    | inr other ↦
        let (k, e, at, d) = count_sound (i + 1) rest (ground arith) in
        (suc k, e, at, subst (λ n. is_drop events cutoff n e ≡ true) (omega arith) d)
  ]

  count_complete :
      (i : ℕ) (rest : List NatsEvent) (k : ℕ) (ev : NatsEvent)
      → get_elem? rest k ≡ some ev
      → is_drop events cutoff (i + k) ev ≡ true
      → 0 < count_drops events cutoff i rest
  unfolding count_drops
  count_complete i [] k ev at d = absurd (ground arith)
  count_complete i (e ∷ rest) zero ev at d =
      let here : is_drop events cutoff i e ≡ true =
        cc (subst (λ n. is_drop events cutoff n ev ≡ true) (add-zero i) d, at) in
      ground (arith, here)
  count_complete i (e ∷ rest) (suc k) ev at d =
      let later =
        count_complete (i + 1) rest k ev at
          (subst (λ n. is_drop events cutoff n ev ≡ true) (omega arith) d) in
      omega (arith, later)

  index-le :
      (xs : List NatsEvent) (k : ℕ) (ev : NatsEvent) → get_elem? xs k ≡ some ev → k ≤ length xs
  index-le [] k ev h = absurd (ground arith)
  index-le (x ∷ xs) zero ev h = omega arith
  index-le (x ∷ xs) (suc k) ev h = omega (arith, index-le xs k ev h)

-- The drops of the last hour are above 0 exactly when some event of the ring is a disconnect at
-- most an hour old that has no connection id or to which no earlier swap that retired its
-- connection can be attributed, where that swap and all events from it on are at most five
-- seconds before the disconnect.
pub drops_last_hour_iff :
    (r : EventRing) (now : Time)
    → (0 < drops_last_hour r now)
      ↔ ((i : ℕ) × (ev : NatsEvent) × (get_elem? r.events i ≡ some ev) × IsDrop r.events now i ev)
unfolding drops_last_hour
drops_last_hour_iff r now = (
  λ h.
      let (k, ev, at, d) = count_sound r.events now 0 r.events h in
      let zero_add : 0 + k ≡ k = omega arith in
      let d' : is_drop r.events (cutoff r.events now) k ev ≡ true =
        subst (λ n. is_drop r.events (cutoff r.events now) n ev ≡ true) zero_add d in
      (k, ev, at, (is_drop_iff r.events now k ev (index-le r.events now r.events k ev at)).0 d'),
  λ (k, ev, at, d).
      let zero_add : k ≡ 0 + k = omega arith in
      let d' = (is_drop_iff r.events now k ev (index-le r.events now r.events k ev at)).1 d in
      count_complete r.events now 0 r.events k ev at
        (subst (λ n. is_drop r.events (cutoff r.events now) n ev ≡ true) zero_add d'),
)

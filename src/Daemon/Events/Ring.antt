-- ===== src/Daemon/Events/Ring.antt =====
-- The ring keeps the latest events.
use ppz.Base.{
  ℕ, zero, suc, ◌+◌, ◌-◌, ◌≤◌, ◌<◌, ◌≡◌, refl, sym, ap, ◌∙◌, subst, Option, none, some, List, [],
  ◌∷◌, ◌++◌, if◌then◌else◌, ltb, length, length-append, length-drop, drop, arith, is_nonpositive,
  Bool-cases, inl, inr,
}
use native.Mathlib.Numerals.{unary_clauses}
use ppz.Daemon.Events.{NatsEvent, ring_cap, EventRing, new_ring, stamp, copy, tail, set, append}

module _ {A : Type 0} where
  set_last :
      (x : A) (xs : List A) (v : A) → set (copy (x ∷ xs) xs) (length xs) v ≡ some (xs ++ v ∷ [])
  unfolding set copy
  set_last x [] v = refl
  set_last x (y ∷ xs) v = rw (set_last y xs v)

  -- The last `n` items.
  abbrev pub last_items : ℕ → List A → List A
  last_items n xs = drop (length xs - n) xs

  drop-append : (k : ℕ) (xs ys : List A) → k ≤ length xs → drop k (xs ++ ys) ≡ drop k xs ++ ys
  drop-append zero xs ys h = refl
  drop-append (suc k) [] ys h = absurd (omega arith)
  drop-append (suc k) (x ∷ xs) ys h = drop-append k xs ys (omega arith)

  drop-suc : (k : ℕ) (xs : List A) → drop (k + 1) xs ≡ tail (drop k xs)
  drop-suc zero [] = refl
  drop-suc zero (x ∷ xs) = refl
  drop-suc (suc k) [] = simp unary_clauses refl
  drop-suc (suc k) (x ∷ xs) =
      let e : suc (k + 1) ≡ suc k + 1 = omega arith in
      subst (λ (n : ℕ). drop n (x ∷ xs) ≡ tail (drop k xs)) e (drop-suc k xs)

  tail-append : (xs ys : List A) → 0 < length xs → tail (xs ++ ys) ≡ tail xs ++ ys
  tail-append [] ys h = absurd (omega arith)
  tail-append (x ∷ xs) ys h = refl

  set-tail :
      (xs : List A) (v : A)
      → 0 < length xs
      → set (copy xs (tail xs)) (length xs - 1) v ≡ some (tail xs ++ v ∷ [])
  set-tail [] v h = absurd (omega arith)
  set-tail (x ∷ xs) v h =
      subst (λ (n : ℕ). set (copy (x ∷ xs) xs) n v ≡ some (xs ++ v ∷ [])) (omega arith)
        (set_last x xs v)

  length-last_items :
      (n : ℕ) (xs : List A)
      → length (last_items n xs) ≡ (if ltb (length xs) n then length xs else n)
  length-last_items n xs = ground (arith, length-drop (length xs - n) xs)

  last_items_few :
      (n : ℕ) (xs : List A) (y : A)
      → length xs < n
      → last_items n (xs ++ y ∷ []) ≡ last_items n xs ++ y ∷ []
  last_items_few n xs y h =
      let whole : length (xs ++ y ∷ []) - n ≡ 0 = omega (arith, length-append {0} xs (y ∷ [])) in
      let before : length xs - n ≡ 0 = omega arith in rw (whole, before)

  last_items_full :
      (n : ℕ) (xs : List A) (y : A)
      → 0 < n
      → n ≤ length xs
      → last_items n (xs ++ y ∷ []) ≡ tail (last_items n xs) ++ y ∷ []
  last_items_full n xs y p h =
      let further : length (xs ++ y ∷ []) - n ≡ length xs - n + 1 =
        omega (arith, length-append {0} xs (y ∷ [])) in
      rw
        (
          further,
          drop-suc (length xs - n) (xs ++ y ∷ []),
          drop-append (length xs - n) xs (y ∷ []) (omega arith),
        )
        (tail-append (last_items n xs) (y ∷ []) (omega (arith, length-drop (length xs - n) xs)))

-- The events that arrived, the latest first, appended to a new ring.
unfoldable pub appends : ℕ → List NatsEvent → Option EventRing
appends cap [] = some (new_ring cap)
appends cap (ev ∷ older) = elim (appends cap older) [ none ↦ none | some r ↦ append ev r ]

-- The same events, the earliest first, each with its version.
abbrev pub in_order : List NatsEvent → List NatsEvent
in_order [] = []
in_order (ev ∷ older) = in_order older ++ stamp ev ∷ []

append-full :
    (ev : NatsEvent) (r : EventRing)
    → r.cap ≤ length r.events
    → 0 < length r.events
    → append ev r ≡ some (record r { events = tail r.events ++ stamp ev ∷ [] })
unfolding append
append-full ev r h p = ground (arith, set-tail r.events (stamp ev) p)

append-room :
    (ev : NatsEvent) (r : EventRing)
    → length r.events < r.cap
    → append ev r ≡ some (record r { events = r.events ++ stamp ev ∷ [] })
unfolding append
append-room ev r h = ground arith

-- A ring of this capacity that holds the last of `events`.
abbrev pub ring_of : ℕ → List NatsEvent → EventRing
ring_of cap events = record { events = last_items cap events; cap = cap }

append-ring_of :
    (cap : ℕ) (xs : List NatsEvent) (ev : NatsEvent)
    → 0 < cap
    → append ev (ring_of cap xs) ≡ some (ring_of cap (xs ++ stamp ev ∷ []))
append-ring_of cap xs ev h = elim (Bool-cases (ltb (length xs) cap)) [
  | inl few ↦
      append-room ev (ring_of cap xs) (ground (arith, length-last_items cap xs))
      ∙ ap (λ (l : List NatsEvent). some (record { events = l; cap = cap }))
          (sym (last_items_few cap xs (stamp ev) (ground arith)))
  | inr full ↦
      append-full ev (ring_of cap xs) (ground (arith, length-last_items cap xs))
        (ground (arith, length-last_items cap xs))
      ∙ ap (λ (l : List NatsEvent). some (record { events = l; cap = cap }))
          (sym (last_items_full cap xs (stamp ev) h (ground arith)))
]

-- The capacity of a new ring.
abbrev pub capacity : ℕ → ℕ
capacity cap = if is_nonpositive cap then ring_cap else cap

-- After any events were appended to a new ring it holds, in order and each with its version, the
-- last of them, as many as its capacity, which is 256 where the given one is not positive; no
-- append goes out of range.
pub appends-last_items :
    (cap : ℕ) (events : List NatsEvent)
    → appends cap events ≡ some (ring_of (capacity cap) (in_order events))
unfolding appends new_ring
appends-last_items cap [] = let none_left : 0 - capacity cap ≡ 0 = omega arith in rw none_left
appends-last_items cap (ev ∷ older) =
    rw (appends-last_items cap older)
      (append-ring_of (capacity cap) (in_order older) ev (ground arith))

-- ===== src/Daemon/Events/Patterns/Sorted.antt =====
-- The hits come out in the order of their instants.
use ppz.Base.{◌≤◌, inl, inr, List, [], ◌∷◌, ◌++◌, ltb, All, arith, Bool-cases}
use ppz.Daemon.Events.{NatsEvent}
use ppz.Daemon.Events.Patterns.{
  PatternHit, detect_burst_swap_storm, detect_post_rotation_auth_violation, sink, sort_hits,
  reverse_onto, detect_patterns,
}

-- Every hit is no later than all that come after it.
abbrev pub IsChronological : List PatternHit → Type 0
IsChronological [] = Unit
IsChronological (h ∷ hits) = All (λ (x : PatternHit). h.at ≤ x.at) hits × IsChronological hits

-- The hits from the last to the first.
abbrev IsBackward : List PatternHit → Type 0
IsBackward [] = Unit
IsBackward (h ∷ hits) = All (λ (x : PatternHit). x.at ≤ h.at) hits × IsBackward hits

module _ (P : PatternHit → Type 0) where
  All-sink : (h : PatternHit) (out : List PatternHit) → P h → All P out → All P (sink h out)
  unfolding sink
  All-sink h [] p k = (p, tt)
  All-sink h (x ∷ out) p k = elim (Bool-cases (ltb h.at x.at)) [
    | inl e ↦ rw e (k.0, All-sink h out p k.1)
    | inr e ↦ rw e (p, k)
  ]

earlier_all :
    (h x : PatternHit) (out : List PatternHit)
    → x.at ≤ h.at
    → All (λ (y : PatternHit). y.at ≤ x.at) out
    → All (λ (y : PatternHit). y.at ≤ h.at) out
earlier_all h x [] e k = tt
earlier_all h x (y ∷ out) e k = (omega (arith, k.0), earlier_all h x out e k.1)

sink-IsBackward :
    (h : PatternHit) (out : List PatternHit) → IsBackward out → IsBackward (sink h out)
unfolding sink
sink-IsBackward h [] b = (tt, tt)
sink-IsBackward h (x ∷ out) b = elim (Bool-cases (ltb h.at x.at)) [
  | inl e ↦ rw e (
    All-sink (λ (y : PatternHit). y.at ≤ x.at) h out (ground arith) b.0,
    sink-IsBackward h out b.1,
  )
  | inr e ↦
      let first : x.at ≤ h.at = ground arith in rw e ((first, earlier_all h x out first b.0), b)
]

sort_hits-IsBackward :
    (hits out : List PatternHit) → IsBackward out → IsBackward (sort_hits out hits)
unfolding sort_hits
sort_hits-IsBackward [] out b = b
sort_hits-IsBackward (h ∷ hits) out b =
    sort_hits-IsBackward hits (sink h out) (sink-IsBackward h out b)

-- Everything that is still to come is no later than what is there.
abbrev Before : List PatternHit → List PatternHit → Type 0
Before [] acc = Unit
Before (h ∷ hits) acc = All (λ (x : PatternHit). h.at ≤ x.at) acc × Before hits acc

Before-next :
    (h : PatternHit) (hits acc : List PatternHit)
    → All (λ (x : PatternHit). x.at ≤ h.at) hits
    → Before hits acc
    → Before hits (h ∷ acc)
Before-next h [] acc k b = tt
Before-next h (x ∷ hits) acc k b = ((k.0, b.0), Before-next h hits acc k.1 b.1)

reverse_onto-IsChronological :
    (hits acc : List PatternHit)
    → IsBackward hits
    → Before hits acc
    → IsChronological acc
    → IsChronological (reverse_onto acc hits)
unfolding reverse_onto
reverse_onto-IsChronological [] acc b k c = c
reverse_onto-IsChronological (h ∷ hits) acc b k c =
    reverse_onto-IsChronological hits (h ∷ acc) b.1 (Before-next h hits acc b.0 k.1) (k.0, c)

nothing-Before : (hits : List PatternHit) → Before hits []
nothing-Before [] = tt
nothing-Before (h ∷ hits) = (tt, nothing-Before hits)

pub detect_patterns-IsChronological :
    (events : List NatsEvent) → IsChronological (detect_patterns events)
unfolding detect_patterns
detect_patterns-IsChronological events =
    let hits = detect_burst_swap_storm events ++ detect_post_rotation_auth_violation events in
    let back = sort_hits [] hits in
    reverse_onto-IsChronological back [] (sort_hits-IsBackward hits [] tt) (nothing-Before back) tt

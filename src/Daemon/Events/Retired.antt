-- ===== src/Daemon/Events/Retired.antt =====
-- The reason of a swap names the connection that it retired, and no other.
use ppz.Base.{
  ◌≡◌, ◌↔◌, refl, true, false, [], ◌∷◌, ◌++◌, Text, has_prefix, utf8, encode_rune, Lacks, arith,
}
use ppz.Daemon.Events.{contains, swap_reason, swap_reason_retired}

-- An id as `ncID` prints it has neither a space nor an equals sign.
abbrev pub IsPlainId : Text → Type 0
IsPlainId id = Lacks b' ' id × Lacks b'=' id

abbrev old_is : Text → Text
old_is x = b'o' ∷ b'l' ∷ b'd' ∷ b'=' ∷ x

abbrev new_is : Text → Text
new_is x = b' ' ∷ b'n' ∷ b'e' ∷ b'w' ∷ b'=' ∷ x

module _ (x : Text) where
  no_prefix : (s : Text) → Lacks b'=' s → has_prefix s (old_is x) ≡ false
  unfolding has_prefix
  no_prefix [] h = refl
  no_prefix (a ∷ []) h = ground arith
  no_prefix (a ∷ b ∷ []) h = ground arith
  no_prefix (a ∷ b ∷ c ∷ []) h = ground arith
  no_prefix (a ∷ b ∷ c ∷ d ∷ s) h = ground arith

  not_contained : (s : Text) → Lacks b'=' s → contains s (old_is x) ≡ false
  unfolding contains
  not_contained [] h = no_prefix [] h
  not_contained (c ∷ s) h = ground (arith, no_prefix (c ∷ s) h, not_contained s h.1)

  no_prefix_before : (s t : Text) → Lacks b'=' s → has_prefix (s ++ new_is t) (old_is x) ≡ false
  unfolding has_prefix
  no_prefix_before [] t h = refl
  no_prefix_before (a ∷ []) t h = ground arith
  no_prefix_before (a ∷ b ∷ []) t h = ground arith
  no_prefix_before (a ∷ b ∷ c ∷ []) t h = ground arith
  no_prefix_before (a ∷ b ∷ c ∷ d ∷ s) t h = ground arith

  new_not_contained : (t : Text) → Lacks b'=' t → contains (new_is t) (old_is x) ≡ false
  unfolding contains has_prefix
  new_not_contained t h = not_contained t h

  not_contained_before :
      (s t : Text) → Lacks b'=' s → Lacks b'=' t → contains (s ++ new_is t) (old_is x) ≡ false
  unfolding contains
  not_contained_before [] t h k = new_not_contained t k
  not_contained_before (c ∷ s) t h k =
      ground (arith, no_prefix_before (c ∷ s) t h, not_contained_before s t h.1 k)

-- Two ids that lack a space are told apart by the space that ends them.
ends_alike :
    (old id t : Text)
    → Lacks b' ' old
    → Lacks b' ' id
    → (has_prefix (old ++ new_is t) (id ++ b' ' ∷ []) ≡ true) ↔ (id ≡ old)
unfolding has_prefix
ends_alike [] [] t h k = (λ e. refl, λ e. refl)
ends_alike [] (c ∷ id) t h k = (λ e. absurd (ground arith), λ e. absurd (ground arith))
ends_alike (a ∷ old) [] t h k = (λ e. absurd (ground arith), λ e. absurd (ground arith))
ends_alike (a ∷ old) (c ∷ id) t h k =
    let rest = ends_alike old id t h.1 k.1 in (λ e. ground (arith, rest), λ e. ground (arith, rest))

-- For ids without a space or an equals sign, the reason that `swapReason` writes is taken for the
-- retirement of a connection exactly when that is the old one.
pub swap_reason_retired_iff :
    (old new id : Text)
    → IsPlainId old
    → IsPlainId new
    → IsPlainId id
    → (swap_reason_retired (swap_reason old new) id ≡ true) ↔ (id ≡ old)
unfolding swap_reason_retired swap_reason utf8 encode_rune has_prefix contains
swap_reason_retired_iff old new id h k l =
    ground
      (arith, ends_alike old id new h.0 l.0, not_contained_before (id ++ b' ' ∷ []) old new h.1 k.1)

-- ===== src/Acl/Selector/Covers.antt =====
-- What it means for a selector to cover a path, and the proof that `Match` decides it.
use ppz.Base.{
  ℕ, ◌+◌, ◌≡◌, refl, sym, ◌∙◌, ◌≢◌, ◌↔◌, inl, inr, Bool, true, false, not, ◌&&◌, ◌||◌, List, [],
  ◌∷◌, arith, length, Text, text_eq, text_eq_iff, split, All, Bool-cases, Bool-ext, subst,
}
use ppz.Acl.Selector.{
  Selector, token_any, token_rest, has_empty, rest_inside, match_parts, match, valid_parts,
  valid_selector,
}

-- Segment by segment: `*` is one token, `**` at the end one or more, and any other segment itself.
pub data Covers : List Text → List Text → Type 0 where
  done : Covers [] []
  rest : {s p : Text} {ps : List Text} → s ≡ token_rest → Covers (s ∷ []) (p ∷ ps)
  any_token :
      {s p : Text} {ss ps : List Text} → s ≡ token_any → Covers ss ps → Covers (s ∷ ss) (p ∷ ps)
  exact :
      {s p : Text} {ss ps : List Text}
      → s ≡ p
      → s ≢ token_rest
      → Covers ss ps
      → Covers (s ∷ ss) (p ∷ ps)

abbrev pub NoEmpty : List Text → Type 0
NoEmpty = All (λ p. p ≢ [])

any_ne_rest : token_any ≢ token_rest
unfolding token_any token_rest
any_ne_rest e = cc

-- `**` stands before the end.
inner_rest : List Text → Bool
inner_rest [] = false
inner_rest (s ∷ []) = false
inner_rest (s ∷ t ∷ ss) = text_eq s token_rest || inner_rest (t ∷ ss)

rest_inside_lem :
    (n i : ℕ) (ss : List Text) → n ≡ i + length ss → rest_inside n i ss ≡ inner_rest ss
unfolding rest_inside inner_rest
rest_inside_lem n i [] e = refl
rest_inside_lem n i (s ∷ []) e = ground arith
rest_inside_lem n i (s ∷ t ∷ ss) e = ground (arith, rest_inside_lem n (i + 1) (t ∷ ss))

has_empty_iff : (ps : List Text) → (has_empty ps ≡ false) ↔ NoEmpty ps
unfolding has_empty
has_empty_iff [] = ground arith
has_empty_iff (p ∷ ps) = grind (arith, text_eq_iff p [], has_empty_iff ps)

inner_rest-tail : (s : Text) (ss : List Text) → inner_rest (s ∷ ss) ≡ false → inner_rest ss ≡ false
unfolding inner_rest
inner_rest-tail s [] h = refl
inner_rest-tail s (t ∷ ss) h = ground arith

inner_rest-cons :
    (s : Text) (ss : List Text)
    → s ≢ token_rest
    → inner_rest ss ≡ false
    → inner_rest (s ∷ ss) ≡ false
unfolding inner_rest
inner_rest-cons s [] n h = refl
inner_rest-cons s (t ∷ ss) n h = ground (arith, text_eq_iff s token_rest)

match_rest :
    (s p : Text) (ss ps : List Text)
    → s ≡ token_rest
    → inner_rest (s ∷ ss) ≡ false
    → Covers (s ∷ ss) (p ∷ ps)
unfolding inner_rest
match_rest s p [] ps e i = rest e
match_rest s p (t ∷ ss) ps e i = absurd (ground (arith, text_eq_iff s token_rest))

match_parts_sound :
    (ss ps : List Text) → inner_rest ss ≡ false → match_parts ss ps ≡ true → Covers ss ps
unfolding match_parts
match_parts_sound [] [] i h = done
match_parts_sound [] (p ∷ ps) i h = absurd (ground arith)
match_parts_sound (s ∷ ss) [] i h = absurd (ground arith)
match_parts_sound (s ∷ ss) (p ∷ ps) i h = elim (Bool-cases (text_eq s token_rest)) [
  | inl is_rest ↦ match_rest s p ss ps ((text_eq_iff _ _).0 is_rest) i
  | inr not_rest ↦
      let later : match_parts ss ps ≡ true = ground arith in
      let covered = match_parts_sound ss ps (inner_rest-tail s ss i) later in
      elim (Bool-cases (text_eq s token_any)) [
        | inl is_any ↦ any_token ((text_eq_iff _ _).0 is_any) covered
        | inr not_any ↦
            exact (ground (arith, text_eq_iff s p)) (ground (arith, text_eq_iff s token_rest))
              covered
      ]
]

Covers-match_parts : {ss ps : List Text} → Covers ss ps → match_parts ss ps ≡ true
unfolding match_parts
Covers-match_parts done = refl
Covers-match_parts (rest {s} {p} {ps} e) = ground (arith, text_eq_iff s token_rest)
Covers-match_parts (any_token {s} {p} {ss} {ps} e c) =
    ground
      (arith, text_eq_iff s token_rest, text_eq_iff s token_any, any_ne_rest, Covers-match_parts c)
Covers-match_parts (exact {s} {p} {ss} {ps} e n c) =
    ground (arith, text_eq_iff s token_rest, text_eq_iff s p, Covers-match_parts c)

Covers-inner_rest : {ss ps : List Text} → Covers ss ps → inner_rest ss ≡ false
unfolding inner_rest
Covers-inner_rest done = refl
Covers-inner_rest (rest e) = refl
Covers-inner_rest (any_token {s} {ss} e c) =
    inner_rest-cons s ss (subst (λ t. t ≢ token_rest) (sym e) any_ne_rest) (Covers-inner_rest c)
Covers-inner_rest (exact {s} {ss} e n c) = inner_rest-cons s ss n (Covers-inner_rest c)

any_ne_nil : token_any ≢ []
unfolding token_any
any_ne_nil e = cc

rest_ne_nil : token_rest ≢ []
unfolding token_rest
rest_ne_nil e = cc

Covers-NoEmpty : {ss ps : List Text} → Covers ss ps → NoEmpty ps → NoEmpty ss
Covers-NoEmpty done h = tt
Covers-NoEmpty (rest e) h = (subst (λ t. t ≢ []) (sym e) rest_ne_nil, tt)
Covers-NoEmpty (any_token e c) h = (subst (λ t. t ≢ []) (sym e) any_ne_nil, Covers-NoEmpty c h.1)
Covers-NoEmpty (exact e n c) h = (subst (λ t. t ≢ []) (sym e) h.0, Covers-NoEmpty c h.1)

NoEmpty-ne_nil : (s : Text) → NoEmpty (split s b'.') → s ≢ []
unfolding split
NoEmpty-ne_nil [] h = absurd (h.0 refl)
NoEmpty-ne_nil (c ∷ s) h = ground arith

rest_inside_split : (ss : List Text) → rest_inside (length ss) 0 ss ≡ inner_rest ss
rest_inside_split ss = rest_inside_lem (length ss) 0 ss (omega arith)

match_parts_of_match :
    (sel : Selector) (path : Text)
    → match sel path ≡ true
    → (has_empty (split path b'.') ≡ false)
      × (rest_inside (length (split sel b'.')) 0 (split sel b'.') ≡ false)
      × (match_parts (split sel b'.') (split path b'.') ≡ true)
unfolding match
match_parts_of_match sel path h = ground arith

match_of_parts :
    (sel : Selector) (path : Text)
    → sel ≢ []
    → path ≢ []
    → has_empty (split sel b'.') ≡ false
    → has_empty (split path b'.') ≡ false
    → rest_inside (length (split sel b'.')) 0 (split sel b'.') ≡ false
    → match_parts (split sel b'.') (split path b'.') ≡ true
    → match sel path ≡ true
unfolding match
match_of_parts sel path hs hp es ep r m = ground (arith, text_eq_iff sel [], text_eq_iff path [])

-- `Match` accepts exactly the paths without an empty segment that the selector covers segment by
-- segment, where `*` stands for one segment and `**` at the end for one or more.
pub match_iff :
    (sel : Selector) (path : Text)
    → (match sel path ≡ true)
      ↔ (NoEmpty (split path b'.') × Covers (split sel b'.') (split path b'.'))
match_iff sel path = (
  λ h.
      let (full, inside, parts) = match_parts_of_match sel path h in
      (
        (has_empty_iff _).0 full,
        match_parts_sound _ _ (sym (rest_inside_split (split sel b'.')) ∙ inside) parts,
      ),
  λ (full, c).
      let full_sel = Covers-NoEmpty c full in
      match_of_parts sel path (NoEmpty-ne_nil sel full_sel) (NoEmpty-ne_nil path full)
        ((has_empty_iff _).1 full_sel) ((has_empty_iff _).1 full)
        (rest_inside_split (split sel b'.') ∙ Covers-inner_rest c) (Covers-match_parts c),
)

valid_parts_lem :
    (n i : ℕ) (ss : List Text)
    → valid_parts n i ss ≡ (not (has_empty ss) && not (rest_inside n i ss))
unfolding valid_parts has_empty rest_inside
valid_parts_lem n i [] = refl
valid_parts_lem n i (s ∷ ss) = ground (arith, valid_parts_lem n (i + 1) ss)

-- Every well-formed selector covers its own segments, read as a path.
Covers-self : (ss : List Text) → NoEmpty ss → inner_rest ss ≡ false → Covers ss ss
Covers-self [] h i = done
Covers-self (s ∷ ss) h i = elim (Bool-cases (text_eq s token_rest)) [
  | inl is_rest ↦ match_rest s s ss ss ((text_eq_iff _ _).0 is_rest) i
  | inr not_rest ↦
      exact refl (ground (arith, text_eq_iff s token_rest))
        (Covers-self ss h.1 (inner_rest-tail s ss i))
]

valid_selector_parts :
    (sel : Selector)
    → (valid_selector sel ≡ true)
      ↔ (NoEmpty (split sel b'.') × (inner_rest (split sel b'.') ≡ false))
unfolding valid_selector
valid_selector_parts sel = (
  λ h. (
    (has_empty_iff _).0
        (ground (arith, valid_parts_lem (length (split sel b'.')) 0 (split sel b'.'))),
    sym (rest_inside_split (split sel b'.'))
        ∙ ground (arith, valid_parts_lem (length (split sel b'.')) 0 (split sel b'.')),
  ),
  λ (full, inner).
      let h : has_empty (split sel b'.') ≡ false = (has_empty_iff _).1 full in
      let r : rest_inside (length (split sel b'.')) 0 (split sel b'.') ≡ false =
        rest_inside_split (split sel b'.') ∙ inner in
      let ne = NoEmpty-ne_nil sel full in
      ground
        (arith, valid_parts_lem (length (split sel b'.')) 0 (split sel b'.'), text_eq_iff sel []),
)

-- `ValidSelector` accepts a selector exactly when `Match` accepts some path for it, and it gives
-- the same answer as matching the selector against its own text.
pub valid_selector_iff :
    (sel : Selector)
    → ((valid_selector sel ≡ true) ↔ ((path : Text) × (match sel path ≡ true)))
      × (valid_selector sel ≡ match sel sel)
valid_selector_iff sel =
    let to_self : valid_selector sel ≡ true → match sel sel ≡ true = λ h.
      let (full, inner) = (valid_selector_parts sel).0 h in
      (match_iff sel sel).1 (full, Covers-self (split sel b'.') full inner) in
    let of_match : (path : Text) → match sel path ≡ true → valid_selector sel ≡ true = λ path m.
      let (full, c) = (match_iff sel path).0 m in
      (valid_selector_parts sel).1 (Covers-NoEmpty c full, Covers-inner_rest c) in
    ((λ h. (sel, to_self h), λ (path, m). of_match path m), Bool-ext _ _ to_self (of_match sel))

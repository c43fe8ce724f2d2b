-- ===== src/Terminal/Items.antt =====
-- Input made of whole items: what the filter drops.
use mathlib.Core.List.{append_assoc}
use ppz.Base.{
  ℕ, ◌≡◌, refl, ap, ◌∙◌, Bool, true, false, not, List, [], ◌∷◌, ◌++◌, nat_eq, filter, All, arith,
  subst, sym, length, nat_eq_iff, Bool-cases, inl, inr, Text,
}
use ppz.Terminal.{
  esc, is_final, is_private, is_control_response, plain, in_csi, Filtered, emit, scan,
  filter_control_responses,
}
use ppz.Terminal.Chunks.{NonFinal, scan-byte, scan-pair, scan-body, scan-drop, scan-keep}

-- A byte, an ESC with the byte behind it, or a CSI sequence with its body and final byte.
pub data Item : Type 0 where
  byte pair : ℕ → Item
  csi : Text → ℕ → Item

abbrev pub IsItem : Item → Type 0
IsItem (byte c) = nat_eq c esc ≡ false
IsItem (pair c) = nat_eq c b'[' ≡ false
IsItem (csi body final) = NonFinal body × (is_final final ≡ true)

abbrev pub render : Item → Text
render (byte c) = c ∷ []
render (pair c) = esc ∷ c ∷ []
render (csi body final) = esc ∷ b'[' ∷ (body ++ final ∷ [])

abbrev pub render_all : List Item → Text
render_all [] = []
render_all (x ∷ items) = render x ++ render_all items

-- Every item but a control response.
abbrev pub is_kept : Item → Bool
is_kept (byte c) = true
is_kept (pair c) = true
is_kept (csi body final) = not (is_control_response body final)

abbrev whole : Text → Filtered
whole s = record { out = s; pending = [] }

scan-csi :
    (body : Text) (final : ℕ) (input : Text)
    → NonFinal body
    → scan plain (render (csi body final) ++ input) ≡ scan (in_csi body) (final ∷ input)
unfolding scan
scan-csi body final input h =
    ap (scan (in_csi [])) (append_assoc body (final ∷ []) input)
    ∙ scan-body body [] (final ∷ input) h

scan-render_all :
    (items : List Item)
    → All IsItem items
    → scan plain (render_all items) ≡ whole (render_all (filter is_kept items))
unfolding scan
scan-render_all [] h = refl
scan-render_all (byte c ∷ items) h =
    scan-byte c (render_all items) h.0 ∙ ap (emit (c ∷ [])) (scan-render_all items h.1)
scan-render_all (pair c ∷ items) h =
    scan-pair c (render_all items) h.0 ∙ ap (emit (esc ∷ c ∷ [])) (scan-render_all items h.1)
scan-render_all (csi body final ∷ items) h = elim (Bool-cases (is_control_response body final)) [
  | inl r ↦
      scan-csi body final (render_all items) h.0.0
      ∙ scan-drop final (render_all items) body h.0.1 r
      ∙ scan-render_all items h.1
      ∙ rw r refl
  | inr r ↦
      scan-csi body final (render_all items) h.0.0
      ∙ scan-keep final (render_all items) body h.0.1 r
      ∙ ap (emit (render (csi body final))) (scan-render_all items h.1)
      ∙ rw r refl
]

-- The responses of a terminal, by their body and final byte: primary or secondary device attributes,
-- what ends as a cursor position report does, and the two focus events.
pub data IsResponse : Text → ℕ → Type 0 where
  primary_attributes : (params : Text) → IsResponse (b'?' ∷ params) b'c'
  secondary_attributes : (params : Text) → IsResponse (b'>' ∷ params) b'c'
  cursor_report : (params : Text) → IsResponse params b'R'
  focus_in : IsResponse [] b'I'
  focus_out : IsResponse [] b'O'

-- What is left of some items without the responses.
pub data Stripped : List Item → List Item → Type 0 where
  nothing : Stripped [] []
  keeps_byte :
      (c : ℕ) {items kept : List Item}
      → Stripped items kept
      → Stripped (byte c ∷ items) (byte c ∷ kept)
  keeps_pair :
      (c : ℕ) {items kept : List Item}
      → Stripped items kept
      → Stripped (pair c ∷ items) (pair c ∷ kept)
  keeps_csi :
      (body : Text) (final : ℕ) {items kept : List Item}
      → (IsResponse body final → ⊥)
      → Stripped items kept
      → Stripped (csi body final ∷ items) (csi body final ∷ kept)
  drops_csi :
      (body : Text) (final : ℕ) {items kept : List Item}
      → IsResponse body final
      → Stripped items kept
      → Stripped (csi body final ∷ items) kept

is_control_response_complete :
    (body : Text) (final : ℕ) → IsResponse body final → is_control_response body final ≡ true
unfolding is_control_response
is_control_response_complete _ _ (primary_attributes params) = refl
is_control_response_complete _ _ (secondary_attributes params) = refl
is_control_response_complete _ _ (cursor_report params) = refl
is_control_response_complete _ _ focus_in = refl
is_control_response_complete _ _ focus_out = refl

attributes : (body : Text) → is_private body ≡ true → IsResponse body b'c'
attributes [] h = absurd (ground arith)
attributes (x ∷ params) h = elim (Bool-cases (nat_eq x b'?')) [
  | inl q ↦
      subst (λ y. IsResponse (y ∷ params) b'c') (sym ((nat_eq_iff x b'?').0 q))
        (primary_attributes params)
  | inr q ↦
      subst (λ y. IsResponse (y ∷ params) b'c') (sym ((nat_eq_iff x b'>').0 (ground arith)))
        (secondary_attributes params)
]

empty : (body : Text) → length body ≡ 0 → body ≡ []
empty [] h = refl
empty (x ∷ body) h = absurd (omega (arith, h))

is_control_response_sound :
    (body : Text) (final : ℕ) → is_control_response body final ≡ true → IsResponse body final
unfolding is_control_response
is_control_response_sound body final h = elim (Bool-cases (nat_eq final b'c')) [
  | inl c ↦
      subst (IsResponse body) (sym ((nat_eq_iff final b'c').0 c)) (attributes body (ground arith))
  | inr c ↦ elim (Bool-cases (nat_eq final b'R')) [
    | inl r ↦ subst (IsResponse body) (sym ((nat_eq_iff final b'R').0 r)) (cursor_report body)
    | inr r ↦ elim (Bool-cases (nat_eq final b'I')) [
      | inl i ↦
          subst (λ b. IsResponse b final) (sym (empty body (ground arith)))
            (subst (IsResponse []) (sym ((nat_eq_iff final b'I').0 i)) focus_in)
      | inr i ↦ elim (Bool-cases (nat_eq final b'O')) [
        | inl o ↦
            subst (λ b. IsResponse b final) (sym (empty body (ground arith)))
              (subst (IsResponse []) (sym ((nat_eq_iff final b'O').0 o)) focus_out)
        | inr o ↦ absurd (ground arith)
      ]
    ]
  ]
]

filter-Stripped : (items : List Item) → Stripped items (filter is_kept items)
filter-Stripped [] = nothing
filter-Stripped (byte c ∷ items) = keeps_byte c (filter-Stripped items)
filter-Stripped (pair c ∷ items) = keeps_pair c (filter-Stripped items)
filter-Stripped (csi body final ∷ items) = elim (Bool-cases (is_control_response body final)) [
  | inl r ↦
      rw r (drops_csi body final (is_control_response_sound body final r) (filter-Stripped items))
  | inr r ↦ rw r (
      keeps_csi body final (λ k. absurd (ground (arith, is_control_response_complete body final k)))
        (filter-Stripped items))
]

-- On input made of whole items (a byte other than ESC, ESC with a byte other than `[`, or a CSI
-- sequence) the filter leaves nothing pending and drops exactly the CSI sequences that end in
-- `R`, those that end in `c` behind a body that begins with `?` or `>`, and the bare ones that
-- end in `I` or `O`; all other items come out unchanged and in order.
pub filter-render_all :
    (items : List Item)
    → All IsItem items
    → (kept : List Item) × Stripped items kept
      × (filter_control_responses (render_all items)
          ≡ record { out = render_all kept; pending = [] })
unfolding filter_control_responses
filter-render_all items h = (filter is_kept items, filter-Stripped items, scan-render_all items h)

-- ===== src/Terminal.antt =====
-- internal/cli/terminal_filter.go: control responses of the local terminal, taken out of the input.
pub mod Chunks
pub mod Items
pub mod Characters
mod Tests
use ppz.Base.{
  ℕ, Bool, true, false, not, ◌&&◌, ◌||◌, List, [], ◌∷◌, ◌++◌, if◌then◌else◌, nat_eq, ltb, leb,
  length, last_or, Text,
}

-- 0x1b
abbrev pub esc : ℕ
esc = 27

-- 0x40 to 0x7E
abbrev pub is_final : ℕ → Bool
is_final c = leb 64 c && leb c 126

-- The first byte of a body is `?` or `>`.
abbrev pub is_private : Text → Bool
is_private [] = false
is_private (c ∷ s) = nat_eq c b'?' || nat_eq c b'>'

-- `seq[2 : len(seq)-1]` is `body`, behind ESC and `[` and before the final byte.
unfoldable pub is_control_response : Text → ℕ → Bool
is_control_response body final =
    if nat_eq final b'c'
    then is_private body
    else if nat_eq final b'R'
    then true
    else if nat_eq final b'I' || nat_eq final b'O'
    then nat_eq (length body) 0
    else false

-- Where the loop stands: between sequences, behind an ESC, or in the inner loop with the body of a CSI
-- sequence so far.
pub data Position : Type 0 where
  plain escaped : Position
  in_csi : Text → Position

pub record Filtered : Type 0 where
  pub out : Text
  pub pending : Text

abbrev pub emit : Text → Filtered → Filtered
emit s f = record f { out = s ++ f.out }

unfoldable pub scan : Position → Text → Filtered
scan plain [] = record { out = []; pending = [] }
scan plain (b ∷ input) = elim (nat_eq b esc) [
  | false ↦ emit (b ∷ []) (scan plain input)
  | true ↦ scan escaped input
]
scan escaped [] = record { out = []; pending = esc ∷ [] }
scan escaped (b ∷ input) = elim (nat_eq b b'[') [
  | false ↦ emit (esc ∷ b ∷ []) (scan plain input)
  | true ↦ scan (in_csi []) input
]
scan (in_csi body) [] = record { out = []; pending = esc ∷ b'[' ∷ body }
scan (in_csi body) (c ∷ input) = elim (is_final c) [
  | false ↦ scan (in_csi (body ++ c ∷ [])) input
  | true ↦
      let rest = scan plain input in
      if is_control_response body c then rest else emit (esc ∷ b'[' ∷ (body ++ c ∷ [])) rest
]

unfoldable pub filter_control_responses : Text → Filtered
unfolding scan
filter_control_responses input = scan plain input

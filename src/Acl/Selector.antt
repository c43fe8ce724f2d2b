-- ===== src/Acl/Selector.antt =====
-- internal/acl/selector.go: the pipes that a grant applies to.
pub mod Covers
use ppz.Base.{
  ℕ, zero, suc, ◌+◌, ◌-◌, Bool, true, false, not, ◌&&◌, ◌||◌, List, [], ◌∷◌, if◌then◌else◌, nat_eq,
  ltb, length, Text, utf8, text_eq, split,
}

abbrev pub Selector : Type 0
Selector = Text

unfoldable pub token_any : Text
unfolding utf8
token_any = utf8 "*"

unfoldable pub token_rest : Text
unfolding utf8
token_rest = utf8 "**"

unfoldable pub has_empty : List Text → Bool
has_empty [] = false
has_empty (p ∷ ps) = if text_eq p [] then true else has_empty ps

-- The loop that refuses `**` before the last of `n` segments, from index `i` on.
unfoldable pub rest_inside : ℕ → ℕ → List Text → Bool
rest_inside n i [] = false
rest_inside n i (s ∷ ss) =
    if text_eq s token_rest && not (nat_eq i (n - 1)) then true else rest_inside n (i + 1) ss

-- The loop of `matchParts`, on the segments and the tokens from one index on.
unfoldable pub match_parts : List Text → List Text → Bool
match_parts [] path = nat_eq 0 (length path)
match_parts (s ∷ sel) path = if text_eq s token_rest then ltb 0 (length path) else elim path [
  | [] ↦ false
  | p ∷ rest ↦
      if not (text_eq s token_any) && not (text_eq s p) then false else match_parts sel rest
]

unfoldable pub match : Selector → Text → Bool
unfolding has_empty rest_inside match_parts token_any token_rest
match sel path =
    if text_eq sel [] || text_eq path []
    then false
    else let sel_parts = split sel b'.' in
      let path_parts = split path b'.' in
      if has_empty sel_parts || has_empty path_parts
      then false
      else if rest_inside (length sel_parts) 0 sel_parts
      then false
      else match_parts sel_parts path_parts

-- The loop of `ValidSelector` over `n` segments, from index `i` on.
unfoldable pub valid_parts : ℕ → ℕ → List Text → Bool
valid_parts n i [] = true
valid_parts n i (p ∷ ps) =
    if text_eq p []
    then false
    else if text_eq p token_rest && not (nat_eq i (n - 1))
    then false
    else valid_parts n (i + 1) ps

unfoldable pub valid_selector : Selector → Bool
unfolding valid_parts token_rest
valid_selector sel =
    if text_eq sel []
    then false
    else let parts = split sel b'.' in valid_parts (length parts) 0 parts

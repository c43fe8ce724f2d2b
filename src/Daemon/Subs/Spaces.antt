-- ===== src/Daemon/Subs/Spaces.antt =====
-- `strings.TrimSpace`, on the bytes of a text.
use ppz.Base.{
  ℕ, zero, suc, ◌≡◌, refl, Option, none, some, List, [], ◌∷◌, if◌then◌else◌, nat_eq, map, length,
  Text, utf8, encode_rune,
}

-- The white space of Unicode in UTF-8. No encoding is a prefix or a suffix of a character that is none.
abbrev spaces : List Text
spaces =
    (9 ∷ [])
    ∷ (10 ∷ [])
    ∷ (11 ∷ [])
    ∷ (12 ∷ [])
    ∷ (13 ∷ [])
    ∷ (32 ∷ [])
    ∷ (194 ∷ 133 ∷ [])
    ∷ (194 ∷ 160 ∷ [])
    ∷ (225 ∷ 154 ∷ 128 ∷ [])
    ∷ (226 ∷ 128 ∷ 128 ∷ [])
    ∷ (226 ∷ 128 ∷ 129 ∷ [])
    ∷ (226 ∷ 128 ∷ 130 ∷ [])
    ∷ (226 ∷ 128 ∷ 131 ∷ [])
    ∷ (226 ∷ 128 ∷ 132 ∷ [])
    ∷ (226 ∷ 128 ∷ 133 ∷ [])
    ∷ (226 ∷ 128 ∷ 134 ∷ [])
    ∷ (226 ∷ 128 ∷ 135 ∷ [])
    ∷ (226 ∷ 128 ∷ 136 ∷ [])
    ∷ (226 ∷ 128 ∷ 137 ∷ [])
    ∷ (226 ∷ 128 ∷ 138 ∷ [])
    ∷ (226 ∷ 128 ∷ 168 ∷ [])
    ∷ (226 ∷ 128 ∷ 169 ∷ [])
    ∷ (226 ∷ 128 ∷ 175 ∷ [])
    ∷ (226 ∷ 129 ∷ 159 ∷ [])
    ∷ (227 ∷ 128 ∷ 128 ∷ [])
    ∷ []

reverse_onto : Text → Text → Text
reverse_onto acc [] = acc
reverse_onto acc (c ∷ s) = reverse_onto (c ∷ acc) s

-- What follows a prefix.
after_prefix : Text → Text → Option Text
after_prefix [] s = some s
after_prefix (p ∷ ps) [] = none
after_prefix (p ∷ ps) (c ∷ s) = if nat_eq p c then after_prefix ps s else none

after_space : List Text → Text → Option Text
after_space [] s = none
after_space (p ∷ ps) s = elim (after_prefix p s) [ none ↦ after_space ps s | some rest ↦ some rest ]

-- A space takes at least a byte, so that the length is enough fuel.
trim_left : ℕ → List Text → Text → Text
trim_left zero ps s = s
trim_left (suc n) ps s = elim (after_space ps s) [ none ↦ s | some rest ↦ trim_left n ps rest ]

pub trim_space : Text → Text
trim_space s =
    let left = trim_left (length s) spaces s in
    reverse_onto [] (trim_left (length left) (map (reverse_onto []) spaces) (reverse_onto [] left))

trimmed : trim_space (utf8 " a b  ") ≡ utf8 "a b"
unfolding trim_space trim_left after_space after_prefix reverse_onto utf8 encode_rune
trimmed = refl

only_spaces : trim_space (32 ∷ 227 ∷ 128 ∷ 128 ∷ []) ≡ []
unfolding trim_space trim_left after_space after_prefix reverse_onto
only_spaces = refl

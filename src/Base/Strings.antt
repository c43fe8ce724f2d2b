-- ===== src/Base/Strings.antt =====
-- Go strings: a string is its bytes. The parts of package `strings` that the source calls.
use Prim.Native.Nat.{suc, zero, ℕ, ◌+◌, ◌/◌, ◌%◌}
use Prim.Native.Char.{code}
use Prim.Native.String.{String}
use mathlib.Core.Path.{subst, ◌≡◌, refl, ap, ap₂, sym, ◌∙◌}
use mathlib.Core.Logic.{◌↔◌, ◌≢◌, inl, inr}
use mathlib.Core.Bool.{Bool, true, false, ◌&&◌, not}
use mathlib.Core.List.{List, [], ◌∷◌, ◌++◌, map, append-nil}
use native.Mathlib.Omega.{arith}
use ppz.Base.Tests.{ltb, nat_eq, nat_eq_iff, if◌then◌else◌, Bool-cases}
use ppz.Base.Lists.{flat_map, filter, take, All}

abbrev pub Text : Type 0
Text = List ℕ

-- The UTF-8 form of one code point.
unfoldable pub encode_rune : ℕ → Text
encode_rune n =
    if ltb n 0x80
    then n ∷ []
    else if ltb n 0x800
    then (0xc0 + n / 64) ∷ (0x80 + n % 64) ∷ []
    else if ltb n 0x10000
    then (0xe0 + n / 4096) ∷ (0x80 + n / 64 % 64) ∷ (0x80 + n % 64) ∷ []
    else (0xf0 + n / 262144) ∷ (0x80 + n / 4096 % 64) ∷ (0x80 + n / 64 % 64) ∷ (0x80 + n % 64) ∷ []

-- A string literal of the source.
unfoldable pub utf8 : String → Text
unfolding encode_rune
utf8 String.[] = []
utf8 (String.◌∷◌ c s) = encode_rune (code c) ++ utf8 s

unfoldable pub text_eq : Text → Text → Bool
text_eq [] [] = true
text_eq (a ∷ s) (b ∷ t) = nat_eq a b && text_eq s t
text_eq _ _ = false

pub text_eq_iff : (s t : Text) → (text_eq s t ≡ true) ↔ (s ≡ t)
unfolding text_eq
text_eq_iff [] [] = ground arith
text_eq_iff (a ∷ s) [] = ground arith
text_eq_iff [] (b ∷ t) = ground arith
text_eq_iff (a ∷ s) (b ∷ t) = grind (arith, text_eq_iff s t)

pub text_eq_refl : (s : Text) → text_eq s s ≡ true
text_eq_refl s = (text_eq_iff s s).1 refl

-- `strings.Split` at a separator of one byte: there is always a part.
cons_head : ℕ → List Text → List Text
cons_head c [] = (c ∷ []) ∷ []
cons_head c (p ∷ ps) = (c ∷ p) ∷ ps

unfoldable pub split : Text → ℕ → List Text
unfolding cons_head
split [] sep = [] ∷ []
split (c ∷ s) sep = if nat_eq c sep then [] ∷ split s sep else cons_head c (split s sep)

join_tail : Text → List Text → Text
join_tail sep [] = []
join_tail sep (p ∷ ps) = sep ++ (p ++ join_tail sep ps)

-- `strings.Join`.
unfoldable pub join : List Text → Text → Text
unfolding join_tail
join [] sep = []
join (p ∷ ps) sep = p ++ join_tail sep ps

-- `strings.HasPrefix`.
unfoldable pub has_prefix : Text → Text → Bool
has_prefix s [] = true
has_prefix [] (b ∷ p) = false
has_prefix (a ∷ s) (b ∷ p) = nat_eq a b && has_prefix s p

-- `strings.TrimSuffix`.
unfoldable pub trim_suffix : Text → Text → Text
unfolding text_eq
trim_suffix [] p = []
trim_suffix (a ∷ s) p = if text_eq (a ∷ s) p then [] else a ∷ trim_suffix s p

drop_text : Text → Text → Text
drop_text s [] = s
drop_text [] (b ∷ p) = []
drop_text (a ∷ s) (b ∷ p) = drop_text s p

-- `strings.Replace(s, old, new, 1)` for a text `old` that is not empty.
unfoldable pub replace_first : Text → Text → Text → Text
unfolding has_prefix drop_text
replace_first [] old new = []
replace_first (a ∷ s) old new =
    if has_prefix (a ∷ s) old then new ++ drop_text (a ∷ s) old else a ∷ replace_first s old new

-- `strings.ReplaceAll` of one byte by one byte, and of one byte by nothing.
unfoldable pub replace_byte : Text → ℕ → ℕ → Text
replace_byte s old new = map (λ c. if nat_eq c old then new else c) s

unfoldable pub remove_byte : Text → ℕ → Text
remove_byte s old = filter (λ c. not (nat_eq c old)) s

-- A text in which a byte does not occur.
abbrev pub Lacks : ℕ → Text → Type 0
Lacks c [] = Unit
Lacks c (d ∷ s) = (d ≢ c) × Lacks c s

pub Lacks-append : (c : ℕ) (s t : Text) → Lacks c s → Lacks c t → Lacks c (s ++ t)
Lacks-append c [] t h k = k
Lacks-append c (d ∷ s) t h k = (h.0, Lacks-append c s t h.1 k)

pub split-append : (p s : Text) (sep : ℕ) → Lacks sep p → split (p ++ sep ∷ s) sep ≡ p ∷ split s sep
unfolding split
split-append [] s sep h = ground arith
split-append (c ∷ p) s sep h = ground (arith, split-append p s sep h.1)

pub split_of_Lacks : (p : Text) (sep : ℕ) → Lacks sep p → split p sep ≡ p ∷ []
unfolding split
split_of_Lacks [] sep h = refl
split_of_Lacks (c ∷ p) sep h = ground (arith, split_of_Lacks p sep h.1)

pub split-join :
    (p : Text) (ps : List Text) (sep : ℕ)
    → Lacks sep p
    → All (Lacks sep) ps
    → split (join (p ∷ ps) (sep ∷ [])) sep ≡ p ∷ ps
unfolding join
split-join p [] sep h hs = rw append-nil (split_of_Lacks p sep h)
split-join p (q ∷ ps) sep h hs =
    split-append p _ sep h ∙ ap (λ t. p ∷ t) (split-join q ps sep hs.0 hs.1)

-- There is always a first part.
pub split_cons : (s : Text) (sep : ℕ) → (p : Text) × (ps : List Text) × (split s sep ≡ p ∷ ps)
unfolding split
split_cons [] sep = ([], [], refl)
split_cons (c ∷ s) sep = elim (Bool-cases (nat_eq c sep)) [
  | inl e ↦ ([], split s sep, rw e refl)
  | inr e ↦ let (p, ps, h) = split_cons s sep in (c ∷ p, ps, rw (e, h) refl)
]

pub join-split : (s : Text) (sep : ℕ) → join (split s sep) (sep ∷ []) ≡ s
unfolding split join
join-split [] sep = refl
join-split (c ∷ s) sep =
    let (p, ps, h) = split_cons s sep in
    let ih = join-split s sep in
    elim (Bool-cases (nat_eq c sep)) [
      | inl e ↦ rw (e, h) (ap₂ ◌∷◌ (sym ((nat_eq_iff _ _).0 e)) (rw h at ih))
      | inr e ↦ rw (e, h) (ap (λ t. c ∷ t) (rw h at ih))
    ]

pub split_inj : (s t : Text) (sep : ℕ) → split s sep ≡ split t sep → s ≡ t
split_inj s t sep e = sym (join-split s sep) ∙ ap (λ ps. join ps (sep ∷ [])) e ∙ join-split t sep

-- Splitting at a separator splits both sides.
pub split-append_both :
    (s t : Text) (sep : ℕ) → split (s ++ sep ∷ t) sep ≡ split s sep ++ split t sep
unfolding split
split-append_both [] t sep = ground arith
split-append_both (c ∷ s) t sep =
    let (p, ps, h) = split_cons s sep in
    elim (Bool-cases (nat_eq c sep)) [
      | inl e ↦ rw e (ap (λ ps. [] ∷ ps) (split-append_both s t sep))
      | inr e ↦ rw (e, split-append_both s t sep, h) refl
    ]

-- A text that begins with the separator adds its parts behind the last part.
pub split_behind :
    (s t : Text) (sep : ℕ) (ps : List Text)
    → split t sep ≡ [] ∷ ps
    → split (s ++ t) sep ≡ split s sep ++ ps
unfolding split
split_behind [] t sep ps e = e
split_behind (c ∷ s) t sep ps e =
    let (q, qs, h) = split_cons s sep in
    elim (Bool-cases (nat_eq c sep)) [
      | inl same ↦ rw same (ap (λ ps. [] ∷ ps) (split_behind s t sep ps e))
      | inr other ↦ rw (other, split_behind s t sep ps e, h) refl
    ]

split-join_tail :
    (ps : List Text) (sep : ℕ)
    → split (join_tail (sep ∷ []) ps) sep ≡ [] ∷ flat_map (λ q. split q sep) ps
unfolding split join_tail
split-join_tail [] sep = refl
split-join_tail (q ∷ qs) sep =
    split-append [] (q ++ join_tail (sep ∷ []) qs) sep tt
    ∙ ap (λ ps. [] ∷ ps) (split_behind q _ sep _ (split-join_tail qs sep))

-- Joined parts split into the parts of each.
pub split-join_flat :
    (p : Text) (ps : List Text) (sep : ℕ)
    → split (join (p ∷ ps) (sep ∷ [])) sep ≡ split p sep ++ flat_map (λ q. split q sep) ps
unfolding join
split-join_flat p ps sep = split_behind p _ sep _ (split-join_tail ps sep)

-- A byte other than the separator is missing where it is missing from every part.
pub Lacks-of_split : (s : Text) (sep c : ℕ) → sep ≢ c → All (Lacks c) (split s sep) → Lacks c s
unfolding split
Lacks-of_split [] sep c n h = tt
Lacks-of_split (d ∷ s) sep c n h = elim (Bool-cases (nat_eq d sep)) [
  | inl e ↦
      let h' = rw e at h in
      (subst (λ x. x ≢ c) (sym ((nat_eq_iff _ _).0 e)) n, Lacks-of_split s sep c n h'.1)
  | inr e ↦
      let (p, ps, q) = split_cons s sep in
      let h' : All (Lacks c) ((d ∷ p) ∷ ps) = rw (e, q) at h in
      (h'.0.0, Lacks-of_split s sep c n (rw q (h'.0.1, h'.1)))
]

-- With one separator replaced by another, that does not occur, the parts are the same.
pub split-replace_byte :
    (s : Text) (old new : ℕ) → Lacks new s → split (replace_byte s old new) new ≡ split s old
unfolding split replace_byte
split-replace_byte [] old new h = refl
split-replace_byte (c ∷ s) old new h = ground (arith, split-replace_byte s old new h.1)

pub Lacks-remove_byte : (c old : ℕ) (s : Text) → Lacks c s → Lacks c (remove_byte s old)
unfolding remove_byte
Lacks-remove_byte c old [] h = tt
Lacks-remove_byte c old (d ∷ s) h = elim (Bool-cases (nat_eq d old)) [
  | inl e ↦ rw e (Lacks-remove_byte c old s h.1)
  | inr e ↦ rw e (h.0, Lacks-remove_byte c old s h.1)
]

pub Lacks-take : (c n : ℕ) (s : Text) → Lacks c s → Lacks c (take n s)
Lacks-take c zero s h = tt
Lacks-take c (suc n) [] h = tt
Lacks-take c (suc n) (d ∷ s) h = (h.0, Lacks-take c n s h.1)

split_test : split (utf8 "a.b.") b'.' ≡ utf8 "a" ∷ utf8 "b" ∷ [] ∷ []
unfolding split utf8
split_test = refl

text_test :
    (replace_first (utf8 "x.%s.>") (utf8 "%s") (utf8 "st") ≡ utf8 "x.st.>")
    × (trim_suffix (utf8 "x.>") (utf8 ".>") ≡ utf8 "x")
    × (replace_byte (utf8 "a.b") b'.' b'_' ≡ utf8 "a_b")
    × (remove_byte (utf8 "a-b") b'-' ≡ utf8 "ab")
unfolding replace_first trim_suffix replace_byte remove_byte utf8
text_test = (refl, refl, refl, refl)

-- ===== src/Terminal/Characters.antt =====
-- internal/cli/terminal_utf8.go: a chunk of output, cut at the last character that is complete.
use mathlib.Core.List.{append-nil}
use ppz.Base.{
  ℕ, zero, suc, ◌+◌, ◌≤◌, ◌<◌, ◌≡◌, refl, ap, ◌∙◌, Bool, true, ◌&&◌, [], ◌∷◌, ◌++◌, arith,
  if◌then◌else◌, ltb, leb, length, All, ◌-◌, Text,
}

pub record Parts : Type 0 where
  pub complete : Text
  pub pending : Text

-- The length that a lead byte announces.
unfoldable pub announced : ℕ → ℕ
announced c = if ltb c 224 then 2 else if ltb c 240 then 3 else 4

unfoldable pub reversed : Text → Text → Text
reversed [] acc = acc
reversed (c ∷ s) acc = reversed s (c ∷ acc)

-- The loop, with the bytes still to look at from the last to the first, at most `n` of them, and the
-- bytes that it has walked over. The first list is `b` itself.
unfoldable pub walk_back : Text → ℕ → Text → Text → Parts
unfolding announced reversed
walk_back b zero rest tail = record { complete = b; pending = [] }
walk_back b (suc n) [] tail = record { complete = b; pending = [] }
walk_back b (suc n) (c ∷ rest) tail =
    let on = walk_back b n rest (c ∷ tail) in
    if ltb c 128
    then record { complete = b; pending = [] }
    else if leb 192 c
    then (if ltb (suc (length tail)) (announced c)
        then record { complete = reversed rest []; pending = c ∷ tail }
        else record { complete = b; pending = [] })
    else on

unfoldable pub split_on_utf8_boundary : Text → Parts
unfolding walk_back reversed
split_on_utf8_boundary b = walk_back b 4 (reversed b []) []

-- A continuation byte.
abbrev pub is_cont : ℕ → Bool
is_cont c = leb 128 c && ltb c 192

abbrev pub Conts : Text → Type 0
Conts = All (λ c. is_cont c ≡ true)

reversed-append : (s t acc : Text) → reversed (s ++ t) acc ≡ reversed t (reversed s acc)
unfolding reversed
reversed-append [] t acc = refl
reversed-append (c ∷ s) t acc = reversed-append s t (c ∷ acc)

reversed-reversed : (s acc more : Text) → reversed (reversed s acc) more ≡ reversed acc (s ++ more)
unfolding reversed
reversed-reversed [] acc more = refl
reversed-reversed (c ∷ s) acc more = reversed-reversed s (c ∷ acc) more

walk-cont :
    (b : Text) (n c : ℕ) (rest tail : Text)
    → is_cont c ≡ true
    → walk_back b (suc n) (c ∷ rest) tail ≡ walk_back b n rest (c ∷ tail)
unfolding walk_back
walk-cont b n c rest tail h = ground (arith, h)

walk-Conts :
    (b : Text) (conts : Text) (n : ℕ) (rest tail : Text)
    → Conts conts
    → walk_back b (n + length conts) (reversed conts rest) tail ≡ walk_back b n rest (conts ++ tail)
unfolding reversed
walk-Conts b [] n rest tail h = ap (λ k. walk_back b k rest tail) (omega arith)
walk-Conts b (c ∷ conts) n rest tail h =
    ap (λ k. walk_back b k (reversed conts (c ∷ rest)) tail) (omega arith)
    ∙ walk-Conts b conts (suc n) (c ∷ rest) tail h.1
    ∙ walk-cont b n c rest (conts ++ tail) h.0

walk-open :
    (b : Text) (n a : ℕ) (rest tail : Text)
    → 192 ≤ a
    → suc (length tail) < announced a
    → walk_back b (suc n) (a ∷ rest) tail
      ≡ record { complete = reversed rest []; pending = a ∷ tail }
unfolding walk_back
walk-open b n a rest tail h k = ground arith

walk-closed :
    (b : Text) (n a : ℕ) (rest tail : Text)
    → 192 ≤ a
    → announced a ≤ suc (length tail)
    → walk_back b (suc n) (a ∷ rest) tail ≡ record { complete = b; pending = [] }
unfolding walk_back
walk-closed b n a rest tail h k = ground arith

walk-ascii :
    (b : Text) (n c : ℕ) (rest tail : Text)
    → c < 128
    → walk_back b (suc n) (c ∷ rest) tail ≡ record { complete = b; pending = [] }
unfolding walk_back
walk-ascii b n c rest tail h = ground arith

announced-le : (a : ℕ) → announced a ≤ 4
unfolding announced
announced-le a = ground arith

-- The loop reaches the last lead byte.
to_lead :
    (s : Text) (a : ℕ) (conts : Text) (n : ℕ)
    → Conts conts
    → 4 ≡ n + length conts
    → split_on_utf8_boundary (s ++ a ∷ conts)
      ≡ walk_back (s ++ a ∷ conts) n (a ∷ reversed s []) conts
unfolding split_on_utf8_boundary reversed
to_lead s a conts n h e =
    ap (λ r. walk_back (s ++ a ∷ conts) 4 r []) (reversed-append s (a ∷ conts) [])
    ∙ ap (λ k. walk_back (s ++ a ∷ conts) k (reversed conts (a ∷ reversed s [])) []) e
    ∙ walk-Conts (s ++ a ∷ conts) conts n (a ∷ reversed s []) [] h
    ∙ ap (walk_back (s ++ a ∷ conts) n (a ∷ reversed s [])) (append-nil conts)

-- For a chunk that ends in a lead byte followed by continuation bytes, fewer than the lead byte
-- announces, `splitOnUTF8Boundary` keeps exactly these bytes pending, whatever stands before
-- them.
pub split-open :
    (s : Text) (a : ℕ) (conts : Text)
    → 192 ≤ a
    → Conts conts
    → suc (length conts) < announced a
    → split_on_utf8_boundary (s ++ a ∷ conts) ≡ record { complete = s; pending = a ∷ conts }
unfolding reversed
split-open s a conts lead h short =
    let n = 3 - length conts in
    to_lead s a conts (suc n) h (omega (arith, announced-le a))
    ∙ walk-open (s ++ a ∷ conts) n a (reversed s []) conts lead short
    ∙ ap (λ t. record { complete = t; pending = a ∷ conts })
        (reversed-reversed s [] [] ∙ append-nil s)

-- The bytes of a character: one below 128, or a lead byte with as many continuation bytes as it announces.
pub data IsCharacter : Text → Type 0 where
  ascii : {c : ℕ} → c < 128 → IsCharacter (c ∷ [])
  lead :
      {a : ℕ} {conts : Text}
      → 192 ≤ a
      → Conts conts
      → announced a ≡ suc (length conts)
      → IsCharacter (a ∷ conts)

-- For a chunk that ends in a complete character, one byte below 128 or a lead byte with as many
-- continuation bytes as it announces, `splitOnUTF8Boundary` passes the chunk on whole.
pub split-closed :
    (s r : Text)
    → IsCharacter r
    → split_on_utf8_boundary (s ++ r) ≡ record { complete = s ++ r; pending = [] }
split-closed s _ (ascii {c} h) =
    to_lead s c [] 4 tt refl ∙ walk-ascii (s ++ c ∷ []) 3 c (reversed s []) [] h
split-closed s _ (lead {a} {conts} l h e) =
    let n = 3 - length conts in
    to_lead s a conts (suc n) h (omega (arith, announced-le a))
    ∙ walk-closed (s ++ a ∷ conts) n a (reversed s []) conts l (omega arith)

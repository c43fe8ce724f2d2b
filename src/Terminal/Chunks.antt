-- ===== src/Terminal/Chunks.antt =====
-- Filtering chunk by chunk is filtering the whole.
use mathlib.Core.List.{append-nil, append_assoc}
use ppz.Base.{
  ℕ, ◌≡◌, refl, sym, ap, ◌∙◌, true, false, [], ◌∷◌, ◌++◌, arith, nat_eq, All, All-append,
  Bool-cases, inl, inr, Text,
}
use ppz.Terminal.{
  esc, is_final, is_control_response, Position, plain, escaped, in_csi, Filtered, emit, scan,
  filter_control_responses,
}

-- The bytes that lead to a position.
abbrev carried : Position → Text
carried plain = []
carried escaped = esc ∷ []
carried (in_csi body) = esc ∷ b'[' ∷ body

abbrev pub NonFinal : Text → Type 0
NonFinal = All (λ c. is_final c ≡ false)

abbrev Valid : Position → Type 0
Valid plain = Unit
Valid escaped = Unit
Valid (in_csi body) = NonFinal body

emit-emit : (s o : Text) (f : Filtered) → emit s (emit o f) ≡ emit (s ++ o) f
emit-emit s o f = rw append_assoc refl

-- The steps of the loop.
module _ (c : ℕ) (i : Text) where
  pub scan-byte : nat_eq c esc ≡ false → scan plain (c ∷ i) ≡ emit (c ∷ []) (scan plain i)
  unfolding scan
  scan-byte h = ground (arith, h)

  scan-esc : nat_eq c esc ≡ true → scan plain (c ∷ i) ≡ scan escaped i
  unfolding scan
  scan-esc h = ground (arith, h)

  pub scan-pair : nat_eq c b'[' ≡ false → scan escaped (c ∷ i) ≡ emit (esc ∷ c ∷ []) (scan plain i)
  unfolding scan
  scan-pair h = ground (arith, h)

  scan-open : nat_eq c b'[' ≡ true → scan escaped (c ∷ i) ≡ scan (in_csi []) i
  unfolding scan
  scan-open h = ground (arith, h)

  scan-inner :
      (body : Text)
      → is_final c ≡ false
      → scan (in_csi body) (c ∷ i) ≡ scan (in_csi (body ++ c ∷ [])) i
  unfolding scan
  scan-inner body h = ground (arith, h)

  pub scan-drop :
      (body : Text)
      → is_final c ≡ true
      → is_control_response body c ≡ true
      → scan (in_csi body) (c ∷ i) ≡ scan plain i
  unfolding scan
  scan-drop body h r = ground (arith, h, r)

  pub scan-keep :
      (body : Text)
      → is_final c ≡ true
      → is_control_response body c ≡ false
      → scan (in_csi body) (c ∷ i) ≡ emit (esc ∷ b'[' ∷ (body ++ c ∷ [])) (scan plain i)
  unfolding scan
  scan-keep body h r = ground (arith, h, r)

-- A body read on.
pub scan-body :
    (more body input : Text)
    → NonFinal more
    → scan (in_csi body) (more ++ input) ≡ scan (in_csi (body ++ more)) input
scan-body [] body input h = rw append-nil refl
scan-body (c ∷ more) body input h =
    scan-inner c (more ++ input) body h.0
    ∙ scan-body more (body ++ c ∷ []) input h.1
    ∙ ap (λ b. scan (in_csi b) input) (append_assoc body (c ∷ []) more)

scan-carried :
    (pos : Position) (input : Text) → Valid pos → scan plain (carried pos ++ input) ≡ scan pos input
unfolding scan
scan-carried plain input h = refl
scan-carried escaped input h = refl
scan-carried (in_csi body) input h = scan-body body [] input h

-- The end of a chunk.
at_end :
    (pos : Position) (b : Text)
    → Valid pos
    → scan pos b ≡ emit (scan pos []).out (scan plain ((scan pos []).pending ++ b))
unfolding scan
at_end plain b h = refl
at_end escaped b h = sym (scan-carried escaped b h)
at_end (in_csi body) b h = sym (scan-carried (in_csi body) b h)

abbrev then_scan : Filtered → Text → Filtered
then_scan f b = emit f.out (scan plain (f.pending ++ b))

emit-then_scan :
    (s : Text) (f : Filtered) (b : Text) → emit s (then_scan f b) ≡ then_scan (emit s f) b
emit-then_scan s f b = emit-emit s f.out _

resume : (pos : Position) (a b : Text) → Valid pos → scan pos (a ++ b) ≡ then_scan (scan pos a) b
resume pos [] b h = at_end pos b h
resume plain (c ∷ a) b h = elim (Bool-cases (nat_eq c esc)) [
  | inl e ↦
      scan-esc c (a ++ b) e ∙ resume escaped a b tt ∙ ap (λ f. then_scan f b) (sym (scan-esc c a e))
  | inr e ↦
      scan-byte c (a ++ b) e
      ∙ ap (emit (c ∷ [])) (resume plain a b tt)
      ∙ emit-then_scan (c ∷ []) (scan plain a) b
      ∙ ap (λ f. then_scan f b) (sym (scan-byte c a e))
]
resume escaped (c ∷ a) b h = elim (Bool-cases (nat_eq c b'[')) [
  | inl e ↦
      scan-open c (a ++ b) e
      ∙ resume (in_csi []) a b tt
      ∙ ap (λ f. then_scan f b) (sym (scan-open c a e))
  | inr e ↦
      scan-pair c (a ++ b) e
      ∙ ap (emit (esc ∷ c ∷ [])) (resume plain a b tt)
      ∙ emit-then_scan (esc ∷ c ∷ []) (scan plain a) b
      ∙ ap (λ f. then_scan f b) (sym (scan-pair c a e))
]
resume (in_csi body) (c ∷ a) b h = elim (Bool-cases (is_final c)) [
  | inr e ↦
      scan-inner c (a ++ b) body e
      ∙ resume (in_csi (body ++ c ∷ [])) a b
          (All-append (λ c. is_final c ≡ false) body (c ∷ []) h (e, tt))
      ∙ ap (λ f. then_scan f b) (sym (scan-inner c a body e))
  | inl e ↦ elim (Bool-cases (is_control_response body c)) [
    | inl r ↦
        scan-drop c (a ++ b) body e r
        ∙ resume plain a b tt
        ∙ ap (λ f. then_scan f b) (sym (scan-drop c a body e r))
    | inr r ↦
        scan-keep c (a ++ b) body e r
        ∙ ap (emit (esc ∷ b'[' ∷ (body ++ c ∷ []))) (resume plain a b tt)
        ∙ emit-then_scan (esc ∷ b'[' ∷ (body ++ c ∷ [])) (scan plain a) b
        ∙ ap (λ f. then_scan f b) (sym (scan-keep c a body e r))
  ]
]

-- Filtering one chunk, and then what it left pending with the next chunk behind it, gives the
-- output and the rest that filtering the two chunks as one gives, wherever the input is cut.
pub filter-append :
    (a b : Text)
    → filter_control_responses (a ++ b) ≡ (
        let first = filter_control_responses a in
        let second = filter_control_responses (first.pending ++ b) in
        record { out = first.out ++ second.out; pending = second.pending })
unfolding filter_control_responses
filter-append a b = resume plain a b tt

-- ===== src/Base/Lists.antt =====
-- Lists measured by native numbers, membership and predicates by recursion.
use Prim.Native.Nat.{ℕ, zero, suc, ◌+◌, ◌-◌, ◌≤◌}
use mathlib.Core.Path.{◌≡◌, refl, subst, ap, sym, ◌∙◌}
use mathlib.Core.Logic.{◌⊎◌, ◌↔◌, inl, inr}
use mathlib.Core.Bool.{Bool, true, false, ◌||◌, ◌&&◌}
use mathlib.Core.Option.{Option, none, some}
use mathlib.Core.List.{List, [], ◌∷◌, ◌++◌, map}
use native.Mathlib.Omega.{arith}
use native.Mathlib.Nat.{zero-add, suc-add}
use ppz.Base.Tests.{if◌then◌else◌, Bool-cases}

module _ {ℓ} {A : Type ℓ} where
  abbrev pub length : List A → ℕ
  length [] = 0
  length (x ∷ xs) = suc (length xs)

  pub length-append : (xs ys : List A) → length (xs ++ ys) ≡ length xs + length ys
  length-append [] ys = omega arith
  length-append (x ∷ xs) ys = omega (arith, length-append xs ys)

module _ {A : Type 0} where
  abbrev pub In : A → List A → Type 0
  In a [] = ⊥
  In a (x ∷ xs) = (x ≡ a) ⊎ In a xs

  pub In-append_left : (a : A) (xs ys : List A) → In a xs → In a (xs ++ ys)
  In-append_left a (x ∷ xs) ys (inl e) = inl e
  In-append_left a (x ∷ xs) ys (inr m) = inr (In-append_left a xs ys m)
  In-append_left a [] ys m = absurd m

  pub In-append_right : (a : A) (xs ys : List A) → In a ys → In a (xs ++ ys)
  In-append_right a [] ys m = m
  In-append_right a (x ∷ xs) ys m = inr (In-append_right a xs ys m)

  pub In-append : (a : A) (xs ys : List A) → In a (xs ++ ys) → In a xs ⊎ In a ys
  In-append a [] ys m = inr m
  In-append a (x ∷ xs) ys (inl e) = inl (inl e)
  In-append a (x ∷ xs) ys (inr m) = elim (In-append a xs ys m) [
    | inl l ↦ inl (inr l)
    | inr r ↦ inr r
  ]

  abbrev pub All {κ} : (A → Type κ) → List A → Type κ
  All P [] = Unit
  All P (x ∷ xs) = P x × All P xs

  pub All-append {κ} : (P : A → Type κ) (xs ys : List A) → All P xs → All P ys → All P (xs ++ ys)
  All-append P [] ys hx hy = hy
  All-append P (x ∷ xs) ys hx hy = (hx.0, All-append P xs ys hx.1 hy)

  abbrev pub filter : (A → Bool) → List A → List A
  filter p [] = []
  filter p (x ∷ xs) = if p x then x ∷ filter p xs else filter p xs

  abbrev pub any : (A → Bool) → List A → Bool
  any p [] = false
  any p (x ∷ xs) = p x || any p xs

module _ {A B : Type 0} where
  abbrev pub flat_map : (A → List B) → List A → List B
  flat_map f [] = []
  flat_map f (x ∷ xs) = f x ++ flat_map f xs

module _ {A : Type 0} (p : A → Bool) where
  pub any-append : (xs ys : List A) → any p (xs ++ ys) ≡ (any p xs || any p ys)
  any-append [] ys = refl
  any-append (x ∷ xs) ys = ground (arith, any-append xs ys)

  any_sound : (xs : List A) → any p xs ≡ true → (x : A) × In x xs × (p x ≡ true)
  any_sound [] h = absurd (ground arith)
  any_sound (x ∷ xs) h = elim (Bool-cases (p x)) [
    | inl e ↦ (x, inl refl, e)
    | inr e ↦ let (y, m, k) = any_sound xs (ground arith) in (y, inr m, k)
  ]

  any_complete : (xs : List A) (x : A) → In x xs → p x ≡ true → any p xs ≡ true
  any_complete [] x m h = absurd m
  any_complete (y ∷ xs) x (inl e) h = ground arith
  any_complete (y ∷ xs) x (inr m) h = ground (arith, any_complete xs x m h)

  pub any_iff : (xs : List A) → (any p xs ≡ true) ↔ ((x : A) × In x xs × (p x ≡ true))
  any_iff xs = (any_sound xs, λ (x, m, h). any_complete xs x m h)

  abbrev pub find : List A → Option A
  find [] = none
  find (x ∷ xs) = if p x then some x else find xs

  pub any_of_find-none : (xs : List A) → find xs ≡ none → any p xs ≡ false
  any_of_find-none [] h = refl
  any_of_find-none (x ∷ xs) h = ground (arith, any_of_find-none xs)

  pub any_of_find-some : (xs : List A) (x : A) → find xs ≡ some x → any p xs ≡ true
  any_of_find-some [] x h = absurd (ground arith)
  any_of_find-some (y ∷ xs) x h = ground (arith, any_of_find-some xs x)

  -- What is found stands in the list and passes the test.
  pub find_sound : (xs : List A) (x : A) → find xs ≡ some x → In x xs × (p x ≡ true)
  find_sound [] x h = absurd (ground arith)
  find_sound (y ∷ xs) x h = elim (Bool-cases (p y)) [
    | inl e ↦ let same : y ≡ x = ground arith in (inl same, subst (λ z. p z ≡ true) same e)
    | inr e ↦ let (m, k) = find_sound xs x (ground arith) in (inr m, k)
  ]

module _ {A B : Type 0} (p : B → Bool) where
  pub any-map : (f : A → B) (xs : List A) → any p (map f xs) ≡ any (λ x. p (f x)) xs
  any-map f [] = refl
  any-map f (x ∷ xs) = ground (arith, any-map f xs)

module _ {A : Type 0} (p q : A → Bool) where
  pub any-filter : (xs : List A) → any p (filter q xs) ≡ any (λ x. q x && p x) xs
  any-filter [] = refl
  any-filter (x ∷ xs) = ground (arith, any-filter xs)

  pub any_congr : (xs : List A) → ((x : A) → In x xs → p x ≡ q x) → any p xs ≡ any q xs
  any_congr [] h = refl
  any_congr (x ∷ xs) h = ground (arith, h x (inl refl), any_congr xs (λ y m. h y (inr m)))

module _ {A : Type 0} (P : A → Type 0) where
  pub All_at : (x : A) (xs : List A) → All P xs → In x xs → P x
  All_at x [] h m = absurd m
  All_at x (y ∷ xs) h (inl e) = subst P e h.0
  All_at x (y ∷ xs) h (inr m) = All_at x xs h.1 m

module _ {A : Type 0} where
  abbrev pub take : ℕ → List A → List A
  take zero xs = []
  take (suc n) [] = []
  take (suc n) (x ∷ xs) = x ∷ take n xs

  -- The last item, or a value for the empty list.
  abbrev pub last_or : List A → A → A
  last_or [] d = d
  last_or (x ∷ xs) d = last_or xs x

  pub last_or-append : (xs : List A) (x d : A) → last_or (xs ++ x ∷ []) d ≡ x
  last_or-append [] x d = refl
  last_or-append (y ∷ xs) x d = last_or-append xs x y

  abbrev pub drop : ℕ → List A → List A
  drop zero xs = xs
  drop (suc n) [] = []
  drop (suc n) (x ∷ xs) = drop n xs

  pub take-all : (n : ℕ) (xs : List A) → length xs ≤ n → take n xs ≡ xs
  take-all zero [] h = refl
  take-all zero (x ∷ xs) h = absurd (omega arith)
  take-all (suc n) [] h = refl
  take-all (suc n) (x ∷ xs) h = ap (λ ys. x ∷ ys) (take-all n xs (omega arith))

  pub append-take-drop : (m n : ℕ) (xs : List A) → take m xs ++ take n (drop m xs) ≡ take (m + n) xs
  append-take-drop zero n xs = rw zero-add
  append-take-drop (suc m) n [] = take_none n ∙ sym (take_none (suc m + n))
    where
      take_none : (k : ℕ) → take k [] ≡ []
      take_none zero = refl
      take_none (suc k) = refl
  append-take-drop (suc m) n (x ∷ xs) = rw suc-add (ap (λ ys. x ∷ ys) (append-take-drop m n xs))

  pub drop-drop : (m n : ℕ) (xs : List A) → drop n (drop m xs) ≡ drop (m + n) xs
  drop-drop zero n xs = rw zero-add
  drop-drop (suc m) n [] = drop_none n ∙ sym (drop_none (suc m + n))
    where
      drop_none : (k : ℕ) → drop k [] ≡ []
      drop_none zero = refl
      drop_none (suc k) = refl
  drop-drop (suc m) n (x ∷ xs) = rw suc-add (drop-drop m n xs)

  pub length-drop : (n : ℕ) (xs : List A) → length (drop n xs) ≡ length xs - n
  length-drop zero xs = omega arith
  length-drop (suc n) [] = omega arith
  length-drop (suc n) (x ∷ xs) = omega (arith, length-drop n xs)

  pub length-take_le : (n : ℕ) (xs : List A) → n ≤ length xs → length (take n xs) ≡ n
  length-take_le zero xs h = refl
  length-take_le (suc n) [] h = absurd (omega arith)
  length-take_le (suc n) (x ∷ xs) h = ap suc (length-take_le n xs (omega arith))

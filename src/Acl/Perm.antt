-- ===== src/Acl/Perm.antt =====
-- internal/acl/acl.go: `Perm`, a capability bitset in a byte.
use Prim.Native.Nat.{bit_and, bit_or}
use ppz.Base.{
  ◌+◌, nat_eq_iff, ℕ, zero, suc, ◌<◌, ◌≡◌, refl, sym, subst, ◌↔◌, ◌⊎◌, inl, inr, Bool, true, false,
  not, ◌&&◌, ◌||◌, List, [], ◌∷◌, ◌++◌, arith, ltb, nat_eq, if◌then◌else◌, In, Text, utf8, join,
}

-- `type Perm uint8`: every value is below 256.
abbrev pub Perm : Type 0
Perm = ℕ

abbrev pub read : Perm
read = 1

abbrev pub write : Perm
write = 2

abbrev pub admin : Perm
admin = 4

abbrev pub caps : List Perm
caps = read ∷ write ∷ admin ∷ []

-- `p & c != 0`.
unfoldable pub has_bit : Perm → Perm → Bool
has_bit p c = not (nat_eq (bit_and p c) 0)

named_bits : Perm → List (Perm × Text) → List Text
named_bits p [] = []
named_bits p ((c, s) ∷ rest) = if has_bit p c then s ∷ named_bits p rest else named_bits p rest

unfoldable pub perm_string : Perm → Text
unfolding named_bits has_bit
perm_string p =
    if nat_eq p 0
    then utf8 "none"
    else join
        (named_bits p ((read, utf8 "read") ∷ (write, utf8 "write") ∷ (admin, utf8 "admin") ∷ []))
        (utf8 "+")

unfoldable pub effective : Perm → Perm
effective p = if has_bit p admin then bit_or (bit_or read write) admin else p

unfoldable pub expand : Perm → List Perm
expand p =
    if has_bit p admin
    then read ∷ write ∷ admin ∷ []
    else (if has_bit p read then read ∷ [] else []) ++ (if has_bit p write then write ∷ [] else [])

-- A statement about the three capabilities, one by one.
pub caps_ind {ℓ} : (P : Perm → Type ℓ) → P read → P write → P admin → (c : Perm) → In c caps → P c
caps_ind P r w a c (inl e) = subst P e r
caps_ind P r w a c (inr (inl e)) = subst P e w
caps_ind P r w a c (inr (inr (inl e))) = subst P e a
caps_ind P r w a c (inr (inr (inr k))) = absurd k

below_eight :
    (f : ℕ → Bool)
    → f 0 && f 1 && f 2 && f 3 && f 4 && f 5 && f 6 && f 7 ≡ true
    → (n : ℕ) → n < 8
    → f n ≡ true
below_eight f h zero l = ground arith
below_eight f h (suc zero) l = ground arith
below_eight f h (suc (suc zero)) l = ground arith
below_eight f h (suc (suc (suc zero))) l = ground arith
below_eight f h (suc (suc (suc (suc zero)))) l = ground arith
below_eight f h (suc (suc (suc (suc (suc zero))))) l = ground arith
below_eight f h (suc (suc (suc (suc (suc (suc zero)))))) l = ground arith
below_eight f h (suc (suc (suc (suc (suc (suc (suc zero))))))) l = ground arith
below_eight f h (suc (suc (suc (suc (suc (suc (suc (suc n)))))))) l = absurd (omega arith)

abbrev same : Bool → Bool → Bool
same true b = b
same false b = not b

same→eq : (a b : Bool) → same a b ≡ true → a ≡ b
same→eq true b h = sym h
same→eq false false h = refl
same→eq false true h = h

-- The union of a set below 8 with one capability, checked at each value.
abbrev or_fits : Perm → Perm → Perm → Bool
or_fits c q d = ltb (bit_or d c) 8 && same (has_bit (bit_or d c) q) (nat_eq c q || has_bit d q)

or_fits_all :
    (c : Perm) → In c caps → (q : Perm) → In q caps → (d : Perm) → d < 8 → or_fits c q d ≡ true
unfolding has_bit
or_fits_all =
    caps_ind (λ c. (q : Perm) → In q caps → (d : Perm) → d < 8 → or_fits c q d ≡ true)
      (caps_ind (λ q. (d : Perm) → d < 8 → or_fits read q d ≡ true)
        (below_eight (or_fits read read) refl) (below_eight (or_fits read write) refl)
        (below_eight (or_fits read admin) refl))
      (caps_ind (λ q. (d : Perm) → d < 8 → or_fits write q d ≡ true)
        (below_eight (or_fits write read) refl) (below_eight (or_fits write write) refl)
        (below_eight (or_fits write admin) refl))
      (caps_ind (λ q. (d : Perm) → d < 8 → or_fits admin q d ≡ true)
        (below_eight (or_fits admin read) refl) (below_eight (or_fits admin write) refl)
        (below_eight (or_fits admin admin) refl))

pub bit_or-lt : (c d : Perm) → In c caps → d < 8 → bit_or d c < 8
bit_or-lt c d m h = ground (arith, or_fits_all c m read (inl refl) d h)

pub has_bit-or :
    (c d q : Perm)
    → In c caps
    → In q caps
    → d < 8
    → has_bit (bit_or d c) q ≡ (nat_eq c q || has_bit d q)
has_bit-or c d q m k h = same→eq _ _ (ground (arith, or_fits_all c m q k d h))

pub has_bit-zero : (c : Perm) → In c caps → has_bit 0 c ≡ false
unfolding has_bit
has_bit-zero = caps_ind (λ c. has_bit 0 c ≡ false) refl refl refl

-- Below 8 a set is empty exactly when it has none of the three bits.
abbrev empty_fits : ℕ → Bool
empty_fits d = same (nat_eq d 0) (not (has_bit d read || has_bit d write || has_bit d admin))

pub empty_iff :
    (d : Perm) → d < 8 → nat_eq d 0 ≡ not (has_bit d read || has_bit d write || has_bit d admin)
unfolding has_bit
empty_iff d h = same→eq _ _ (below_eight empty_fits refl d h)

-- Administering carries reading and writing, and these do not carry one another.
abbrev pub Carries : Perm → Perm → Type 0
Carries p c = (has_bit p c ≡ true) ⊎ (has_bit p admin ≡ true)

pub expand-Carries_iff : (p c : Perm) → In c caps → In c (expand p) ↔ Carries p c
unfolding expand
expand-Carries_iff p =
    caps_ind (λ c. In c (expand p) ↔ Carries p c) (ground arith) (ground arith) (ground arith)

-- A set below 8 is the sum of its bits.
abbrev bit_sum : ℕ → ℕ
bit_sum d =
    (if has_bit d read then 1 else 0)
    + (if has_bit d write then 2 else 0)
    + (if has_bit d admin then 4 else 0)

bit_sum_lem : (d : Perm) → d < 8 → d ≡ bit_sum d
unfolding has_bit
bit_sum_lem d h = (nat_eq_iff _ _).0 (below_eight (λ d. nat_eq d (bit_sum d)) refl d h)

-- Two sets below 8 with the same bits are equal.
pub perm_ext :
    (a b : Perm) → a < 8 → b < 8 → ((c : Perm) → In c caps → has_bit a c ≡ has_bit b c) → a ≡ b
perm_ext a b ha hb e = ground (
  arith,
  bit_sum_lem a ha,
  bit_sum_lem b hb,
  e read (inl refl),
  e write (inr (inl refl)),
  e admin (inr (inr (inl refl))),
)

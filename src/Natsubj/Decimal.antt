-- ===== src/Natsubj/Decimal.antt =====
-- UUIDs as 36 decimal digits, the lowest first: an instance for the tests.
use ppz.Base.{
  ℕ, zero, suc, ◌+◌, ◌*◌, ◌/◌, ◌%◌, ◌≡◌, refl, ap, true, none, some, [], ◌∷◌, if◌then◌else◌, nat_eq,
  length, All, Text, arith,
}
use ppz.Natsubj.Uuids.{Uuids, is_uuid_char}

abbrev pub digits : ℕ → ℕ → Text
digits zero u = []
digits (suc n) u = (b'0' + u % 10) ∷ digits n (u / 10)

pub digits-chars : (n u : ℕ) → All (λ c. is_uuid_char c ≡ true) (digits n u)
digits-chars zero u = tt
digits-chars (suc n) u = (ground arith, digits-chars n (u / 10))

pub digits-length : (n u : ℕ) → length (digits n u) ≡ n
digits-length zero u = refl
digits-length (suc n) u = ap suc (digits-length n (u / 10))

abbrev pub value : Text → ℕ
value [] = 0
value (c ∷ s) = c % 16 + 10 * value s

pub parse_36 :
    (s : Text)
    → length s ≡ 36
    → (v : ℕ) × ((if nat_eq (length s) 36 then some (value s) else none) ≡ some v)
parse_36 s h = (value s, ground arith)

abbrev pub decimal : Uuids
decimal = record {
  uuid_string = digits 36;
  uuid_parse = λ s. if nat_eq (length s) 36 then some (value s) else none;
  string_chars = digits-chars 36;
  string_length = digits-length 36;
  string_parses = λ u. parse_36 (digits 36 u) (digits-length 36 u);
}

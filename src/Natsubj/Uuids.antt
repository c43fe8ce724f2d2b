-- ===== src/Natsubj/Uuids.antt =====
-- github.com/google/uuid, which is not part of the repository: a parameter with its documented form.
use ppz.Base.{ℕ, ◌≡◌, Option, some, Text, length, All, Bool, true, ◌||◌, ◌&&◌, nat_eq, leb}
use ppz.Acl.Model.{Uuid}

-- A digit of the canonical form, or the hyphen between its groups.
abbrev pub is_uuid_char : ℕ → Bool
is_uuid_char c = leb b'0' c && leb c b'9' || leb b'a' c && leb c b'f' || nat_eq c b'-'

-- `UUID.String` and `uuid.Parse`: the canonical text has 36 characters, lower-case hexadecimal digits
-- in groups joined by hyphens, and it is a text that parses.
pub record Uuids : Type 0 where
  pub uuid_string : Uuid → Text
  pub uuid_parse : Text → Option Uuid
  pub string_chars : (u : Uuid) → All (λ c. is_uuid_char c ≡ true) (uuid_string u)
  pub string_length : (u : Uuid) → length (uuid_string u) ≡ 36
  pub string_parses : (u : Uuid) → (v : Uuid) × (uuid_parse (uuid_string u) ≡ some v)

-- ===== src/Natsubj/Names.antt =====
-- internal/natsubj/subjects.go: which handles and pipe names are accepted.
use ppz.Base.{
  ℕ, ◌≤◌, ◌≡◌, ◌≢◌, ◌↔◌, Bool, true, false, not, ◌&&◌, ◌||◌, Option, none, some, List, [], ◌∷◌,
  arith, if◌then◌else◌, nat_eq, leb, any, length, All, Text, utf8, text_eq, Lacks,
}

-- [a-z0-9]
abbrev pub is_alnum : ℕ → Bool
is_alnum c = leb b'a' c && leb c b'z' || leb b'0' c && leb c b'9'

-- [a-z0-9-]
abbrev pub is_inner : ℕ → Bool
is_inner c = is_alnum c || nat_eq c b'-'

-- [a-z0-9-]*[a-z0-9]$
ends_alnum : Text → Bool
ends_alnum [] = false
ends_alnum (c ∷ []) = is_alnum c
ends_alnum (c ∷ d ∷ s) = is_inner c && ends_alnum (d ∷ s)

-- ([a-z0-9-]{0,30}[a-z0-9])?$
after_first : Text → Bool
after_first [] = true
after_first (c ∷ s) = leb (length (c ∷ s)) 31 && ends_alnum (c ∷ s)

-- `HandleRegex.MatchString`.
unfoldable pub handle_regex : Text → Bool
unfolding after_first ends_alnum
handle_regex [] = false
handle_regex (c ∷ s) = is_alnum c && after_first s

-- A set of strings, as a map to `true`.
abbrev pub is_one_of : Text → List Text → Bool
is_one_of s names = any (λ n. text_eq s n) names

unfoldable pub reserved : List Text
unfolding utf8
reserved =
    utf8 "broadcast"
    ∷ utf8 "inbox"
    ∷ utf8 "stdin"
    ∷ utf8 "stdout"
    ∷ utf8 "stdctrl"
    ∷ utf8 "system"
    ∷ utf8 "db"
    ∷ []

unfoldable pub auto_provisioned_pipes : List Text
unfolding utf8
auto_provisioned_pipes =
    utf8 "broadcast"
    ∷ utf8 "inbox"
    ∷ utf8 "stdin"
    ∷ utf8 "stdout"
    ∷ utf8 "stdctrl"
    ∷ utf8 "system"
    ∷ utf8 "heartbeat"
    ∷ []

unfoldable pub reserved_pipe_names : List Text
unfolding utf8
reserved_pipe_names = utf8 "system" ∷ utf8 "db" ∷ utf8 "inbox" ∷ utf8 "heartbeat" ∷ []

pub data NameError : Type 0 where
  invalid_handle reserved_handle invalid_pipe invalid_pipe_name name_is_reserved : NameError

-- `none` is the nil error.
unfoldable pub validate_handle : Text → Option NameError
unfolding handle_regex
validate_handle h =
    if not (handle_regex h)
    then some invalid_handle
    else if is_one_of h reserved
    then some reserved_handle
    else none

unfoldable pub validate_pipe : Text → Option NameError
validate_pipe name = if not (handle_regex name) then some invalid_pipe else none

unfoldable pub validate_user_pipe_name : Text → Option NameError
validate_user_pipe_name name =
    if not (handle_regex name)
    then some invalid_pipe_name
    else if is_one_of name reserved_pipe_names
    then some name_is_reserved
    else none

-- The rule in words: 1 to 32 lower-case letters, digits and hyphens, no hyphen first or last.
abbrev FirstNot : ℕ → Text → Type 0
FirstNot c [] = Unit
FirstNot c (d ∷ s) = d ≢ c

abbrev LastNot : ℕ → Text → Type 0
LastNot c [] = Unit
LastNot c (d ∷ []) = d ≢ c
LastNot c (d ∷ e ∷ s) = LastNot c (e ∷ s)

pub record IsHandle (h : Text) : Type 0 where
  pub nonempty : 1 ≤ length h
  pub short : length h ≤ 32
  pub letters : All (λ c. is_inner c ≡ true) h
  pub first : FirstNot b'-' h
  pub last : LastNot b'-' h

ends_alnum_iff :
    (c : ℕ) (s : Text)
    → (ends_alnum (c ∷ s) ≡ true) ↔ (All (λ c. is_inner c ≡ true) (c ∷ s) × LastNot b'-' (c ∷ s))
unfolding ends_alnum
ends_alnum_iff c [] = ground arith
ends_alnum_iff c (d ∷ s) = ground (arith, ends_alnum_iff d s)

-- `HandleRegex` accepts exactly the texts of 1 to 32 lower-case letters, digits and hyphens whose
-- first and last character is not a hyphen.
pub handle_regex_iff : (h : Text) → (handle_regex h ≡ true) ↔ IsHandle h
unfolding handle_regex
handle_regex_iff [] = (λ h. cc, λ h. absurd (omega (arith, h.nonempty)))
handle_regex_iff (c ∷ []) = (
  λ h. record {
    nonempty = omega arith;
    short = omega arith;
    letters = ground arith;
    first = ground arith;
    last = ground arith;
  },
  λ h. ground (arith, h.letters, h.first),
)
handle_regex_iff (c ∷ d ∷ s) = (
  λ h.
      let (letters, last) = (ends_alnum_iff d s).0 (ground arith) in
      record {
        nonempty = omega arith;
        short = ground arith;
        letters = (ground arith, letters);
        first = ground arith;
        last = last;
      },
  λ h.
      let e : ends_alnum (d ∷ s) ≡ true = (ends_alnum_iff d s).1 (h.letters.1, h.last) in
      ground (arith, h.letters.0, h.first, h.short, e),
)

inner_ne : (c : ℕ) → is_inner c ≡ true → (c ≢ b'.') × (c ≢ b'_') × (c ≢ b'*') × (c ≢ b'>')
inner_ne c h = ground arith

letters-Lacks : (s : Text) → All (λ c. is_inner c ≡ true) s → Lacks b'.' s × Lacks b'_' s
letters-Lacks [] h = (tt, tt)
letters-Lacks (c ∷ s) h =
    let (dot, under, _, _) = inner_ne c h.0 in
    let (ds, us) = letters-Lacks s h.1 in ((dot, ds), (under, us))

-- A handle is one token of a subject and one segment of a stream name.
pub IsHandle-Lacks : {h : Text} → IsHandle h → Lacks b'.' h × Lacks b'_' h
IsHandle-Lacks {h} k = letters-Lacks h k.letters

-- `ValidateHandle` returns no error exactly for the texts of 1 to 32 lower-case letters, digits
-- and hyphens, whose first and last character is not a hyphen, that are not reserved.
pub validate_handle_iff :
    (h : Text) → (validate_handle h ≡ none) ↔ (IsHandle h × (is_one_of h reserved ≡ false))
unfolding validate_handle
validate_handle_iff h = (
  λ e. ((handle_regex_iff h).0 (ground arith), ground arith),
  λ (k, r). ground (arith, (handle_regex_iff h).1 k),
)

pub validate_pipe_iff : (h : Text) → (validate_pipe h ≡ none) ↔ IsHandle h
unfolding validate_pipe
validate_pipe_iff h =
    (λ e. (handle_regex_iff h).0 (ground arith), λ k. ground (arith, (handle_regex_iff h).1 k))

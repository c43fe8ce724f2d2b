-- ===== src/OauthState.antt =====
-- internal/server/oauth_state.go: the `state` token of the login by GitHub.
pub mod Tokens
pub mod Replay
mod Tests
use ppz.Base.{
  unix, time_unix, unix_to_internal, ℕ, ◌+◌, ◌-◌, ◌*◌, ◌/◌, ◌%◌, ◌^◌, ◌<◌, ◌≡◌, ◌≢◌, Bool, true,
  false, not, ◌||◌, Option, none, some, List, [], ◌∷◌, ◌++◌, if◌then◌else◌, nat_eq, ltb, any,
  filter, All, Text, text_eq, has_prefix, utf8, Time, zero_time, Duration, second, add,
}

abbrev pub state_ttl : Duration
state_ttl = 10 * (60 * second)

pub record OauthState : Type 0 where
  pub nonce : Text
  pub next : Text

pub record OauthStateWire : Type 0 where
  pub n : Text
  pub r : Text
  pub exp : ℕ

abbrev pub IsAscii : Text → Type 0
IsAscii s = All (λ c. c < 128) s

-- Base64 for URLs without padding, encoding/json on the payload, and HMAC-SHA256, with what is
-- documented of them.
pub record Codec : Type 0 where
  pub encode_to_string : Text → Text
  pub decode_string : Text → Option Text
  pub marshal : OauthStateWire → Text
  pub unmarshal : Text → Option OauthStateWire
  pub hmac : Text → Text → Text
  pub decode_encode : (s : Text) → decode_string (encode_to_string s) ≡ some s
  pub encode_ascii : (s : Text) → IsAscii (encode_to_string s)
  pub encode_dotless : (s : Text) → any (λ c. nat_eq c b'.') (encode_to_string s) ≡ false
  pub encode_empty : (s : Text) → encode_to_string s ≡ [] → s ≡ []
  pub unmarshal_marshal :
      (w : OauthStateWire) → IsAscii w.n → IsAscii w.r → unmarshal (marshal w) ≡ some w
  pub marshal_object : (w : OauthStateWire) → marshal w ≢ []
  pub hmac_sum : (key body : Text) → hmac key body ≢ []

-- An entry of the map of consumed nonces.
pub record Consumed : Type 0 where
  pub nonce : Text
  pub at : Time

abbrev pub NonceStore : Type 0
NonceStore = List Consumed

-- What the loop keeps; `now` is the clock when it starts.
unfoldable pub sweep : Time → NonceStore → NonceStore
sweep now consumed = filter (λ e. not (ltb e.at (add now (2 ^ 64 - 2 * state_ttl)))) consumed

-- `stamp` is the clock when the nonce is stored.
unfoldable pub try_consume : Text → Time → Time → NonceStore → Bool × NonceStore
try_consume nonce now stamp consumed =
    let kept = sweep now consumed in
    if any (λ e. text_eq e.nonce nonce) kept
    then (false, kept)
    else (true, record { nonce = nonce; at = stamp } ∷ kept)

unfoldable pub is_safe_next_path : Text → Bool
unfolding utf8
is_safe_next_path next =
    if text_eq next []
    then true
    else if not (has_prefix next (utf8 "/"))
    then false
    else if has_prefix next (utf8 "//")
    then false
    else if any (λ c. nat_eq c 92) next
    then false
    else not (any (λ c. nat_eq c 32 || nat_eq c 9 || nat_eq c 10 || nat_eq c 13) next)

-- The text before the first `.` and the text behind it.
unfoldable pub cut_dot : Text → Option (Text × Text)
cut_dot [] = none
cut_dot (c ∷ s) =
    let rest = cut_dot s in
    if nat_eq c b'.'
    then some ([], s)
    else elim rest [ none ↦ none | some (before, behind) ↦ some (c ∷ before, behind) ]

-- The end of `VerifyOAuthState`, from the test of the expiry on.
unfoldable pub redeem :
    OauthStateWire → Time → Time → Time → NonceStore → Option OauthState × NonceStore
redeem w now swept stamp store =
    if ltb (time_unix w.exp) now
    then (none, store)
    else let (fresh, left) = try_consume w.n swept stamp store in
      if fresh then (some (record { nonce = w.n; next = w.r }), left) else (none, left)

module _ (codec : Codec) (key : Text) where
  -- The random bytes are an argument, `none` if there are none to be had.
  unfoldable pub mint_oauth_state : Text → Option Text → Time → Option Text
  mint_oauth_state next random now =
      if not (is_safe_next_path next) then none else if text_eq key [] then none else elim random [
        | none ↦ none
        | some nonce_bytes ↦
            let body = codec.marshal (record {
              n = codec.encode_to_string nonce_bytes;
              r = next;
              exp = unix (add now state_ttl);
            }) in
            some
              (codec.encode_to_string body ++ (b'.' ∷ codec.encode_to_string (codec.hmac key body)))
      ]

  -- A token up to its payload: what `VerifyOAuthState` does before it looks at the clock.
  unfoldable pub read_token : Text → Option OauthStateWire
  read_token token = if text_eq token [] || text_eq key [] then none else elim (cut_dot token) [
    | none ↦ none
    | some (before, behind) ↦
        if text_eq before [] || text_eq behind [] then none else elim (codec.decode_string before) [
          | none ↦ none
          | some body ↦ elim (codec.decode_string behind) [
            | none ↦ none
            | some got_sig ↦
                if text_eq got_sig (codec.hmac key body) then codec.unmarshal body else none
          ]
        ]
  ]

  -- The clock is read for the expiry, for the sweep and for the stamp. `none` is ErrInvalidOAuthState.
  unfoldable pub verify_oauth_state :
      Text → Time → Time → Time → NonceStore → Option OauthState × NonceStore
  verify_oauth_state token now swept stamp store = elim (read_token token) [
    | none ↦ (none, store)
    | some w ↦ redeem w now swept stamp store
  ]

-- ===== src/OauthState/Tokens.antt =====
-- A minted token is read as what was put into it.
use ppz.Base.{
  unix, time_unix, ℕ, ◌+◌, ◌-◌, ◌*◌, ◌/◌, ◌%◌, ◌^◌, ◌<◌, ◌≤◌, ◌≡◌, ◌≢◌, inl, inr, refl, sym, ap,
  ◌∙◌, false, none, some, [], ◌∷◌, ◌++◌, nat_eq, ltb, any, Text, text_eq, text_eq_iff, text_eq_refl,
  Time, zero_time, second, add, arith, Bool-cases,
}
use ppz.OauthState.{
  state_ttl, OauthStateWire, IsAscii, Codec, Consumed, NonceStore, try_consume, sweep,
  is_safe_next_path, cut_dot, mint_oauth_state, read_token, verify_oauth_state, redeem,
}

-- An instant whose Unix time is in range.
abbrev pub InRange : Time → Type 0
InRange t = (zero_time ≤ t) × (t < zero_time + 2 ^ 63 * second)

seconds_back :
    (q : ℕ) → q < 2 ^ 63 → ((q + (2 ^ 64 - 62135596800)) % 2 ^ 64 + 62135596800) % 2 ^ 64 ≡ q
seconds_back q h = omega arith

pub time_unix-unix :
    (t : Time) → InRange t → time_unix (unix t) ≡ zero_time + ((t - zero_time) / second) * second
unfolding time_unix unix
time_unix-unix t (h, k) = rw (seconds_back ((t - zero_time) / second) (omega arith)) (ground arith)

cut_dot-append :
    (s t : Text) → any (λ c. nat_eq c b'.') s ≡ false → cut_dot (s ++ (b'.' ∷ t)) ≡ some (s, t)
unfolding cut_dot
cut_dot-append [] t h = refl
cut_dot-append (c ∷ s) t h = ground (arith, cut_dot-append s t)

is_empty : (s : Text) → s ≢ [] → text_eq s [] ≡ false
is_empty s h = elim (Bool-cases (text_eq s [])) [
  | inl e ↦ absurd (h ((text_eq_iff s []).0 e))
  | inr e ↦ e
]

fresh_kept :
    (nonce : Text) (now : Time) (store : NonceStore)
    → any (λ (e : Consumed). text_eq e.nonce nonce) store ≡ false
    → any (λ (e : Consumed). text_eq e.nonce nonce) (sweep now store) ≡ false
unfolding sweep
fresh_kept nonce now [] h = refl
fresh_kept nonce now (e ∷ store) h = ground (arith, fresh_kept nonce now store)

module _ (codec : Codec) (key : Text) where
  abbrev pub minted_wire : Text → Text → Time → OauthStateWire
  minted_wire next bytes now = record {
    n = codec.encode_to_string bytes;
    r = next;
    exp = unix (add now state_ttl);
  }

  abbrev signed : Text → Text
  signed body = codec.encode_to_string body ++ (b'.' ∷ codec.encode_to_string (codec.hmac key body))

  encoded : (s : Text) → s ≢ [] → text_eq (codec.encode_to_string s) [] ≡ false
  encoded s h = is_empty (codec.encode_to_string s) (λ e. h (codec.encode_empty s e))

  signed_some : (s t : Text) → text_eq (s ++ (b'.' ∷ t)) [] ≡ false
  unfolding text_eq
  signed_some [] t = refl
  signed_some (c ∷ s) t = refl

  read-signed :
      (body : Text)
      → key ≢ []
      → body ≢ []
      → read_token codec key (signed body) ≡ codec.unmarshal body
  unfolding read_token
  read-signed body k b =
      rw
        (
          signed_some (codec.encode_to_string body) (codec.encode_to_string (codec.hmac key body)),
          is_empty key k,
          cut_dot-append (codec.encode_to_string body)
              (codec.encode_to_string (codec.hmac key body)) (codec.encode_dotless body),
          encoded body b,
          encoded (codec.hmac key body) (codec.hmac_sum key body),
          codec.decode_encode body,
          codec.decode_encode (codec.hmac key body),
          text_eq_refl (codec.hmac key body),
        )
        refl

  minted-signed :
      (next bytes token : Text) (now : Time)
      → mint_oauth_state codec key next (some bytes) now ≡ some token
      → (key ≢ []) × (signed (codec.marshal (minted_wire next bytes now)) ≡ token)
  unfolding mint_oauth_state
  minted-signed next bytes token now h = elim (Bool-cases (is_safe_next_path next)) [
    | inr bad ↦ absurd (ground arith)
    | inl safe ↦ elim (Bool-cases (text_eq key [])) [
      | inl k ↦ absurd (ground arith)
      | inr k ↦ (λ e. ground (arith, (text_eq_iff key []).1 e), ground arith)
    ]
  ]

  pub read_token-mint_oauth_state :
      (next bytes token : Text) (now : Time)
      → IsAscii next
      → mint_oauth_state codec key next (some bytes) now ≡ some token
      → read_token codec key token ≡ some (minted_wire next bytes now)
  read_token-mint_oauth_state next bytes token now a h =
      let (k, e) = minted-signed next bytes token now h in
      let w = minted_wire next bytes now in
      ap (read_token codec key) (sym e)
      ∙ (read-signed (codec.marshal w) k (codec.marshal_object w)
          ∙ codec.unmarshal_marshal w (codec.encode_ascii bytes) a)

  -- The expiry that a minted token carries, rounded down to a second.
  pub expires :
      (now : Time)
      → InRange (add now state_ttl)
      → (time_unix (unix (add now state_ttl)) ≤ add now state_ttl)
        × (add now state_ttl < time_unix (unix (add now state_ttl)) + second)
  expires now h = rw (time_unix-unix (add now state_ttl) h) (omega arith, omega arith)

  pub verify_of_read :
      (token : Text) (w : OauthStateWire) (now swept stamp : Time) (store : NonceStore)
      → read_token codec key token ≡ some w
      → verify_oauth_state codec key token now swept stamp store ≡ redeem w now swept stamp store
  unfolding verify_oauth_state
  verify_of_read token w now swept stamp store h = rw (h, verify_oauth_state) refl

  pub verify_unread :
      (token : Text) (now swept stamp : Time) (store : NonceStore)
      → read_token codec key token ≡ none
      → verify_oauth_state codec key token now swept stamp store ≡ (none, store)
  unfolding verify_oauth_state
  verify_unread token now swept stamp store h = rw (h, verify_oauth_state) refl

  -- A token that was minted with an ASCII path, at an instant whose expiry has a Unix time in
  -- range, is verified with the same key up to a second before ten minutes have passed, where its
  -- nonce is not in the store, and gives back the nonce and the path; the nonce is then stored,
  -- and the store is swept.
  pub verify-mint_oauth_state :
      (next bytes token : Text) (minted now swept stamp : Time) (store : NonceStore)
      → mint_oauth_state codec key next (some bytes) minted ≡ some token
      → IsAscii next
      → InRange (add minted state_ttl)
      → now + second ≤ add minted state_ttl
      → any (λ (e : Consumed). text_eq e.nonce (codec.encode_to_string bytes)) store ≡ false
      → verify_oauth_state codec key token now swept stamp store ≡ (
        some (record { nonce = codec.encode_to_string bytes; next = next }),
        record { nonce = codec.encode_to_string bytes; at = stamp } ∷ sweep swept store,
      )
  unfolding redeem try_consume
  verify-mint_oauth_state next bytes token minted now swept stamp store h a r late fresh =
      let (least, most) = expires minted r in
      let in_time : ltb (time_unix (unix (add minted state_ttl))) now ≡ false = ground arith in
      verify_of_read token (minted_wire next bytes minted) now swept stamp store
        (read_token-mint_oauth_state next bytes token minted a h)
      ∙ rw (in_time, fresh_kept (codec.encode_to_string bytes) swept store fresh) refl

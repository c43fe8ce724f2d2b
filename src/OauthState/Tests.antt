-- ===== src/OauthState/Tests.antt =====
-- The state token at concrete input.
use ppz.Base.{
  ℕ, zero, suc, ◌+◌, ◌*◌, ◌^◌, ◌≤◌, ◌≡◌, ◌≢◌, refl, ap, ◌∙◌, true, false, Option, none, some, List,
  [], ◌∷◌, ◌++◌, map, nat_eq, any, Text, text_eq, has_prefix, utf8, encode_rune, Time, zero_time,
  second, add, arith,
}
use ppz.OauthState.{
  state_ttl, OauthState, OauthStateWire, IsAscii, Codec, NonceStore, sweep, is_safe_next_path,
  mint_oauth_state, verify_oauth_state,
}
use ppz.OauthState.Tokens.{InRange, verify-mint_oauth_state}
use ppz.OauthState.Replay.{Attempt, try_verify, after_attempts, accepted_once}

-- Each number as that many letters `a` and a `b`.
abbrev unary : ℕ → Text → Text
unary zero s = b'b' ∷ s
unary (suc n) s = b'a' ∷ unary n s

abbrev encode : Text → Text
encode [] = []
encode (c ∷ s) = unary c (encode s)

abbrev decode : ℕ → Text → Text
decode n [] = []
decode n (c ∷ s) = elim (nat_eq c b'b') [ true ↦ n ∷ decode 0 s | false ↦ decode (n + 1) s ]

decode-unary : (m n : ℕ) (s : Text) → decode m (unary n s) ≡ (m + n) ∷ decode 0 s
decode-unary m zero s = ap (λ (k : ℕ). k ∷ decode 0 s) (omega arith)
decode-unary m (suc n) s = decode-unary (m + 1) n s ∙ ap (λ (k : ℕ). k ∷ decode 0 s) (omega arith)

decode-encode : (s : Text) → decode 0 (encode s) ≡ s
decode-encode [] = refl
decode-encode (c ∷ s) =
    decode-unary 0 c (encode s)
    ∙ (ap (λ (k : ℕ). k ∷ decode 0 (encode s)) (omega arith)
        ∙ ap (λ (t : Text). c ∷ t) (decode-encode s))

unary-IsAscii : (n : ℕ) (s : Text) → IsAscii s → IsAscii (unary n s)
unary-IsAscii zero s h = (omega arith, h)
unary-IsAscii (suc n) s h = (omega arith, unary-IsAscii n s h)

encode-IsAscii : (s : Text) → IsAscii (encode s)
encode-IsAscii [] = tt
encode-IsAscii (c ∷ s) = unary-IsAscii c (encode s) (encode-IsAscii s)

unary_dotless :
    (n : ℕ) (s : Text)
    → any (λ c. nat_eq c b'.') s ≡ false
    → any (λ c. nat_eq c b'.') (unary n s) ≡ false
unary_dotless zero s h = h
unary_dotless (suc n) s h = unary_dotless n s h

dotless : (s : Text) → any (λ c. nat_eq c b'.') (encode s) ≡ false
dotless [] = refl
dotless (c ∷ s) = unary_dotless c (encode s) (dotless s)

unary_some : (n : ℕ) (s : Text) → unary n s ≢ []
unary_some zero s e = ground arith
unary_some (suc n) s e = ground arith

encode_none : (s : Text) → encode s ≡ [] → s ≡ []
encode_none [] e = refl
encode_none (c ∷ s) e = absurd (unary_some c (encode s) e)

abbrev unpair : Text → Text × Text
unpair [] = ([], [])
unpair (zero ∷ s) = ([], s)
unpair (suc c ∷ s) = let (n, r) = unpair s in (c ∷ n, r)

unpair-pair : (n r : Text) → unpair (map suc n ++ (0 ∷ r)) ≡ (n, r)
unpair-pair [] r = refl
unpair-pair (c ∷ n) r = ap (λ (p : Text × Text). (c ∷ p.0, p.1)) (unpair-pair n r)

abbrev read_wire : Text → Option OauthStateWire
read_wire [] = none
read_wire (e ∷ s) = some (record { n = (unpair s).0; r = (unpair s).1; exp = e })

cons_some : (c : ℕ) (s : Text) → c ∷ s ≢ []
cons_some c s e = ground arith

abbrev codec : Codec
codec = record {
  encode_to_string = encode;
  decode_string = λ s. some (decode 0 s);
  marshal = λ w. w.exp ∷ (map suc w.n ++ (0 ∷ w.r));
  unmarshal = read_wire;
  hmac = λ key body. 0 ∷ (key ++ body);
  decode_encode = λ s. ap some (decode-encode s);
  encode_ascii = encode-IsAscii;
  encode_dotless = dotless;
  encode_empty = encode_none;
  unmarshal_marshal = λ w a b.
      ap (λ (p : Text × Text). some (record { n = p.0; r = p.1; exp = w.exp }))
        (unpair-pair w.n w.r);
  marshal_object = λ w. cons_some w.exp (map suc w.n ++ (0 ∷ w.r));
  hmac_sum = λ key body. cons_some 0 (key ++ body);
}

-- 1970-01-01.
abbrev epoch : Time
epoch = 2 ^ 63 + 62135596800 * second

abbrev chat : Text
chat = b'/' ∷ b'c' ∷ []

abbrev token : Text
unfolding mint_oauth_state
token = elim (mint_oauth_state codec (7 ∷ []) chat (some (1 ∷ [])) epoch) [ none ↦ [] | some t ↦ t ]

minted : mint_oauth_state codec (7 ∷ []) chat (some (1 ∷ [])) epoch ≡ some token
unfolding mint_oauth_state is_safe_next_path has_prefix utf8 encode_rune text_eq
minted = refl

chat-IsAscii : IsAscii chat
chat-IsAscii = (omega arith, (omega arith, tt))

in_range : InRange (add epoch state_ttl)
unfolding add zero_time
in_range = (omega arith, omega arith)

in_time : epoch + second + second ≤ add epoch state_ttl
unfolding add
in_time = omega arith

abbrev first_attempt : Attempt
first_attempt = record {
  key = 7 ∷ [];
  token = token;
  now = epoch + second;
  swept = epoch + second;
  stamp = epoch + second;
}

accepted :
    (try_verify codec first_attempt []).0 ≡ some (record { nonce = encode (1 ∷ []); next = chat })
accepted =
    ap (λ (r : Option OauthState × NonceStore). r.0)
      (verify-mint_oauth_state codec (7 ∷ []) chat (1 ∷ []) token epoch (epoch + second)
        (epoch + second) (epoch + second) [] minted chat-IsAscii in_range in_time refl)

verify-mint_oauth_state_example :
    verify_oauth_state codec (7 ∷ []) token (epoch + second) (epoch + second) (epoch + second) []
    ≡ (
      some (record { nonce = encode (1 ∷ []); next = chat }),
      record { nonce = encode (1 ∷ []); at = epoch + second } ∷ sweep (epoch + second) [],
    )
verify-mint_oauth_state_example =
    verify-mint_oauth_state codec (7 ∷ []) chat (1 ∷ []) token epoch (epoch + second)
      (epoch + second) (epoch + second) [] minted chat-IsAscii in_range in_time refl

-- The wrong token in between does not disturb the store.
abbrev between : List Attempt
between = record { key = 7 ∷ []; token = b'x' ∷ []; now = epoch; swept = epoch; stamp = epoch } ∷ []

abbrev second_attempt : Attempt
second_attempt = record {
  key = 7 ∷ [];
  token = token;
  now = epoch + 2 * second;
  swept = epoch + 2 * second;
  stamp = epoch + 2 * second;
}

accepted_once_example :
    (try_verify codec second_attempt
      (after_attempts codec between (try_verify codec first_attempt []).1)).0
    ≡ none
accepted_once_example =
    accepted_once codec (7 ∷ []) chat (1 ∷ []) token epoch chat-IsAscii minted in_range
      (epoch + second) (epoch + second) (epoch + second) (epoch + 2 * second) (epoch + 2 * second)
      (epoch + 2 * second) between [] (record { nonce = encode (1 ∷ []); next = chat }) accepted
      (omega arith) (omega arith) (omega arith, tt)

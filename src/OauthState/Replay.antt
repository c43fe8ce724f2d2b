-- ===== src/OauthState/Replay.antt =====
-- A token is accepted once.
use ppz.Base.{
  time_unix, ◌+◌, ◌-◌, ◌*◌, ◌^◌, ◌<◌, ◌≤◌, ◌≡◌, inl, inr, refl, sym, ap, ◌∙◌, subst, false, Option,
  none, some, List, [], ◌∷◌, ltb, any, any_iff, In, All, Text, text_eq, text_eq_iff, Time, add,
  arith, Bool-cases, Option-cases,
}
use ppz.OauthState.{
  state_ttl, OauthState, OauthStateWire, IsAscii, Codec, Consumed, NonceStore, try_consume, sweep,
  mint_oauth_state, read_token, verify_oauth_state, redeem,
}
use ppz.OauthState.Tokens.{
  InRange, minted_wire, read_token-mint_oauth_state, verify_of_read, verify_unread, expires,
}

-- A call of `VerifyOAuthState` with what the clock shows to it.
pub record Attempt : Type 0 where
  pub key : Text
  pub token : Text
  pub now : Time
  pub swept : Time
  pub stamp : Time

-- A nonce is in the store with a stamp from an instant on.
abbrev Seen : Text → Time → NonceStore → Type 0
Seen nonce t store = (e : Consumed) × In e store × (e.nonce ≡ nonce) × (t ≤ e.at)

-- A sweep keeps what is less than two lifetimes old.
sweep-In :
    (e : Consumed) (now : Time) (store : NonceStore)
    → In e store
    → now ≤ e.at + 2 * state_ttl
    → In e (sweep now store)
unfolding sweep add
sweep-In e now [] m h = absurd m
sweep-In e now (x ∷ store) (inl same) h =
    let stays : ltb x.at (add now (2 ^ 64 - 2 * state_ttl)) ≡ false =
      ground (arith, ap (λ (d : Consumed). d.at) same) in
    rw stays (inl same)
sweep-In e now (x ∷ store) (inr m) h =
    elim (Bool-cases (ltb x.at (add now (2 ^ 64 - 2 * state_ttl)))) [
      | inl k ↦ rw k (sweep-In e now store m h)
      | inr k ↦ rw k (inr (sweep-In e now store m h))
    ]

try_consume-Seen :
    (nonce other : Text) (t now stamp : Time) (store : NonceStore)
    → now ≤ t + 2 * state_ttl
    → Seen nonce t store
    → Seen nonce t (try_consume other now stamp store).1
unfolding try_consume
try_consume-Seen nonce other t now stamp store h (e, m, n, k) =
    let kept = sweep-In e now store m (omega arith) in
    elim (Bool-cases (any (λ (d : Consumed). text_eq d.nonce other) (sweep now store))) [
      | inl seen ↦ rw seen (e, kept, n, k)
      | inr fresh ↦ rw fresh (e, inr kept, n, k)
    ]

redeem-Seen :
    (nonce : Text) (t : Time) (w : OauthStateWire) (now swept stamp : Time) (store : NonceStore)
    → swept ≤ t + 2 * state_ttl
    → Seen nonce t store
    → Seen nonce t (redeem w now swept stamp store).1
unfolding redeem
redeem-Seen nonce t w now swept stamp store h s = elim (Bool-cases (ltb (time_unix w.exp) now)) [
  | inl late ↦ rw late s
  | inr early ↦
      let kept = try_consume-Seen nonce w.n t swept stamp store h s in
      elim (Bool-cases (try_consume w.n swept stamp store).0) [
        | inl fresh ↦ rw (early, fresh) kept
        | inr seen ↦ rw (early, seen) kept
      ]
]

redeem_stamps :
    (w : OauthStateWire) (now swept stamp : Time) (store : NonceStore) (st : OauthState)
    → (redeem w now swept stamp store).0 ≡ some st
    → Seen w.n stamp (redeem w now swept stamp store).1
unfolding redeem try_consume
redeem_stamps w now swept stamp store st h = elim (Bool-cases (ltb (time_unix w.exp) now)) [
  | inl late ↦ absurd (ground arith)
  | inr early ↦
      elim (Bool-cases (any (λ (d : Consumed). text_eq d.nonce w.n) (sweep swept store))) [
        | inl seen ↦ absurd (ground arith)
        | inr fresh ↦
            rw (early, fresh) (record { nonce = w.n; at = stamp }, inl refl, refl, omega arith)
      ]
]

redeem_refuses :
    (w : OauthStateWire) (t now swept stamp : Time) (store : NonceStore)
    → swept ≤ t + 2 * state_ttl
    → Seen w.n t store
    → (redeem w now swept stamp store).0 ≡ none
unfolding redeem try_consume
redeem_refuses w t now swept stamp store h (e, m, n, k) =
    let kept = sweep-In e swept store m (omega arith) in
    let seen =
      (any_iff (λ (d : Consumed). text_eq d.nonce w.n) (sweep swept store)).1
        (e, kept, (text_eq_iff e.nonce w.n).1 n) in
    ground (arith, seen)

module _ (codec : Codec) where
  abbrev pub try_verify : Attempt → NonceStore → Option OauthState × NonceStore
  try_verify c store = verify_oauth_state codec c.key c.token c.now c.swept c.stamp store

  -- The store after some calls.
  abbrev pub after_attempts : List Attempt → NonceStore → NonceStore
  after_attempts [] store = store
  after_attempts (c ∷ calls) store = after_attempts calls (try_verify c store).1

  try_verify-Seen :
      (nonce : Text) (t : Time) (c : Attempt) (store : NonceStore)
      → c.swept ≤ t + 2 * state_ttl
      → Seen nonce t store
      → Seen nonce t (try_verify c store).1
  try_verify-Seen nonce t c store h s = elim (Option-cases (read_token codec c.key c.token)) [
    | inl bad ↦
        subst (λ (r : Option OauthState × NonceStore). Seen nonce t r.1)
          (sym (verify_unread codec c.key c.token c.now c.swept c.stamp store bad)) s
    | inr (w, good) ↦
        subst (λ (r : Option OauthState × NonceStore). Seen nonce t r.1)
          (sym (verify_of_read codec c.key c.token w c.now c.swept c.stamp store good))
          (redeem-Seen nonce t w c.now c.swept c.stamp store h s)
  ]

  earlier :
      (s t : Time) (calls : List Attempt)
      → s ≤ t
      → All (λ (c : Attempt). c.swept ≤ s) calls
      → All (λ (c : Attempt). c.swept ≤ t) calls
  earlier s t [] h k = tt
  earlier s t (c ∷ calls) h k = (omega arith, earlier s t calls h k.1)

  attempts-Seen :
      (nonce : Text) (t : Time) (calls : List Attempt) (store : NonceStore)
      → All (λ (c : Attempt). c.swept ≤ t + 2 * state_ttl) calls
      → Seen nonce t store
      → Seen nonce t (after_attempts calls store)
  attempts-Seen nonce t [] store h s = s
  attempts-Seen nonce t (c ∷ calls) store h s =
      attempts-Seen nonce t calls (try_verify c store).1 h.1 (try_verify-Seen nonce t c store h.0 s)

  module _ (key next bytes token : Text) (minted : Time) (ascii : IsAscii next)
      (minting : mint_oauth_state codec key next (some bytes) minted ≡ some token)
      (in_range : InRange (add minted state_ttl)) where
    abbrev wire : OauthStateWire
    wire = minted_wire codec key next bytes minted

    -- A call with the minted token.
    abbrev pub attempt : Time → Time → Time → Attempt
    attempt now swept stamp = record {
      key = key;
      token = token;
      now = now;
      swept = swept;
      stamp = stamp;
    }

    redeems :
        (now swept stamp : Time) (store : NonceStore)
        → try_verify (attempt now swept stamp) store ≡ redeem wire now swept stamp store
    redeems now swept stamp store =
        verify_of_read codec key token wire now swept stamp store
          (read_token-mint_oauth_state codec key next bytes token minted ascii minting)

    stamped :
        (now swept stamp : Time) (store : NonceStore) (st : OauthState)
        → (try_verify (attempt now swept stamp) store).0 ≡ some st
        → Seen wire.n stamp (try_verify (attempt now swept stamp) store).1
    stamped now swept stamp store st h =
        let same = redeems now swept stamp store in
        subst (λ (r : Option OauthState × NonceStore). Seen wire.n stamp r.1) (sym same)
          (redeem_stamps wire now swept stamp store st
            (ap (λ (r : Option OauthState × NonceStore). r.0) (sym same) ∙ h))

    expired :
        (now swept stamp : Time) (store : NonceStore)
        → add minted state_ttl < now
        → (redeem wire now swept stamp store).0 ≡ none
    unfolding redeem
    expired now swept stamp store h = ground (arith, expires codec key minted in_range)

    -- A token that was minted with an ASCII path at an instant whose expiry has a Unix time in
    -- range, and that a verification accepted after the minting, is refused by every later
    -- verification, whatever verifications of whatever tokens come in between, if the clock at
    -- the later one's sweep is at most ten minutes after its check of the expiry and no earlier
    -- than at the sweeps in between.
    pub accepted_once :
        (now swept stamp now' swept' stamp' : Time) (calls : List Attempt) (store : NonceStore)
        (st : OauthState)
        → (try_verify (attempt now swept stamp) store).0 ≡ some st
        → minted ≤ stamp
        → swept' ≤ now' + state_ttl
        → All (λ (c : Attempt). c.swept ≤ swept') calls
        → (try_verify
            (attempt now' swept' stamp')
            (after_attempts calls (try_verify (attempt now swept stamp) store).1)).0
          ≡ none
    unfolding add
    accepted_once now swept stamp now' swept' stamp' calls store st h order quick between =
        let first = (try_verify (attempt now swept stamp) store).1 in
        let left = after_attempts calls first in
        elim (Bool-cases (ltb (add minted state_ttl) now')) [
          | inl late ↦
              ap (λ (r : Option OauthState × NonceStore). r.0) (redeems now' swept' stamp' left)
              ∙ expired now' swept' stamp' left (ground arith)
          | inr early ↦
              let soon : swept' ≤ stamp + 2 * state_ttl = ground arith in
              ap (λ (r : Option OauthState × NonceStore). r.0) (redeems now' swept' stamp' left)
              ∙ redeem_refuses wire stamp now' swept' stamp' left soon (
                  attempts-Seen wire.n stamp calls first
                    (earlier swept' (stamp + 2 * state_ttl) calls soon between)
                    (stamped now swept stamp store st h))
        ]

-- ===== src/Enforce/Tokens.antt =====
-- The account, the subjects and the streams of declared pipes, as tokens that the compiler may use.
use ppz.Base.{
  ℕ, ◌≡◌, refl, sym, ap, subst, ◌∙◌, ◌≢◌, inl, inr, false, List, [], ◌∷◌, ◌++◌, arith, All, length,
  Text, utf8, text_eq, text_eq_iff, Lacks, split, Lacks-of_split, Lacks-remove_byte, Lacks-take,
  remove_byte, Bool-cases, ltb,
}
use ppz.Acl.Model.{Uuid}
use ppz.Acl.Compile.{wire_subject}
use ppz.Acl.Compile.Nats.{star, tail}
use ppz.Acl.Compile.Requests.{IsToken}
use ppz.Acl.Compile.Reads.{IsAccount, IsPipe}
use ppz.Acl.Compile.Wires.{IsPlain, IsWire}
use ppz.Natsubj.Names.{IsHandle, IsHandle-Lacks, is_inner}
use ppz.Natsubj.Uuids.{Uuids}
use ppz.Natsubj.Builders.{
  org_short, presence_pipe, presence_segment, build_subject, build_stream_name,
}
use ppz.Natsubj.Paths.{
  IsAddress, path_tokens, manifold_parts, source_part, path-IsHandle, account-Lacks,
  subject_tokens_presence, subject_tokens_other,
}
use ppz.Natsubj.Streams.{family, split-build_stream_name}
use ppz.Enforce.{Store, ref_of}

of_length : (s t : Text) → length s ≢ length t → text_eq s t ≡ false
of_length s t n = elim (Bool-cases (text_eq s t)) [
  | inl e ↦ absurd (n (ap length ((text_eq_iff s t).0 e)))
  | inr e ↦ e
]

unequal : (s t : Text) → s ≢ t → text_eq s t ≡ false
unequal s t n = elim (Bool-cases (text_eq s t)) [
  | inl e ↦ absurd (n ((text_eq_iff s t).0 e))
  | inr e ↦ e
]

uncons : (ts : List Text) → ts ≢ [] → (x : Text) × (xs : List Text) × (ts ≡ x ∷ xs)
uncons [] n = absurd (n refl)
uncons (x ∷ xs) n = (x, xs, refl)

append_full : (xs ys : List Text) → ys ≢ [] → xs ++ ys ≢ []
append_full [] ys n e = n e
append_full (x ∷ xs) ys n e = cc

tokens_full : (m s p : Text) → text_eq p presence_pipe ≡ false → path_tokens m s p ≢ []
tokens_full m s p other =
    rw other (append_full (manifold_parts m) _ (append_full (source_part s) (p ∷ []) (λ e. cc)))

module _ (uuids : Uuids) (a : Uuid) where
  abbrev account : Text
  account = uuids.uuid_string a

  other_length : (t : Text) → length t ≢ 36 → text_eq account t ≡ false
  other_length t n = of_length account t (λ e. n (sym e ∙ uuids.string_length a))

  pub account-IsAccount : IsAccount account
  unfolding star tail utf8
  account-IsAccount = record {
    token = record {
      whole = (account-Lacks uuids a).0;
      not_star = other_length star (λ e. absurd (omega arith));
      not_tail = other_length tail (λ e. absurd (omega arith));
    };
    not_js = other_length (utf8 "$JS") (λ e. absurd (omega arith));
  }

  pub account_not_inbox : text_eq account (utf8 "_INBOX") ≡ false
  unfolding utf8
  account_not_inbox = other_length (utf8 "_INBOX") (λ e. absurd (omega arith))

  org_short-Lacks_dot : Lacks b'.' (org_short uuids a)
  unfolding org_short
  org_short-Lacks_dot =
      let whole = Lacks-remove_byte b'.' b'-' account (account-Lacks uuids a).0 in
      elim (Bool-cases (ltb 8 (length (remove_byte account b'-')))) [
        | inl e ↦ rw e (Lacks-take b'.' 8 _ whole)
        | inr e ↦ rw e whole
      ]

  family-Lacks : (p : Text) → Lacks b'.' (family p)
  unfolding family utf8
  family-Lacks p = elim (Bool-cases (text_eq p presence_pipe)) [
    | inl e ↦ rw e (omega arith)
    | inr e ↦ rw e (omega arith)
  ]

  handles-Lacks : (ts : List Text) → All IsHandle ts → All (Lacks b'.') ts
  handles-Lacks [] h = tt
  handles-Lacks (t ∷ ts) h = ((IsHandle-Lacks h.0).0, handles-Lacks ts h.1)

  -- A wildcard is no handle.
  letter : (c : ℕ) → is_inner c ≡ false → IsHandle (c ∷ []) → ⊥
  letter c n h = absurd (ground (arith, h.letters.0))

  handle-IsPlain : (t : Text) → IsHandle t → IsPlain t
  unfolding star tail utf8
  handle-IsPlain t h = (
    unequal t star (λ e. letter b'*' refl (subst IsHandle e h)),
    unequal t tail (λ e. letter b'>' refl (subst IsHandle e h)),
  )

  handles-IsPlain : (ts : List Text) → All IsHandle ts → All IsPlain ts
  handles-IsPlain [] h = tt
  handles-IsPlain (t ∷ ts) h = (handle-IsPlain t h.0, handles-IsPlain ts h.1)

  segment-IsPlain : IsPlain presence_segment
  unfolding presence_segment star tail utf8 text_eq
  segment-IsPlain = (refl, refl)

  two_parts : (t x y : Text) (ts : List Text) → split t b'_' ≡ x ∷ y ∷ ts → (t ≢ star) × (t ≢ tail)
  unfolding star tail utf8 split
  two_parts t x y ts e = (
    λ same. cc (sym (ap (λ t. split t b'_') same) ∙ e),
    λ same. cc (sym (ap (λ t. split t b'_') same) ∙ e),
  )

  stream-IsToken : (m s p : Text) → IsAddress m s p → IsToken (build_stream_name uuids a m s p)
  stream-IsToken m s p k =
      let e = split-build_stream_name uuids a m s p k in
      let (ns, nt) = two_parts _ _ _ _ e in
      record {
        whole = Lacks-of_split _ b'_' b'.' (omega arith) (
            subst (All (Lacks b'.')) (sym e)
              (family-Lacks p, (org_short-Lacks_dot, handles-Lacks _ (path-IsHandle m s p k))));
        not_star = unequal _ _ ns;
        not_tail = unequal _ _ nt;
      }

  -- The second token of a subject and those behind it.
  behind_account :
      (m s p : Text)
      → IsAddress m s p
      → (second : Text) × (more : List Text) × (split (build_subject uuids a m s p) b'.'
          ≡ account ∷ second ∷ more)
        × All IsPlain (second ∷ more)
  behind_account m s p k = elim (Bool-cases (text_eq p presence_pipe)) [
    | inl here ↦ (
      presence_segment,
      path_tokens m s p,
      subject_tokens_presence uuids a m s p k here,
      (segment-IsPlain, handles-IsPlain _ (path-IsHandle m s p k)),
    )
    | inr other ↦
        let tokens = subject_tokens_other uuids a m s p k other in
        let plain = handles-IsPlain _ (path-IsHandle m s p k) in
        let (x, xs, e) = uncons (path_tokens m s p) (tokens_full m s p other) in
        (x, xs, tokens ∙ ap (λ ts. account ∷ ts) e, subst (All IsPlain) e plain)
  ]

  subject_full : (m s p : Text) → IsAddress m s p → text_eq (build_subject uuids a m s p) [] ≡ false
  unfolding split
  subject_full m s p k =
      let (second, more, e, _) = behind_account m s p k in
      unequal _ _ (λ z. cc (sym (ap (λ t. split t b'.') z) ∙ e))

  module _ (store : Store) (here : store.account_id ≡ a) (m s p : Text) (k : IsAddress m s p) where
    pub wire_lem : wire_subject (ref_of uuids store m s p) account ≡ build_subject uuids a m s p
    unfolding wire_subject ref_of
    wire_lem = rw (here, subject_full m s p k) refl

    ref-IsToken : IsToken (ref_of uuids store m s p).stream
    unfolding ref_of
    ref-IsToken =
        subst (λ a. IsToken (build_stream_name uuids a m s p)) (sym here) (stream-IsToken m s p k)

    pub ref-IsWire : IsWire account (ref_of uuids store m s p)
    ref-IsWire =
        let (second, more, e, plain) = behind_account m s p k in
        record {
          stream = ref-IsToken;
          second = second;
          more = more;
          wire = ap (λ t. split t b'.') wire_lem ∙ e;
          plain = plain;
        }

    pub ref-IsPipe : IsPipe account (ref_of uuids store m s p)
    ref-IsPipe =
        let w = ref-IsWire in record { stream = w.stream; rest = w.second ∷ w.more; wire = w.wire }

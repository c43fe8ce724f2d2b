-- ===== src/Natsubj/Streams.antt =====
-- The names of JetStream streams, beside the subjects that they store.
use ppz.Base.{
  ◌≡◌, refl, sym, ap, ap₂, ◌∙◌, subst, ◌≢◌, ◌↔◌, ◌⊎◌, inl, inr, not, List, [], ◌∷◌, ◌++◌, arith,
  ltb, Lacks-of_split, if◌then◌else◌, flat_map, length, All, Text, utf8, text_eq, text_eq_iff,
  Lacks, split, join, split_inj, split-join_flat, split_of_Lacks, split-replace_byte,
  Lacks-remove_byte, Lacks-take, replace_byte, remove_byte, Bool-cases,
}
use mathlib.Core.List.{append-nil, append_assoc}
use ppz.Acl.Model.{Uuid}
use ppz.Natsubj.Names.{IsHandle, IsHandle-Lacks}
use ppz.Natsubj.Uuids.{Uuids}
use ppz.Natsubj.Builders.{
  presence_segment, presence_pipe, org_short, build_subject, presence_stream_name,
  build_stream_name,
}
use ppz.Natsubj.Paths.{
  IsAddress, manifold_parts, source_part, path_tokens, source-Lacks, account-Lacks, path-IsHandle,
  handle_ne_segment, subject_tokens_other, subject_tokens_presence,
}

module _ (uuids : Uuids) (a : Uuid) where
  org_short-Lacks : Lacks b'_' (org_short uuids a)
  unfolding org_short
  org_short-Lacks =
      let chars = Lacks-remove_byte b'_' b'-' (uuids.uuid_string a) (account-Lacks uuids a).1 in
      elim (Bool-cases (ltb 8 (length (remove_byte (uuids.uuid_string a) b'-')))) [
        | inl e ↦ rw e (Lacks-take b'_' 8 _ chars)
        | inr e ↦ rw e chars
      ]

-- The optional manifold of a stream's name, with its dots replaced.
abbrev flat_slot : Text → List Text
flat_slot m = if not (text_eq m []) then replace_byte m b'.' b'_' ∷ [] else []

flat-slot :
    (m : Text) → Lacks b'_' m → flat_map (λ q. split q b'_') (flat_slot m) ≡ manifold_parts m
flat-slot m h = elim (Bool-cases (text_eq m [])) [
  | inl e ↦ rw e refl
  | inr e ↦ rw e (append-nil _ ∙ split-replace_byte m b'.' b'_' h)
]

handles-Lacks : (ps : List Text) → All IsHandle ps → All (Lacks b'_') ps
handles-Lacks [] h = tt
handles-Lacks (p ∷ ps) h = ((IsHandle-Lacks h.0).1, handles-Lacks ps h.1)

manifold-Lacks : (m : Text) → (m ≡ []) ⊎ All IsHandle (split m b'.') → Lacks b'_' m
manifold-Lacks m (inl e) = subst (Lacks b'_') (sym e) tt
manifold-Lacks m (inr h) = Lacks-of_split m b'.' b'_' (omega arith) (handles-Lacks (split m b'.') h)

source-slot :
    (s : Text) → Lacks b'_' s → flat_map (λ q. split q b'_') (source_part s) ≡ source_part s
source-slot s h = elim (Bool-cases (text_eq s [])) [
  | inl e ↦ rw e refl
  | inr e ↦ rw e (append-nil _ ∙ split_of_Lacks s b'_' h)
]

flat_map-append :
    (xs ys : List Text)
    → flat_map (λ q. split q b'_') (xs ++ ys)
      ≡ flat_map (λ q. split q b'_') xs ++ flat_map (λ q. split q b'_') ys
flat_map-append [] ys = refl
flat_map-append (x ∷ xs) ys =
    ap (λ t. split x b'_' ++ t) (flat_map-append xs ys) ∙ sym (append_assoc (split x b'_') _ _)

split-name :
    (w short : Text) (opts : List Text)
    → Lacks b'_' w
    → Lacks b'_' short
    → split (join (w ∷ short ∷ opts) (b'_' ∷ [])) b'_'
      ≡ w ∷ short ∷ flat_map (λ q. split q b'_') opts
split-name w short opts hw hs =
    split-join_flat w (short ∷ opts) b'_'
    ∙ ap₂ (λ ps qs. ps ++ (qs ++ flat_map (λ q. split q b'_') opts)) (split_of_Lacks w b'_' hw)
        (split_of_Lacks short b'_' hs)

-- The tokens of a stream's name: its family, the account, and the tokens of the path.
unfoldable pub family : Text → Text
family p = if text_eq p presence_pipe then utf8 "presence" else utf8 "pipe"

words-Lacks : Lacks b'_' (utf8 "presence") × Lacks b'_' (utf8 "pipe")
unfolding utf8
words-Lacks = omega arith

pub split-build_stream_name :
    (uuids : Uuids) (a : Uuid) (m s p : Text)
    → IsAddress m s p
    → split (build_stream_name uuids a m s p) b'_'
      ≡ family p ∷ org_short uuids a ∷ path_tokens m s p
unfolding build_stream_name presence_stream_name family utf8
split-build_stream_name uuids a m s p k =
    let sl = (source-Lacks k.collar).1 in
    let pl = (IsHandle-Lacks k.pipe).1 in
    let ml = manifold-Lacks m k.segments in
    let last =
      λ (t : Text) (l : Lacks b'_' t). append-nil (split t b'_') ∙ split_of_Lacks t b'_' l in
    elim (Bool-cases (text_eq p presence_pipe)) [
      | inl e ↦ rw e (
          split-name (utf8 "presence") _ (flat_slot m ++ s ∷ []) words-Lacks.0
            (org_short-Lacks uuids a)
          ∙ ap (λ ts. utf8 "presence" ∷ org_short uuids a ∷ ts)
              (flat_map-append (flat_slot m) (s ∷ []) ∙ ap₂ ◌++◌ (flat-slot m ml) (last s sl)))
      | inr e ↦ rw e (
          split-name (utf8 "pipe") _ (flat_slot m ++ (source_part s ++ p ∷ [])) words-Lacks.1
            (org_short-Lacks uuids a)
          ∙ ap (λ ts. utf8 "pipe" ∷ org_short uuids a ∷ ts)
              (flat_map-append (flat_slot m) (source_part s ++ p ∷ [])
                ∙ ap₂ ◌++◌ (flat-slot m ml) (
                    flat_map-append (source_part s) (p ∷ [])
                    ∙ ap₂ ◌++◌ (source-slot s sl) (last p pl))))
    ]

family_eq : (p q : Text) → family p ≡ family q → text_eq p presence_pipe ≡ text_eq q presence_pipe
unfolding family utf8
family_eq p q e = ground arith

family_congr :
    (p q : Text) → text_eq p presence_pipe ≡ text_eq q presence_pipe → family p ≡ family q
unfolding family
family_congr p q e = ground arith

first_eq : {x y : Text} {xs ys : List Text} → ◌≡◌ {A = List Text} (x ∷ xs) (y ∷ ys) → x ≡ y
first_eq e = cc

rest_eq : {x y : Text} {xs ys : List Text} → ◌≡◌ {A = List Text} (x ∷ xs) (y ∷ ys) → xs ≡ ys
rest_eq e = cc

-- A path never begins with the reserved segment.
path_ne_segment : (ts us : List Text) → All IsHandle ts → ts ≢ presence_segment ∷ us
path_ne_segment [] us h e = cc
path_ne_segment (t ∷ ts) us h e =
    let n = handle_ne_segment t h.0 in
    absurd (ground (arith, text_eq_iff t presence_segment, first_eq e))

module _ (uuids : Uuids) (a : Uuid) (m s p m' s' p' : Text) (k : IsAddress m s p)
    (k' : IsAddress m' s' p') where
  subject_of_tokens :
      text_eq p presence_pipe ≡ text_eq p' presence_pipe
      → path_tokens m s p ≡ path_tokens m' s' p'
      → build_subject uuids a m s p ≡ build_subject uuids a m' s' p'
  subject_of_tokens f e = elim (Bool-cases (text_eq p presence_pipe)) [
    | inl here ↦ split_inj _ _ b'.' (
        subject_tokens_presence uuids a m s p k here
        ∙ ap (λ ts. uuids.uuid_string a ∷ presence_segment ∷ ts) e
        ∙ sym (subject_tokens_presence uuids a m' s' p' k' (sym f ∙ here)))
    | inr other ↦ split_inj _ _ b'.' (
        subject_tokens_other uuids a m s p k other
        ∙ ap (λ ts. uuids.uuid_string a ∷ ts) e
        ∙ sym (subject_tokens_other uuids a m' s' p' k' (sym f ∙ other)))
  ]

  pub tokens_of_subject :
      build_subject uuids a m s p ≡ build_subject uuids a m' s' p'
      → (text_eq p presence_pipe ≡ text_eq p' presence_pipe)
        × (path_tokens m s p ≡ path_tokens m' s' p')
  tokens_of_subject e =
      let split_eq = ap (λ t. split t b'.') e in
      elim (Bool-cases (text_eq p presence_pipe)) [
        | inl here ↦ elim (Bool-cases (text_eq p' presence_pipe)) [
          | inl here' ↦ (
            here ∙ sym here',
            rest_eq (
                rest_eq (
                  sym (subject_tokens_presence uuids a m s p k here)
                  ∙ split_eq
                  ∙ subject_tokens_presence uuids a m' s' p' k' here')),
          )
          | inr other' ↦ absurd (
              path_ne_segment _ _ (path-IsHandle m' s' p' k') (
                sym (
                  rest_eq (
                    sym (subject_tokens_presence uuids a m s p k here)
                    ∙ split_eq
                    ∙ subject_tokens_other uuids a m' s' p' k' other'))))
        ]
        | inr other ↦ elim (Bool-cases (text_eq p' presence_pipe)) [
          | inl here' ↦ absurd (
              path_ne_segment _ _ (path-IsHandle m s p k) (
                rest_eq (
                  sym (subject_tokens_other uuids a m s p k other)
                  ∙ split_eq
                  ∙ subject_tokens_presence uuids a m' s' p' k' here')))
          | inr other' ↦ (
            other ∙ sym other',
            rest_eq (
                sym (subject_tokens_other uuids a m s p k other)
                ∙ split_eq
                ∙ subject_tokens_other uuids a m' s' p' k' other'),
          )
        ]
      ]

  stream_of_tokens :
      text_eq p presence_pipe ≡ text_eq p' presence_pipe
      → path_tokens m s p ≡ path_tokens m' s' p'
      → build_stream_name uuids a m s p ≡ build_stream_name uuids a m' s' p'
  stream_of_tokens f e = split_inj _ _ b'_' (
      split-build_stream_name uuids a m s p k
      ∙ ap₂ (λ w ts. w ∷ org_short uuids a ∷ ts) (family_congr p p' f) e
      ∙ sym (split-build_stream_name uuids a m' s' p' k'))

  -- For two addresses of an account made of accepted names, `BuildStreamName` gives one stream
  -- exactly when `BuildSubject` gives one subject.
  pub build_stream_name-eq_iff :
      (build_stream_name uuids a m s p ≡ build_stream_name uuids a m' s' p')
      ↔ (build_subject uuids a m s p ≡ build_subject uuids a m' s' p')
  build_stream_name-eq_iff = (
    λ e.
        let tokens =
          sym (split-build_stream_name uuids a m s p k)
          ∙ ap (λ t. split t b'_') e
          ∙ split-build_stream_name uuids a m' s' p' k' in
        subject_of_tokens (family_eq p p' (first_eq tokens)) (rest_eq (rest_eq tokens)),
    λ e. let (f, ts) = tokens_of_subject e in stream_of_tokens f ts,
  )

in_manifold : (x n : Text) → IsHandle x → IsHandle n → n ≢ presence_pipe → IsAddress x [] n
in_manifold x n hx hn p = record {
  segments =
      inr (subst (All IsHandle) (sym (split_of_Lacks x b'.' (IsHandle-Lacks hx).0)) (hx, tt));
  collar = inl refl;
  pipe = hn;
  owned = λ e. absurd (p e);
}

under_handle : (x n : Text) → IsHandle x → IsHandle n → n ≢ presence_pipe → IsAddress [] x n
under_handle x n hx hn p = record {
  segments = inl refl;
  collar = inr hx;
  pipe = hn;
  owned = λ e. absurd (p e);
}

same_path : (x n : Text) → IsHandle x → n ≢ presence_pipe → path_tokens x [] n ≡ path_tokens [] x n
unfolding text_eq
same_path x n hx p =
    ground (arith, split_of_Lacks x b'.' (IsHandle-Lacks hx).0, text_eq_iff n presence_pipe)

-- A pipe in a manifold of one segment and a pipe of the same name under a handle that is spelled
-- like the segment have one subject and one stream, when the segment and the name are accepted
-- names and the name is not the heartbeat.
pub stream_collision :
    (uuids : Uuids) (a : Uuid) (x n : Text)
    → IsHandle x
    → IsHandle n
    → n ≢ presence_pipe
    → (build_stream_name uuids a x [] n ≡ build_stream_name uuids a [] x n)
      × (build_subject uuids a x [] n ≡ build_subject uuids a [] x n)
stream_collision uuids a x n hx hn p =
    let k = in_manifold x n hx hn p in
    let k' = under_handle x n hx hn p in
    let e = same_path x n hx p in
    (
      stream_of_tokens uuids a x [] n [] x n k k' refl e,
      subject_of_tokens uuids a x [] n [] x n k k' refl e,
    )

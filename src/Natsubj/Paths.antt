-- ===== src/Natsubj/Paths.antt =====
-- The tokens of the subjects and streams that the builders make, and what can be read back.
use ppz.Base.{
  ℕ, ◌≡◌, refl, sym, ap, ◌∙◌, subst, ◌≢◌, ◌⊎◌, inl, inr, true, false, not, none, some, List, [],
  ◌∷◌, ◌++◌, arith, if◌then◌else◌, length-append, last_or-append, All, All-append, Text, text_eq,
  text_eq_iff, text_eq_refl, Lacks, split, split-append, split_behind, split_of_Lacks, Bool-cases,
}
use ppz.Acl.Model.{Uuid}
use ppz.Natsubj.Names.{IsHandle, IsHandle-Lacks}
use ppz.Natsubj.Uuids.{Uuids, is_uuid_char}
use ppz.Natsubj.Builders.{
  presence_segment, presence_pipe, presence_subject, build_subject, parse_presence_parts,
  parse_presence_subject,
}

-- The address of a pipe: a manifold of any number of segments, at most one handle, and a name. Presence
-- belongs to a handle.
pub record IsAddress (manifold source name : Text) : Type 0 where
  pub segments : (manifold ≡ []) ⊎ All IsHandle (split manifold b'.')
  pub collar : (source ≡ []) ⊎ IsHandle source
  pub pipe : IsHandle name
  pub owned : name ≡ presence_pipe → source ≢ []

abbrev pub manifold_parts : Text → List Text
manifold_parts m = if not (text_eq m []) then split m b'.' else []

abbrev pub source_part : Text → List Text
source_part s = if not (text_eq s []) then s ∷ [] else []

-- The tokens behind the account, or behind the presence segment.
abbrev pub path_tokens : Text → Text → Text → List Text
path_tokens m s p =
    if text_eq p presence_pipe
    then manifold_parts m ++ s ∷ []
    else manifold_parts m ++ (source_part s ++ p ∷ [])

uuid_char_ne : (c : ℕ) → is_uuid_char c ≡ true → (c ≢ b'.') × (c ≢ b'_')
uuid_char_ne c h = ground arith

chars-Lacks : (s : Text) → All (λ c. is_uuid_char c ≡ true) s → Lacks b'.' s × Lacks b'_' s
chars-Lacks [] h = (tt, tt)
chars-Lacks (c ∷ s) h =
    let (dot, under) = uuid_char_ne c h.0 in
    let (ds, us) = chars-Lacks s h.1 in ((dot, ds), (under, us))

-- A separator and a text, unless the text is empty.
abbrev slot : Text → Text
slot m = if not (text_eq m []) then b'.' ∷ m else []

split-slot :
    (m t : Text) (ps : List Text)
    → split t b'.' ≡ [] ∷ ps
    → split (slot m ++ t) b'.' ≡ [] ∷ (manifold_parts m ++ ps)
split-slot m t ps e = elim (Bool-cases (text_eq m [])) [
  | inl empty ↦ rw empty e
  | inr full ↦
      rw full (split-append [] (m ++ t) b'.' tt ∙ ap (λ qs. [] ∷ qs) (split_behind m t b'.' ps e))
]

manifold_parts-source : (s : Text) → Lacks b'.' s → manifold_parts s ≡ source_part s
manifold_parts-source s h = ground (arith, split_of_Lacks s b'.' h)

-- A last part behind its separator.
split_last : (p : Text) → Lacks b'.' p → split (b'.' ∷ p) b'.' ≡ [] ∷ p ∷ []
split_last p h = split-append [] p b'.' tt ∙ ap (λ qs. [] ∷ qs) (split_of_Lacks p b'.' h)

pub source-Lacks : {s : Text} → (s ≡ []) ⊎ IsHandle s → Lacks b'.' s × Lacks b'_' s
source-Lacks (inl e) = subst (λ s. Lacks b'.' s × Lacks b'_' s) (sym e) (tt, tt)
source-Lacks (inr h) = IsHandle-Lacks h

segment-Lacks : Lacks b'.' presence_segment
unfolding presence_segment
segment-Lacks = omega arith

module _ (uuids : Uuids) (a : Uuid) where
  abbrev pub account : Text
  account = uuids.uuid_string a

  pub account-Lacks : Lacks b'.' account × Lacks b'_' account
  account-Lacks = chars-Lacks account (uuids.string_chars a)

  behind_account :
      (t : Text) (ps : List Text)
      → split t b'.' ≡ [] ∷ ps
      → split (account ++ t) b'.' ≡ account ∷ ps
  behind_account t ps e =
      split_behind account t b'.' ps e
      ∙ ap (λ qs. qs ++ ps) (split_of_Lacks account b'.' account-Lacks.0)

  split-presence_subject :
      (m h : Text)
      → Lacks b'.' h
      → split (presence_subject uuids a m h) b'.'
        ≡ account ∷ presence_segment ∷ (manifold_parts m ++ h ∷ [])
  unfolding presence_subject
  split-presence_subject m h l = behind_account _ _ (
      split-append [] _ b'.' tt
      ∙ ap (λ qs. [] ∷ qs)
          (split_behind presence_segment _ b'.' _ (split-slot m _ _ (split_last h l))
            ∙ ap (λ qs. qs ++ (manifold_parts m ++ h ∷ []))
                (split_of_Lacks presence_segment b'.' segment-Lacks)))

  -- The tokens of a subject.
  split-build_subject :
      (m s p : Text)
      → Lacks b'.' s
      → Lacks b'.' p
      → split (build_subject uuids a m s p) b'.'
        ≡ account
          ∷ (if text_eq p presence_pipe
              then presence_segment ∷ path_tokens m s p
              else path_tokens m s p)
  unfolding build_subject
  split-build_subject m s p hs hp = elim (Bool-cases (text_eq p presence_pipe)) [
    | inl e ↦ rw e (split-presence_subject m s hs)
    | inr e ↦ rw e (
        behind_account _ _ (
          split-slot m _ _ (
            split-slot s _ _ (split_last p hp)
            ∙ ap (λ qs. [] ∷ (qs ++ p ∷ [])) (manifold_parts-source s hs))))
  ]

  -- For any manifold and a nonempty handle without a dot, `ParsePresenceSubject` gives back the
  -- handle that `PresenceSubject` was built for.
  pub parse_presence-presence_subject :
      (m h : Text)
      → Lacks b'.' h
      → h ≢ []
      → parse_presence_subject uuids (presence_subject uuids a m h) ≡ some h
  unfolding parse_presence_subject
  parse_presence-presence_subject m h l n = rw (split-presence_subject m h l) (
      ground (
        arith,
        length-append (manifold_parts m) (h ∷ []),
        last_or-append (manifold_parts m) h [],
        text_eq_refl presence_segment,
        text_eq_iff h [],
        (uuids.string_parses a).1,
      ))

of_nonempty : {P : Type 0} (m : Text) → text_eq m [] ≡ false → (m ≡ []) ⊎ P → P
of_nonempty m n (inl e) = absurd (ground (arith, (text_eq_iff m []).1 e))
of_nonempty m n (inr h) = h

manifold-IsHandle :
    (m : Text) → (m ≡ []) ⊎ All IsHandle (split m b'.') → All IsHandle (manifold_parts m)
manifold-IsHandle m h = elim (Bool-cases (text_eq m [])) [
  | inl e ↦ rw e tt
  | inr n ↦ rw n (of_nonempty m n h)
]

source-IsHandle : (s : Text) → (s ≡ []) ⊎ IsHandle s → All IsHandle (source_part s)
source-IsHandle s h = elim (Bool-cases (text_eq s [])) [
  | inl e ↦ rw e tt
  | inr n ↦ rw n (of_nonempty s n h, tt)
]

owner-IsHandle : {m s p : Text} → IsAddress m s p → p ≡ presence_pipe → IsHandle s
owner-IsHandle {s} k e = of_nonempty s (ground (arith, text_eq_iff s [], k.owned e)) k.collar

-- Behind the account every token is a handle.
pub path-IsHandle : (m s p : Text) → IsAddress m s p → All IsHandle (path_tokens m s p)
path-IsHandle m s p k =
    let ms = manifold-IsHandle m k.segments in
    elim (Bool-cases (text_eq p presence_pipe)) [
      | inl e ↦ rw e (
          All-append IsHandle (manifold_parts m) (s ∷ []) ms
            (owner-IsHandle k ((text_eq_iff _ _).0 e), tt))
      | inr e ↦ rw e (
          All-append IsHandle (manifold_parts m) _ ms (
            All-append IsHandle (source_part s) (p ∷ []) (source-IsHandle s k.collar) (k.pipe, tt)))
    ]

segment_under : Lacks b'_' presence_segment → ⊥
unfolding presence_segment
segment_under l = l.0 refl

-- No handle is the reserved segment.
pub handle_ne_segment : (h : Text) → IsHandle h → text_eq h presence_segment ≡ false
handle_ne_segment h k = elim (Bool-cases (text_eq h presence_segment)) [
  | inl e ↦ absurd (segment_under (subst (Lacks b'_') ((text_eq_iff _ _).0 e) (IsHandle-Lacks k).1))
  | inr n ↦ n
]

parse_other :
    (uuids : Uuids) (a : Text) (ts : List Text)
    → All IsHandle ts
    → parse_presence_parts uuids (a ∷ ts) ≡ none
unfolding parse_presence_parts
parse_other uuids a [] h = refl
parse_other uuids a (b ∷ more) h = ground (arith, handle_ne_segment b h.0)

pub subject_tokens_other :
    (uuids : Uuids) (a : Uuid) (m s p : Text)
    → IsAddress m s p
    → text_eq p presence_pipe ≡ false
    → split (build_subject uuids a m s p) b'.' ≡ uuids.uuid_string a ∷ path_tokens m s p
subject_tokens_other uuids a m s p k e =
    split-build_subject uuids a m s p (source-Lacks k.collar).0 (IsHandle-Lacks k.pipe).0
    ∙ rw e refl

pub subject_tokens_presence :
    (uuids : Uuids) (a : Uuid) (m s p : Text)
    → IsAddress m s p
    → text_eq p presence_pipe ≡ true
    → split (build_subject uuids a m s p) b'.'
      ≡ uuids.uuid_string a ∷ presence_segment ∷ path_tokens m s p
subject_tokens_presence uuids a m s p k e =
    split-build_subject uuids a m s p (source-Lacks k.collar).0 (IsHandle-Lacks k.pipe).0
    ∙ rw e refl

parse_presence-other :
    (uuids : Uuids) (a : Uuid) (m s p : Text)
    → IsAddress m s p
    → text_eq p presence_pipe ≡ false
    → parse_presence_subject uuids (build_subject uuids a m s p) ≡ none
unfolding parse_presence_subject
parse_presence-other uuids a m s p k e =
    ap (parse_presence_parts uuids) (subject_tokens_other uuids a m s p k e)
    ∙ parse_other uuids (uuids.uuid_string a) (path_tokens m s p) (path-IsHandle m s p k)

-- For an address made of accepted names, `ParsePresenceSubject` reads the subject of
-- `BuildSubject` as presence exactly when the pipe is the heartbeat, and then gives the bare
-- handle.
pub parse_presence-build_subject :
    (uuids : Uuids) (a : Uuid) (m s p : Text)
    → IsAddress m s p
    → parse_presence_subject uuids (build_subject uuids a m s p)
      ≡ (if text_eq p presence_pipe then some s else none)
parse_presence-build_subject uuids a m s p k = elim (Bool-cases (text_eq p presence_pipe)) [
  | inl e ↦ rw e (
      unfold build_subject in
      rw e (
        parse_presence-presence_subject uuids a m s (source-Lacks k.collar).0
          (k.owned ((text_eq_iff _ _).0 e))))
  | inr e ↦ rw e (parse_presence-other uuids a m s p k e)
]

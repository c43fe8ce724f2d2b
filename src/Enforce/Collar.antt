-- ===== src/Enforce/Collar.antt =====
-- Who owns the pipe that a path names.
use mathlib.Core.List.{append-nil, append_assoc}
use ppz.Base.{
  All, text_eq, text_eq_iff, true, false, refl, ℕ, ap, inl, inr, Bool-cases, nat_eq, ◌≡◌, sym, ◌∙◌,
  ◌≢◌, subst, none, some, List, [], ◌∷◌, ◌++◌, arith, Text, text_eq_refl, split,
}
use ppz.Acl.Perm.{Perm}
use ppz.Acl.Model.{uuid_nil, org_none, Principal, Grant}
use ppz.Acl.Evaluate.Allows.{Allows, by_handle}
use ppz.Acl.Compile.{PipeRef}
use ppz.Enforce.{Source, find_source, resolve_subject, subject_for, split_path, split_path_from}

-- No row has the handle.
abbrev pub NoneNamed : Text → List Source → Type 0
NoneNamed handle sources = All (λ (s : Source). s.handle ≢ handle) sources

find_source-absent :
    (handle : Text) (sources : List Source)
    → NoneNamed handle sources
    → find_source sources handle ≡ none
unfolding find_source
find_source-absent handle [] h = refl
find_source-absent handle (s ∷ sources) h =
    ground (arith, h.0, find_source-absent handle sources h.1, text_eq_iff s.handle handle)

find_source-last :
    (before : List Source) (src : Source) (later : List Source)
    → NoneNamed src.handle later
    → find_source (before ++ src ∷ later) src.handle ≡ some src
unfolding find_source
find_source-last [] src later h =
    ground (arith, text_eq_refl src.handle, find_source-absent src.handle later h)
find_source-last (s ∷ before) src later h = ground (arith, find_source-last before src later h)

module _ (r : PipeRef) (first second : Text) (more : List Text)
    (parts : split r.path b'.' ≡ first ∷ second ∷ more) where
  owner_of_some :
      (sources : List Source) (src : Source)
      → find_source sources first ≡ some src
      → ((subject_for r sources).collar ≡ src.handle)
        × ((subject_for r sources).owner ≡ src.created_by_user_id)
  unfolding subject_for
  owner_of_some sources src h = ground (arith, parts, h)

  -- For a path of at least two segments, the first of them not empty, the last row with that
  -- segment as its handle gives the owner, wherever it stands in the list and in whatever
  -- manifold it is: its creator, when that is a real user with a role, is allowed everything on
  -- the path.
  pub last_row-Allows :
      (p : Principal) (gs : List Grant) (before later : List Source) (src : Source) (c : Perm)
      → NoneNamed src.handle later
      → src.handle ≡ first
      → first ≢ []
      → src.created_by_user_id ≡ p.id
      → p.id ≢ uuid_nil
      → p.org_role ≢ org_none
      → Allows p (subject_for r (before ++ src ∷ later)) gs c
  last_row-Allows p gs before later src c last named full made real member =
      let sources = before ++ src ∷ later in
      let found =
        subst (λ h. find_source sources h ≡ some src) named
          (find_source-last before src later last) in
      let (collar, owner) = owner_of_some sources src found in
      by_handle member
        (λ e. full (sym named ∙ sym collar ∙ e), λ e. real (sym made ∙ sym owner ∙ e), owner ∙ made)

module _ (c : ℕ) (p part : Text) where
  at_dot : nat_eq c b'.' ≡ true → split_path_from part (c ∷ p) ≡ part ∷ split_path_from [] p
  unfolding split_path_from
  at_dot h = ground (arith, h)

  inside : nat_eq c b'.' ≡ false → split_path_from part (c ∷ p) ≡ split_path_from (part ++ c ∷ []) p
  unfolding split_path_from
  inside h = ground (arith, h)

split_path_from_lem :
    (p part : Text)
    → (q : Text) × (qs : List Text) × (split p b'.' ≡ q ∷ qs)
      × (split_path_from part p ≡ (part ++ q) ∷ qs)
unfolding split_path_from split
split_path_from_lem [] part = ([], [], refl, rw append-nil refl)
split_path_from_lem (c ∷ p) part = elim (Bool-cases (nat_eq c b'.')) [
  | inl dot ↦
      let (q, qs, e, f) = split_path_from_lem p [] in
      (
        [],
        q ∷ qs,
        rw dot (ap (λ ts. [] ∷ ts) e),
        at_dot c p part dot ∙ ap (λ ts. part ∷ ts) f ∙ ap (λ w. w ∷ q ∷ qs) (sym (append-nil part)),
      )
  | inr other ↦
      let (q, qs, e, f) = split_path_from_lem p (part ++ c ∷ []) in
      (
        c ∷ q,
        qs,
        rw (other, e) refl,
        inside c p part other ∙ f ∙ ap (λ w. w ∷ qs) (append_assoc part (c ∷ []) q),
      )
]

-- The parts of a path, as the server splits it, are those that `strings.Split` gives.
split_path_lem : (p : Text) → split_path p ≡ split p b'.'
unfolding split_path
split_path_lem p = let (q, qs, e, f) = split_path_from_lem p [] in f ∙ sym e

-- The handlers and the credentials evaluate one subject, where the handlers' lookup gives the row that
-- the credentials use.
resolve_subject_lem :
    (r : PipeRef) (sources : List Source)
    → r.path ≢ []
    → resolve_subject (find_source sources) r.path ≡ some (subject_for r sources)
unfolding resolve_subject subject_for
resolve_subject_lem r sources n =
    let full : text_eq r.path [] ≡ false = ground (arith, text_eq_iff r.path []) in
    ground (arith, full)

-- ===== src/Acl/Compile/Walks.antt =====
-- The four lists of a compiled credential, as functions of the access that it was given.
use mathlib.Core.List.{append_assoc, append-nil}
use ppz.Base.{
  ◌+◌, ◌≡◌, refl, sym, ◌∙◌, Bool, not, List, [], ◌∷◌, ◌++◌, map, arith, if◌then◌else◌, ltb, length,
  filter, Text,
}
use ppz.Acl.Perm.{read, write, has_bit, effective}
use ppz.Acl.Compile.{
  PipeRef, wire_subject, Access, js_read_patterns, always_allowed, always_denied, broad_read, Walk,
  initial, visit, visit_all, reads_of, compile,
}

abbrev pub reads : Access → Bool
reads a = has_bit (effective a.perm) read

abbrev pub writes : Access → Bool
writes a = has_bit (effective a.perm) write

abbrev pub pipes : (Access → Bool) → List Access → List PipeRef
pipes f access = map (λ a. a.pipe) (filter f access)

abbrev pub wires : Text → (Access → Bool) → List Access → List Text
wires account_id f access = map (λ r. wire_subject r account_id) (pipes f access)

module _ (account_id : Text) where
  visit_all-pub_allow :
      (access : List Access) (w : Walk)
      → (visit_all account_id access w).perms.pub_allow
        ≡ w.perms.pub_allow ++ wires account_id writes access
  unfolding visit_all
  visit_all-pub_allow [] w = sym (append-nil _)
  visit_all-pub_allow (a ∷ access) w =
      visit_all-pub_allow access (visit account_id a w)
      ∙ ground (
        arith,
        append_assoc w.perms.pub_allow (wire_subject a.pipe account_id ∷ [])
            (wires account_id writes access),
      )

  visit_all-sub_allow :
      (access : List Access) (w : Walk)
      → (visit_all account_id access w).perms.sub_allow
        ≡ w.perms.sub_allow ++ wires account_id reads access
  unfolding visit_all
  visit_all-sub_allow [] w = sym (append-nil _)
  visit_all-sub_allow (a ∷ access) w =
      visit_all-sub_allow access (visit account_id a w)
      ∙ ground (
        arith,
        append_assoc w.perms.sub_allow (wire_subject a.pipe account_id ∷ [])
            (wires account_id reads access),
      )

  visit_all-denies :
      (access : List Access) (w : Walk)
      → ((visit_all account_id access w).perms.pub_deny ≡ w.perms.pub_deny)
        × ((visit_all account_id access w).perms.sub_deny ≡ w.perms.sub_deny)
  unfolding visit_all
  visit_all-denies [] w = (refl, refl)
  visit_all-denies (a ∷ access) w =
      let (p, s) = visit_all-denies access (visit account_id a w) in
      (p ∙ ground arith, s ∙ ground arith)

  visit_all-readable :
      (access : List Access) (w : Walk)
      → (visit_all account_id access w).readable ≡ w.readable ++ pipes reads access
  unfolding visit_all
  visit_all-readable [] w = sym (append-nil _)
  visit_all-readable (a ∷ access) w =
      visit_all-readable access (visit account_id a w)
      ∙ ground (arith, append_assoc w.readable (a.pipe ∷ []) (pipes reads access))

  visit_all-excluded :
      (access : List Access) (w : Walk)
      → (visit_all account_id access w).excluded ≡ w.excluded ++ pipes (λ a. not (reads a)) access
  unfolding visit_all
  visit_all-excluded [] w = sym (append-nil _)
  visit_all-excluded (a ∷ access) w =
      visit_all-excluded access (visit account_id a w)
      ∙ ground (arith, append_assoc w.excluded (a.pipe ∷ []) (pipes (λ a. not (reads a)) access))

  abbrev first_walk : Walk
  first_walk = record { perms = initial account_id; readable = []; excluded = [] }

  end_walk : List Access → Walk
  end_walk access = visit_all account_id access first_walk

  -- Whether the broad allows and the denials are fewer than one unit a readable stream.
  abbrev pub is_broad : List Access → Bool
  is_broad access =
      ltb (1 + length (pipes (λ a. not (reads a)) access)) (length (pipes reads access))

  compile-test :
      (access : List Access)
      → ltb (1 + length (end_walk access).excluded) (length (end_walk access).readable)
        ≡ is_broad access
  unfolding end_walk
  compile-test access =
      ground (arith, visit_all-readable access first_walk, visit_all-excluded access first_walk)

  pub compile-pub_allow :
      (access : List Access)
      → (compile account_id access).pub_allow
        ≡ (always_allowed ++ wires account_id writes access)
          ++ (if is_broad access
              then map broad_read js_read_patterns
              else reads_of (pipes reads access))
  unfolding compile end_walk
  compile-pub_allow access = ground (
    arith,
    compile-test access,
    visit_all-pub_allow access first_walk,
    visit_all-readable access first_walk,
  )

  pub compile-pub_deny :
      (access : List Access)
      → (compile account_id access).pub_deny
        ≡ always_denied
          ++ (if is_broad access then reads_of (pipes (λ a. not (reads a)) access) else [])
  unfolding compile end_walk
  compile-pub_deny access = ground (
    arith,
    compile-test access,
    append-nil always_denied,
    (visit_all-denies access first_walk).0,
    visit_all-excluded access first_walk,
  )

  pub compile-sub_allow :
      (access : List Access)
      → (compile account_id access).sub_allow
        ≡ (initial account_id).sub_allow ++ wires account_id reads access
  unfolding compile end_walk
  compile-sub_allow access = ground (arith, visit_all-sub_allow access first_walk)

  pub compile-sub_deny : (access : List Access) → (compile account_id access).sub_deny ≡ []
  unfolding compile end_walk
  compile-sub_deny access = ground (arith, (visit_all-denies access first_walk).1)

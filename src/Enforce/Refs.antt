-- ===== src/Enforce/Refs.antt =====
-- What `aclPipeRefs` lists: every declared pipe, once.
use ppz.Base.{
  ◌≡◌, refl, sym, ap, subst, ◌∙◌, ◌≢◌, ◌↔◌, ◌⊎◌, inl, inr, Bool, true, false, ◌||◌, List, [], ◌∷◌,
  ◌++◌, map, arith, any, any-append, any_iff, In, In-append, All, All-append, All_at, flat_map,
  Text, text_eq, text_eq_iff, text_eq_refl, Bool-cases,
}
use ppz.Acl.Compile.{PipeRef}
use ppz.Natsubj.Uuids.{Uuids}
use ppz.Enforce.{
  Source, auto_pipes, Store, pipe_path, ref_of, add_ref, add_names, add_sources, add_uncollared,
  acl_pipe_refs,
}

-- A manifold, a handle and a name.
pub record Address : Type 0 where
  pub manifold : Text
  pub handle : Text
  pub name : Text

abbrev pub at_source : Source → Text → Address
at_source src name = record { manifold = src.manifold; handle = src.handle; name = name }

abbrev pub of_source : Source → List Address
of_source src = map (at_source src) (auto_pipes src ++ src.rows)

abbrev pub of_uncollared : Text × Text → Address
of_uncollared row = record { manifold = row.0; handle = []; name = row.1 }

-- Every pipe that the rows of the account declare.
abbrev pub addresses : Store → List Address
addresses store = flat_map of_source store.sources ++ map of_uncollared store.uncollared

abbrev pub path_of : Address → Text
path_of a = pipe_path a.manifold a.handle a.name

map-append {ℓ κ} :
    {A : Type ℓ} {B : Type κ} (f : A → B) (xs ys : List A) → map f (xs ++ ys) ≡ map f xs ++ map f ys
map-append f [] ys = refl
map-append f (x ∷ xs) ys = ap (λ zs. f x ∷ zs) (map-append f xs ys)

module _ (uuids : Uuids) (store : Store) where
  abbrev pub made : Address → PipeRef
  made a = ref_of uuids store a.manifold a.handle a.name

  add_all : List Address → List PipeRef → List PipeRef
  add_all [] out = out
  add_all (a ∷ more) out = add_all more (add_ref uuids store out a.manifold a.handle a.name)

  add_all-append :
      (xs ys : List Address) (out : List PipeRef)
      → add_all (xs ++ ys) out ≡ add_all ys (add_all xs out)
  unfolding add_all
  add_all-append [] ys out = refl
  add_all-append (x ∷ xs) ys out = add_all-append xs ys _

  add_names_lem :
      (src : Source) (names : List Text) (out : List PipeRef)
      → add_names uuids store out src.manifold src.handle names
        ≡ add_all (map (at_source src) names) out
  unfolding add_all add_names
  add_names_lem src [] out = refl
  add_names_lem src (n ∷ names) out = add_names_lem src names _

  add_source_lem :
      (src : Source) (out : List PipeRef)
      → add_names uuids store
          (add_names uuids store out src.manifold src.handle (auto_pipes src))
          src.manifold
          src.handle
          src.rows
        ≡ add_all (of_source src) out
  add_source_lem src out =
      add_names_lem src src.rows _
      ∙ ap (add_all (map (at_source src) src.rows)) (add_names_lem src (auto_pipes src) out)
      ∙ sym (add_all-append (map (at_source src) (auto_pipes src)) _ out)
      ∙ ap (λ l. add_all l out) (sym (map-append (at_source src) (auto_pipes src) src.rows))

  add_sources_lem :
      (srcs : List Source) (out : List PipeRef)
      → add_sources uuids store out srcs ≡ add_all (flat_map of_source srcs) out
  unfolding add_sources add_all
  add_sources_lem [] out = refl
  add_sources_lem (src ∷ srcs) out =
      add_sources_lem srcs _
      ∙ ap (add_all (flat_map of_source srcs)) (add_source_lem src out)
      ∙ sym (add_all-append (of_source src) (flat_map of_source srcs) out)

  add_uncollared_lem :
      (rows : List (Text × Text)) (out : List PipeRef)
      → add_uncollared uuids store out rows ≡ add_all (map of_uncollared rows) out
  unfolding add_uncollared add_all
  add_uncollared_lem [] out = refl
  add_uncollared_lem ((m, n) ∷ rows) out = add_uncollared_lem rows _

  acl_pipe_refs_lem : acl_pipe_refs uuids store ≡ add_all (addresses store) []
  unfolding acl_pipe_refs
  acl_pipe_refs_lem =
      add_uncollared_lem store.uncollared _
      ∙ ap (add_all (map of_uncollared store.uncollared)) (add_sources_lem store.sources [])
      ∙ sym (add_all-append (flat_map of_source store.sources) _ [])

  abbrev seen : List PipeRef → Address → Bool
  seen out a = any (λ r. text_eq r.path (path_of a)) out

  -- A pipe is passed over, having no path or one that is seen, or it is added at the end.
  add_ref-cases :
      (out : List PipeRef) (a : Address)
      → ((add_ref uuids store out a.manifold a.handle a.name ≡ out)
          × (text_eq (path_of a) [] || seen out a ≡ true))
        ⊎ ((add_ref uuids store out a.manifold a.handle a.name ≡ out ++ made a ∷ [])
            × (seen out a ≡ false))
  unfolding add_ref ref_of
  add_ref-cases out a = elim (Bool-cases (text_eq (path_of a) [] || seen out a)) [
    | inl old ↦ inl (rw old refl, old)
    | inr new ↦ inr (rw new refl, ground arith)
  ]

  add_all-All :
      (P : PipeRef → Type 0) (list : List Address) (out : List PipeRef)
      → All (λ a. P (made a)) list
      → All P out
      → All P (add_all list out)
  unfolding add_all
  add_all-All P [] out h k = k
  add_all-All P (a ∷ more) out h k = add_all-All P more _ h.1 (elim (add_ref-cases out a) [
    | inl (e, _) ↦ subst (All P) (sym e) k
    | inr (e, _) ↦ subst (All P) (sym e) (All-append P out (made a ∷ []) k (h.0, tt))
  ])

  seen-apart :
      (out : List PipeRef) (a : Address) (r : PipeRef)
      → seen out a ≡ false
      → In r out
      → r.path ≢ path_of a
  seen-apart out a r h m e =
      let found = (any_iff (λ r. text_eq r.path (path_of a)) out).1 (r, m, (text_eq_iff _ _).1 e) in
      absurd (ground arith)

  -- Entries with one path are one entry.
  abbrev pub Unique : List PipeRef → Type 0
  Unique out = (r s : PipeRef) → In r out → In s out → r.path ≡ s.path → r ≡ s

  snoc-Unique :
      (out : List PipeRef) (a : Address)
      → seen out a ≡ false
      → Unique out
      → Unique (out ++ made a ∷ [])
  unfolding ref_of
  snoc-Unique out a h k r s i j e = elim (In-append r out _ i) [
    | inl r_old ↦ elim (In-append s out _ j) [
      | inl s_old ↦ k r s r_old s_old e
      | inr s_new ↦ elim s_new [
        | inl same ↦ absurd (seen-apart out a r h r_old (e ∙ ap (λ r. r.path) (sym same)))
        | inr none ↦ absurd none
      ]
    ]
    | inr r_new ↦ elim r_new [
      | inr none ↦ absurd none
      | inl r_same ↦ elim (In-append s out _ j) [
        | inl s_old ↦ absurd (seen-apart out a s h s_old (sym e ∙ ap (λ r. r.path) (sym r_same)))
        | inr s_new ↦ elim s_new [ inl s_same ↦ sym r_same ∙ s_same | inr none ↦ absurd none ]
      ]
    ]
  ]

  add_all-Unique :
      (list : List Address) (out : List PipeRef) → Unique out → Unique (add_all list out)
  unfolding add_all
  add_all-Unique [] out k = k
  add_all-Unique (a ∷ more) out k = add_all-Unique more _ (elim (add_ref-cases out a) [
    | inl (e, _) ↦ subst Unique (sym e) k
    | inr (e, new) ↦ subst Unique (sym e) (snoc-Unique out a new k)
  ])

  sees_self :
      (out : List PipeRef) (a : Address)
      → path_of a ≢ []
      → seen (add_ref uuids store out a.manifold a.handle a.name) a ≡ true
  unfolding ref_of
  sees_self out a n = elim (add_ref-cases out a) [
    | inl (same, old) ↦ rw same (ground (arith, text_eq_iff (path_of a) []))
    | inr (same, _) ↦
        rw same (any-append _ out (made a ∷ []) ∙ ground (arith, text_eq_refl (path_of a)))
  ]

  sees_added :
      (out : List PipeRef) (b a : Address)
      → path_of a ≢ []
      → (b ≡ a) ⊎ (seen out a ≡ true)
      → seen (add_ref uuids store out b.manifold b.handle b.name) a ≡ true
  sees_added out b a n (inr e) = elim (add_ref-cases out b) [
    | inl (same, _) ↦ rw same e
    | inr (same, _) ↦ rw same (any-append _ out (made b ∷ []) ∙ rw e refl)
  ]
  sees_added out b a n (inl e) =
      subst (λ b. seen (add_ref uuids store out b.manifold b.handle b.name) a ≡ true) (sym e)
        (sees_self out a n)

  add_all-sees :
      (list : List Address) (out : List PipeRef) (a : Address)
      → path_of a ≢ []
      → In a list ⊎ (seen out a ≡ true)
      → seen (add_all list out) a ≡ true
  unfolding add_all
  add_all-sees [] out a n (inl m) = absurd m
  add_all-sees [] out a n (inr e) = e
  add_all-sees (b ∷ more) out a n (inl (inl e)) =
      add_all-sees more _ a n (inr (sees_added out b a n (inl e)))
  add_all-sees (b ∷ more) out a n (inl (inr m)) = add_all-sees more _ a n (inl m)
  add_all-sees (b ∷ more) out a n (inr e) =
      add_all-sees more _ a n (inr (sees_added out b a n (inr e)))

  self-All : (list : List Address) → All (λ a. In a list) list
  self-All [] = tt
  self-All (a ∷ more) = (inl refl, widen more (self-All more))
    where
      widen :
          (some_of : List Address)
          → All (λ b. In b more) some_of
          → All (λ b. In b (a ∷ more)) some_of
      widen [] h = tt
      widen (b ∷ rest) h = (inr h.0, widen rest h.1)

  abbrev FromRows : PipeRef → Type 0
  FromRows r = (a : Address) × In a (addresses store) × (r ≡ made a)

  All-FromRows :
      (list : List Address)
      → All (λ a. In a (addresses store)) list
      → All (λ a. FromRows (made a)) list
  All-FromRows [] h = tt
  All-FromRows (a ∷ more) h = ((a, h.0, refl), All-FromRows more h.1)

  acl_pipe_refs-FromRows : All FromRows (acl_pipe_refs uuids store)
  acl_pipe_refs-FromRows = subst (All FromRows) (sym acl_pipe_refs_lem) (
      add_all-All FromRows (addresses store) []
        (All-FromRows (addresses store) (self-All (addresses store))) tt)

  -- A listed pipe is the one that the builders make of a declared address.
  pub listed_from_rows :
      (r : PipeRef)
      → In r (acl_pipe_refs uuids store)
      → (a : Address) × In a (addresses store) × (r ≡ made a)
  listed_from_rows r m = All_at FromRows r (acl_pipe_refs uuids store) acl_pipe_refs-FromRows m

  -- A path that is not empty is the path of a listed pipe exactly when the rows of the account
  -- declare it: as an automatic pipe of a source, as a row under a source, or as a row without a
  -- handle.
  pub listed_path_iff :
      (path : Text)
      → path ≢ []
      → ((r : PipeRef) × In r (acl_pipe_refs uuids store) × (r.path ≡ path))
        ↔ ((a : Address) × In a (addresses store) × (path_of a ≡ path))
  unfolding ref_of
  listed_path_iff path n = (
    λ (r, m, e). let (a, i, same) = listed_from_rows r m in (a, i, ap (λ r. r.path) (sym same) ∙ e),
    λ (a, i, e).
        let full : path_of a ≢ [] = λ z. n (sym e ∙ z) in
        let found =
          subst (λ out. seen out a ≡ true) (sym acl_pipe_refs_lem)
            (add_all-sees (addresses store) [] a full (inl i)) in
        let (r, m, k) =
          (any_iff (λ r. text_eq r.path (path_of a)) (acl_pipe_refs uuids store)).0 found in
        (r, m, (text_eq_iff _ _).0 k ∙ e),
  )

  -- Two listed pipes with one path are the same.
  pub listed_once :
      (r s : PipeRef)
      → In r (acl_pipe_refs uuids store)
      → In s (acl_pipe_refs uuids store)
      → r.path ≡ s.path
      → r ≡ s
  listed_once =
      subst Unique (sym acl_pipe_refs_lem)
        (add_all-Unique (addresses store) [] (λ r s i j e. absurd i))

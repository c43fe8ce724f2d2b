-- ===== src/Acl/Preview/Affected.antt =====
-- The pipes that the preview lists as affected.
use ppz.Base.{
  ◌<◌, ◌≡◌, refl, sym, ap, subst, ◌∙◌, ◌≢◌, ◌↔◌, ◌⊎◌, inl, inr, Bool, true, false, not, ◌&&◌, none,
  some, List, [], ◌∷◌, ◌++◌, arith, if◌then◌else◌, ltb, length, In, In-append, In-append_left,
  In-append_right, Text, utf8, text_eq, text_eq_iff, Bool-cases, Option-cases,
}
use ppz.Acl.Perm.{read}
use ppz.Acl.Model.{org_admin, org_owner, Principal, Subject, has}
use ppz.Acl.Evaluate.{evaluate}
use ppz.Acl.Evaluate.Allows.{
  evaluate_iff, Allows, by_role, by_handle, by_table, by_grant, shared, inbox, presence,
}
use ppz.Acl.Compile.{PipeRef}
use ppz.Natsubj.Names.{auto_provisioned_pipes}
use ppz.Natsubj.Builders.{presence_pipe}
use ppz.Acl.Preview.{
  SourceRef, PreviewInput, Preview, stdio_pipes, preview_source, preview_sources, name_or,
  collar_of, mark, preview_pipe, preview_pipes, build_preview, last_segment,
}

-- The pipe loses readers, by its name.
abbrev loses : Text → Bool
loses name = not (text_eq name presence_pipe) && not (text_eq name (utf8 "broadcast"))

listed_broadcast :
    (others : Bool) (path owner : Text) (p : Preview)
    → (preview_pipe others path (utf8 "broadcast") owner p).affected
      ≡ (if others && loses (utf8 "broadcast") then p.affected ++ path ∷ [] else p.affected)
unfolding preview_pipe mark auto_provisioned_pipes stdio_pipes presence_pipe text_eq utf8
listed_broadcast true path owner p = refl
listed_broadcast false path owner p = refl

listed_name :
    (others : Bool) (path name owner : Text) (p : Preview)
    → (preview_pipe others path name owner p).affected
      ≡ (if others && loses name then p.affected ++ path ∷ [] else p.affected)
unfolding preview_pipe mark auto_provisioned_pipes stdio_pipes presence_pipe
listed_name others path name owner p = elim (Bool-cases (text_eq name (utf8 "broadcast"))) [
  | inl e ↦
      subst
        (λ name.
          (preview_pipe others path name owner p).affected
          ≡ (if others && loses name then p.affected ++ path ∷ [] else p.affected))
        (sym ((text_eq_iff _ _).0 e)) (listed_broadcast others path owner p)
  | inr e ↦ ground (arith, e)
]

affected-source :
    (members : List Principal) (s : SourceRef) (p : Preview)
    → (preview_source members s p).affected ≡ p.affected
unfolding preview_source
affected-source members s p = ground arith

affected-sources :
    (members : List Principal) (srcs : List SourceRef) (p : Preview)
    → (preview_sources members srcs p).affected ≡ p.affected
unfolding preview_sources
affected-sources members [] p = refl
affected-sources members (s ∷ more) p =
    affected-sources members more _ ∙ affected-source members s p

-- A listed pipe has a handle that has an owner, there is more than one member, and the pipe is neither
-- the heartbeat nor named broadcast.
pub record Affected (input : PreviewInput) (path : Text) : Type 0 where
  pub source : SourceRef
  pub collar : collar_of input.sources path ≡ some source
  pub others : 1 < length input.members
  pub not_presence : last_segment path ≢ presence_pipe
  pub not_broadcast : last_segment path ≢ utf8 "broadcast"

-- Whether one pipe is listed.
abbrev lists : PreviewInput → Text → Bool
lists input path = elim (collar_of input.sources path) [
  | none ↦ false
  | some src ↦ ltb 1 (length input.members) && loses (last_segment path)
]

lists_iff : (input : PreviewInput) (path : Text) → (lists input path ≡ true) ↔ Affected input path
lists_iff input path = elim (Option-cases (collar_of input.sources path)) [
  | inl e ↦ (λ h. absurd (ground (arith, e)), λ a. absurd (ground (arith, e, a.collar)))
  | inr (src, e) ↦ (
    λ h. record {
      source = src;
      collar = e;
      others = ground (arith, e);
      not_presence = ground (arith, e, text_eq_iff (last_segment path) presence_pipe);
      not_broadcast = ground (arith, e, text_eq_iff (last_segment path) (utf8 "broadcast"));
    },
    λ a.
        let others = a.others in
        ground (
          arith,
          e,
          others,
          a.not_presence,
          a.not_broadcast,
          text_eq_iff (last_segment path) presence_pipe,
          text_eq_iff (last_segment path) (utf8 "broadcast"),
        ),
  )
]

lists-none :
    (input : PreviewInput) (path : Text)
    → collar_of input.sources path ≡ none
    → lists input path ≡ false
lists-none input path e = ground (arith, e)

lists-some :
    (input : PreviewInput) (path : Text) (src : SourceRef)
    → collar_of input.sources path ≡ some src
    → lists input path ≡ (ltb 1 (length input.members) && loses (last_segment path))
lists-some input path src e = ground (arith, e)

affected_step :
    (input : PreviewInput) (pipe : PipeRef) (more : List PipeRef) (p : Preview)
    → (q : Preview) × (preview_pipes input (pipe ∷ more) p ≡ preview_pipes input more q)
      × (q.affected ≡ (if lists input pipe.path then p.affected ++ pipe.path ∷ [] else p.affected))
unfolding preview_pipes
affected_step input pipe more p = elim (Option-cases (collar_of input.sources pipe.path)) [
  | inl e ↦ (p, rw e refl, rw (lists-none input pipe.path e) refl)
  | inr (src, e) ↦ (
    preview_pipe (ltb 1 (length input.members)) pipe.path (last_segment pipe.path)
        (name_or [] input.members src.owner_id) p,
    rw e refl,
    rw (lists-some input pipe.path src e)
        (listed_name (ltb 1 (length input.members)) pipe.path (last_segment pipe.path) _ p),
  )
]

In-step :
    (listed : Bool) (path here : Text) (before : List Text)
    → In path (if listed then before ++ here ∷ [] else before)
      ↔ (In path before ⊎ ((here ≡ path) × (listed ≡ true)))
In-step true path here before = (
  λ m. elim (In-append path before (here ∷ []) m) [
    | inl old ↦ inl old
    | inr new ↦ elim new [ inl e ↦ inr (e, refl) | inr z ↦ absurd z ]
  ],
  λ h. elim h [
    | inl old ↦ In-append_left path before (here ∷ []) old
    | inr (e, _) ↦ In-append_right path before (here ∷ []) (inl e)
  ],
)
In-step false path here before =
    (λ m. inl m, λ h. elim h [ inl old ↦ old | inr (_, f) ↦ absurd (ground arith) ])

affected-pipes :
    (input : PreviewInput) (more : List PipeRef) (p : Preview) (path : Text)
    → In path (preview_pipes input more p).affected ↔ (
        In path p.affected
        ⊎ ((pipe : PipeRef) × In pipe more × (pipe.path ≡ path) × (lists input pipe.path ≡ true)))
unfolding preview_pipes
affected-pipes input [] p path =
    (λ m. inl m, λ h. elim h [ inl m ↦ m | inr (_, z, _, _) ↦ absurd z ])
affected-pipes input (pipe ∷ more) p path =
    let (q, same, list) = affected_step input pipe more p in
    let (there, back) = affected-pipes input more q path in
    let (now, back_now) = In-step (lists input pipe.path) path pipe.path p.affected in
    (
      λ m. elim (there (subst (λ r. In path r.affected) same m)) [
        | inl i ↦ elim (now (subst (In path) list i)) [
          | inl old ↦ inl old
          | inr (e, l) ↦ inr (pipe, inl refl, e, l)
        ]
        | inr (one, i, e, l) ↦ inr (one, inr i, e, l)
      ],
      λ h.
          subst (λ r. In path r.affected) (sym same)
            (back (elim h [
              | inl old ↦ inl (subst (In path) (sym list) (back_now (inl old)))
              | inr (one, i, e, l) ↦ elim i [
                | inl here ↦ inl (
                    subst (In path) (sym list) (
                      back_now
                        (inr (ap (λ r. r.path) here ∙ e, ap (λ r. lists input r.path) here ∙ l))))
                | inr later ↦ inr (one, later, e, l)
              ]
            ])),
    )

abbrev blank : PreviewInput → Preview
blank input = record {
  orphaned_handles = [];
  placeholder_owned_org = input.org_owner_is_placeholder;
  shared_terminals = [];
  inbox_read_loss = [];
  collared_user_pipes = [];
  affected = [];
}

-- The preview lists a path as affected exactly when a pipe of the input has it, its first of at
-- least two segments names a source, there is more than one member, and its last segment is
-- neither the heartbeat nor `broadcast`.
pub affected_iff :
    (input : PreviewInput) (path : Text)
    → In path (build_preview input).affected
      ↔ (((pipe : PipeRef) × In pipe input.pipes × (pipe.path ≡ path)) × Affected input path)
unfolding build_preview
affected_iff input path =
    let start = preview_sources input.members input.sources (blank input) in
    let none_yet : start.affected ≡ [] =
      affected-sources input.members input.sources (blank input) in
    let (there, back) = affected-pipes input input.pipes start path in
    (
      λ m. elim (there m) [
        | inl i ↦ absurd (subst (In path) none_yet i)
        | inr (pipe, i, e, l) ↦
            ((pipe, i, e), (lists_iff input path).0 (subst (λ t. lists input t ≡ true) e l))
      ],
      λ ((pipe, i, e), a). back (
          inr (pipe, i, e, subst (λ t. lists input t ≡ true) (sym e) ((lists_iff input path).1 a))),
    )

no_read :
    (p : Principal) (s : Subject)
    → s.collar ≢ []
    → s.name ≢ presence_pipe
    → p.org_role ≢ org_owner
    → p.org_role ≢ org_admin
    → s.owner ≢ p.id
    → Allows p s [] read
    → ⊥
unfolding presence_pipe
no_read p s c n o a i (by_role (inl e)) = o e
no_read p s c n o a i (by_role (inr e)) = a e
no_read p s c n o a i (by_handle m h) = i h.2
no_read p s c n o a i (by_table m (shared e k)) = c e
no_read p s c n o a i (by_table m (inbox h e k)) = absurd (ground arith)
no_read p s c n o a i (by_table m (presence h e k)) = n e
no_read p s c n o a i (by_grant m g z r) = z

-- For a path that `BuildPreview` lists as affected, whose source has a handle that is not empty,
-- the evaluator refuses reading the path to whoever is neither an org owner or admin nor the
-- handle's owner, as long as no grant is stored.
pub affected-loses :
    (input : PreviewInput) (path : Text) (src : SourceRef) (p : Principal)
    → In path (build_preview input).affected
    → collar_of input.sources path ≡ some src
    → src.handle ≢ []
    → p.org_role ≢ org_owner
    → p.org_role ≢ org_admin
    → src.owner_id ≢ p.id
    → has
        (evaluate p
          (record {
            path = path;
            collar = src.handle;
            name = last_segment path;
            owner = src.owner_id;
          })
          [])
        read
      ≡ false
affected-loses input path src p listed collar full no_owner no_admin other =
    let s : Subject = record {
      path = path;
      collar = src.handle;
      name = last_segment path;
      owner = src.owner_id;
    } in
    let (pipe, a) = (affected_iff input path).0 listed in
    elim (Bool-cases (has (evaluate p s []) read)) [
      | inl e ↦ absurd (
          no_read p s full a.not_presence no_owner no_admin other
            ((evaluate_iff p s [] read (inl refl)).0 e))
      | inr e ↦ e
    ]

-- ===== src/Provision/Provisioned.antt =====
-- Every pipe of a source gets its stream, with its own limits.
use ppz.Base.{
  ◌≡◌, ◌≢◌, ◌⊎◌, inl, inr, refl, sym, ap, ◌∙◌, subst, true, false, Option, none, some, List, [],
  ◌∷◌, if◌then◌else◌, any, any_iff, In, All, All_at, Text, text_eq, text_eq_iff, text_eq_refl,
  arith, Bool-cases, Option-cases,
}
use ppz.Acl.Model.{Uuid}
use ppz.Natsubj.Uuids.{Uuids}
use ppz.Natsubj.Builders.{build_stream_name}
use ppz.Natsubj.Paths.{IsAddress}
use ppz.Enforce.{Source, auto_pipes}
use ppz.Provision.{
  Retention, PipeRow, pipe_retention, StreamConfig, JetStream, stored_row, auto_retention,
  stream_config, ensure_pipe_stream_with_retention, ensure_auto, ensure_user, ensure_source_streams,
}
use ppz.Provision.Distinct.{same_pipe}

module _ (uuids : Uuids) (jet : JetStream) (a : Uuid) (src : Source) (rows : List PipeRow) where
  abbrev pub auto_config : Text → StreamConfig
  auto_config n = stream_config uuids a src.manifold src.handle n (auto_retention rows n)

  abbrev pub row_config : PipeRow → StreamConfig
  row_config r = stream_config uuids a r.manifold src.handle r.name (pipe_retention r)

  abbrev pub IsAuto : PipeRow → Type 0
  IsAuto r = any (λ p. text_eq p r.name) (auto_pipes src) ≡ true

  abbrev AutoAddress : Text → Type 0
  AutoAddress n = IsAddress src.manifold src.handle n

  abbrev RowAddress : PipeRow → Type 0
  RowAddress r = IsAddress r.manifold src.handle r.name

  auto_step :
      (n : Text) (ns : List Text) (js js' : jet.Streams)
      → ensure_auto uuids jet a src rows (n ∷ ns) js ≡ some js'
      → (left : jet.Streams) × (jet.create_or_update_stream (auto_config n) js ≡ some left)
        × (ensure_auto uuids jet a src rows ns left ≡ some js')
  unfolding ensure_auto ensure_pipe_stream_with_retention
  auto_step n ns js js' h = elim (Option-cases (jet.create_or_update_stream (auto_config n) js)) [
    | inl bad ↦ absurd (ground (arith, bad))
    | inr (left, good) ↦ (left, good, ground (arith, good))
  ]

  auto_found :
      (n m : Text) (js left : jet.Streams)
      → AutoAddress n
      → AutoAddress m
      → jet.create_or_update_stream (auto_config m) js ≡ some left
      → jet.find_stream (auto_config n).name js ≡ some (auto_config n)
      → jet.find_stream (auto_config n).name left ≡ some (auto_config n)
  unfolding stream_config
  auto_found n m js left k l c h =
      elim (Bool-cases (text_eq (auto_config m).name (auto_config n).name)) [
        | inl same ↦
            let one : m ≡ n =
              same_pipe uuids a src.manifold src.handle m src.manifold src.handle n l k
                ((text_eq_iff (auto_config m).name (auto_config n).name).0 same) in
            jet.create_or_update_law (auto_config m) js left c (auto_config n).name
            ∙ (rw same (ap (λ (t : Text). some (auto_config t)) one))
        | inr other ↦
            jet.create_or_update_law (auto_config m) js left c (auto_config n).name ∙ (rw other h)
      ]

  auto_kept :
      (n : Text) (ns : List Text) (js js' : jet.Streams)
      → AutoAddress n
      → All AutoAddress ns
      → jet.find_stream (auto_config n).name js ≡ some (auto_config n)
      → ensure_auto uuids jet a src rows ns js ≡ some js'
      → jet.find_stream (auto_config n).name js' ≡ some (auto_config n)
  unfolding ensure_auto
  auto_kept n [] js js' k l h e =
      subst (λ s. jet.find_stream (auto_config n).name s ≡ some (auto_config n)) (cc (e)) h
  auto_kept n (m ∷ ms) js js' k l h e =
      let (left, c, rest) = auto_step m ms js js' e in
      auto_kept n ms left js' k l.1 (auto_found n m js left k l.0 c h) rest

  auto_all :
      (n : Text) (ns : List Text) (js js' : jet.Streams)
      → All AutoAddress ns
      → In n ns
      → ensure_auto uuids jet a src rows ns js ≡ some js'
      → jet.find_stream (auto_config n).name js' ≡ some (auto_config n)
  auto_all n [] js js' l m e = absurd m
  auto_all n (x ∷ ns) js js' l (inl same) e =
      let (left, c, rest) = auto_step x ns js js' e in
      subst (λ t. jet.find_stream (auto_config t).name js' ≡ some (auto_config t)) same
        (auto_kept x ns left js' l.0 l.1
          (jet.create_or_update_law (auto_config x) js left c (auto_config x).name
            ∙ rw (text_eq_refl (auto_config x).name))
          rest)
  auto_all n (x ∷ ns) js js' l (inr m) e =
      let (left, c, rest) = auto_step x ns js js' e in auto_all n ns left js' l.1 m rest

  -- A row that leaves the stream of a pipe alone.
  abbrev LeavesAlone : Text → PipeRow → Type 0
  LeavesAlone n q = IsAuto q ⊎ (q.name ≢ n)

  user_skip :
      (q : PipeRow) (more : List PipeRow) (js : jet.Streams)
      → IsAuto q
      → ensure_user uuids jet a src rows (q ∷ more) js ≡ ensure_user uuids jet a src rows more js
  unfolding ensure_user
  user_skip q more js h = ground (arith, h)

  user_step :
      (q : PipeRow) (more : List PipeRow) (js js' : jet.Streams)
      → any (λ p. text_eq p q.name) (auto_pipes src) ≡ false
      → ensure_user uuids jet a src rows (q ∷ more) js ≡ some js'
      → (left : jet.Streams) × (jet.create_or_update_stream (row_config q) js ≡ some left)
        × (ensure_user uuids jet a src rows more left ≡ some js')
  unfolding ensure_user ensure_pipe_stream_with_retention
  user_step q more js js' h e =
      elim (Option-cases (jet.create_or_update_stream (row_config q) js)) [
        | inl bad ↦ absurd (ground (arith, h, bad))
        | inr (left, good) ↦ (left, good, ground (arith, h, good))
      ]

  named_else :
      (n : Text) (q : PipeRow)
      → any (λ p. text_eq p q.name) (auto_pipes src) ≡ false
      → LeavesAlone n q
      → q.name ≢ n
  named_else n q go (inl auto) e = ground arith
  named_else n q go (inr other) e = other e

  user_other :
      (m n : Text) (q : PipeRow) (js left : jet.Streams)
      → IsAddress m src.handle n
      → RowAddress q
      → q.name ≢ n
      → jet.create_or_update_stream (row_config q) js ≡ some left
      → jet.find_stream (build_stream_name uuids a m src.handle n) left
        ≡ jet.find_stream (build_stream_name uuids a m src.handle n) js
  unfolding stream_config
  user_other m n q js left k l other c =
      jet.create_or_update_law (row_config q) js left c (build_stream_name uuids a m src.handle n)
      ∙ elim (Bool-cases (text_eq (row_config q).name (build_stream_name uuids a m src.handle n))) [
        | inl same ↦ absurd (
            other (
              same_pipe uuids a q.manifold src.handle q.name m src.handle n l k (
                (text_eq_iff (row_config q).name (build_stream_name uuids a m src.handle n)).0
                  same)))
        | inr apart ↦ rw apart
      ]

  user_kept :
      (m n : Text) (more : List PipeRow) (js js' : jet.Streams)
      → IsAddress m src.handle n
      → All RowAddress more
      → All (LeavesAlone n) more
      → ensure_user uuids jet a src rows more js ≡ some js'
      → jet.find_stream (build_stream_name uuids a m src.handle n) js'
        ≡ jet.find_stream (build_stream_name uuids a m src.handle n) js
  unfolding ensure_user
  user_kept m n [] js js' k l u e =
      ap (jet.find_stream (build_stream_name uuids a m src.handle n)) (sym (cc (e)))
  user_kept m n (q ∷ more) js js' k l u e =
      elim (Bool-cases (any (λ p. text_eq p q.name) (auto_pipes src))) [
        | inl skip ↦ user_kept m n more js js' k l.1 u.1 (sym (user_skip q more js skip) ∙ e)
        | inr go ↦
            let (left, c, rest) = user_step q more js js' go e in
            user_kept m n more left js' k l.1 u.1 rest
            ∙ user_other m n q js left k l.0 (named_else n q go u.0) c
      ]

  -- No two rows have one name, as the database ensures for the pipes of a source.
  abbrev pub UniqueNames : List PipeRow → Type 0
  UniqueNames [] = Unit
  UniqueNames (r ∷ more) = All (λ q. q.name ≢ r.name) more × UniqueNames more

  alone : (n : Text) (more : List PipeRow) → All (λ q. q.name ≢ n) more → All (LeavesAlone n) more
  alone n [] h = tt
  alone n (q ∷ more) h = (inr h.0, alone n more h.1)

  user_all :
      (r : PipeRow) (more : List PipeRow) (js js' : jet.Streams)
      → All RowAddress more
      → UniqueNames more
      → In r more
      → any (λ p. text_eq p r.name) (auto_pipes src) ≡ false
      → ensure_user uuids jet a src rows more js ≡ some js'
      → jet.find_stream (row_config r).name js' ≡ some (row_config r)
  unfolding stream_config
  user_all r [] js js' l u m h e = absurd m
  user_all r (q ∷ more) js js' l u (inl same) h e =
      let go = subst (λ x. any (λ p. text_eq p x.name) (auto_pipes src) ≡ false) (sym same) h in
      let (left, c, rest) = user_step q more js js' go e in
      subst (λ x. jet.find_stream (row_config x).name js' ≡ some (row_config x)) same
        (user_kept q.manifold q.name more left js' l.0 l.1 (alone q.name more u.0) rest
          ∙ (jet.create_or_update_law (row_config q) js left c (row_config q).name
              ∙ rw (text_eq_refl (row_config q).name)))
  user_all r (q ∷ more) js js' l u (inr m) h e =
      elim (Bool-cases (any (λ p. text_eq p q.name) (auto_pipes src))) [
        | inl skip ↦ user_all r more js js' l.1 u.1 m h (sym (user_skip q more js skip) ∙ e)
        | inr go ↦
            let (left, c, rest) = user_step q more js js' go e in
            user_all r more left js' l.1 u.1 m h rest
      ]

  auto_alone : (n : Text) (q : PipeRow) → In n (auto_pipes src) → LeavesAlone n q
  auto_alone n q m = elim (Bool-cases (text_eq n q.name)) [
    | inl same ↦ inl ((any_iff (λ p. text_eq p q.name) (auto_pipes src)).1 (n, m, same))
    | inr other ↦ inr (λ e. ground (arith, (text_eq_iff n q.name).1 (sym e)))
  ]

  autos_alone : (n : Text) (more : List PipeRow) → In n (auto_pipes src) → All (LeavesAlone n) more
  autos_alone n [] m = tt
  autos_alone n (q ∷ more) m = (auto_alone n q m, autos_alone n more m)

  both_loops :
      (js js' : jet.Streams)
      → ensure_source_streams uuids jet a src rows js ≡ some js'
      → (left : jet.Streams) × (ensure_auto uuids jet a src rows (auto_pipes src) js ≡ some left)
        × (ensure_user uuids jet a src rows rows left ≡ some js')
  unfolding ensure_source_streams
  both_loops js js' h = elim (Option-cases (ensure_auto uuids jet a src rows (auto_pipes src) js)) [
    | inl bad ↦ absurd (ground (arith, bad))
    | inr (left, good) ↦ (left, good, ground (arith, good))
  ]

  stored_row_absent :
      (n : Text) (found : Option PipeRow) (more : List PipeRow)
      → All (λ q. q.name ≢ n) more
      → stored_row n found more ≡ found
  unfolding stored_row
  stored_row_absent n found [] h = refl
  stored_row_absent n found (q ∷ more) h = elim (Bool-cases (text_eq q.name n)) [
    | inl same ↦ absurd (h.0 ((text_eq_iff q.name n).0 same))
    | inr other ↦ rw other (stored_row_absent n found more h.1)
  ]

  stored_row_found :
      (r : PipeRow) (found : Option PipeRow) (more : List PipeRow)
      → UniqueNames more
      → In r more
      → stored_row r.name found more ≡ some r
  unfolding stored_row
  stored_row_found r found [] u m = absurd m
  stored_row_found r found (q ∷ more) u (inl same) =
      subst (λ (x : PipeRow). stored_row x.name found (q ∷ more) ≡ some x) same
        (rw (text_eq_refl q.name) (stored_row_absent q.name (some q) more u.0))
  stored_row_found r found (q ∷ more) u (inr m) =
      stored_row_found r (if text_eq q.name r.name then some q else found) more u.1 m

  auto_retention_row :
      (r : PipeRow) → UniqueNames rows → In r rows → auto_retention rows r.name ≡ pipe_retention r
  unfolding auto_retention
  auto_retention_row r u m = ground (arith, stored_row_found r none rows u m)

  -- The manifold of the stream of a row.
  abbrev pub manifold_of : PipeRow → Text
  manifold_of r = if any (λ p. text_eq p r.name) (auto_pipes src) then src.manifold else r.manifold

  in_autos : (r : PipeRow) → IsAuto r → In r.name (auto_pipes src)
  in_autos r h =
      let (p, m, e) = (any_iff (λ p. text_eq p r.name) (auto_pipes src)).0 h in
      subst (λ n. In n (auto_pipes src)) ((text_eq_iff p r.name).0 e) m

  module _ (js js' : jet.Streams) (autos : All AutoAddress (auto_pipes src))
      (users : All RowAddress rows)
      (done : ensure_source_streams uuids jet a src rows js ≡ some js') where
    pub auto_provisioned :
        (n : Text)
        → In n (auto_pipes src)
        → jet.find_stream (build_stream_name uuids a src.manifold src.handle n) js'
          ≡ some (auto_config n)
    unfolding stream_config
    auto_provisioned n m =
        let (left, first, second_loop) = both_loops js js' done in
        user_kept src.manifold n rows left js' (All_at AutoAddress n (auto_pipes src) autos m) users
          (autos_alone n rows m) second_loop
        ∙ auto_all n (auto_pipes src) js left autos m first

    row_provisioned :
        (r : PipeRow)
        → UniqueNames rows
        → In r rows
        → any (λ p. text_eq p r.name) (auto_pipes src) ≡ false
        → jet.find_stream (build_stream_name uuids a r.manifold src.handle r.name) js'
          ≡ some (row_config r)
    unfolding stream_config
    row_provisioned r u m h =
        let (left, first, second_loop) = both_loops js js' done in
        user_all r rows left js' users u m h second_loop

    -- When the provisioning of a source succeeds, where its pipes have well-formed addresses and
    -- no two of its rows share a name, every row's stream exists afterwards under the row's own
    -- retention, the automatic pipes' included, whatever the streams were configured to before.
    pub override_kept :
        (r : PipeRow)
        → UniqueNames rows
        → In r rows
        → jet.find_stream (build_stream_name uuids a (manifold_of r) src.handle r.name) js'
          ≡ some (stream_config uuids a (manifold_of r) src.handle r.name (pipe_retention r))
    override_kept r u m = elim (Bool-cases (any (λ p. text_eq p r.name) (auto_pipes src))) [
      | inl auto ↦ rw auto (
          auto_provisioned r.name (in_autos r auto)
          ∙ ap (λ (k : Retention). some (stream_config uuids a src.manifold src.handle r.name k))
              (auto_retention_row r u m))
      | inr other ↦ rw other (row_provisioned r u m other)
    ]

-- ===== src/Acl/Compile/Reads.antt =====
-- Which JetStream reads a compiled credential permits.
use ppz.Base.{
  ◌≡◌, refl, sym, ap, ap₂, ◌∙◌, inl, inr, Bool, true, false, ◌&&◌, ◌||◌, List, [], ◌∷◌, map, arith,
  any, any-append, any_congr, any_iff, In, All, Text, utf8, text_eq, text_eq_iff, text_eq_refl,
  split, Lacks, Bool-ext, Bool-cases,
}
use ppz.Acl.Compile.{
  PipeRef, wire_subject, Access, js_read_patterns, always_allowed, always_denied, expand_read,
  broad_read, reads_of,
}
use ppz.Acl.Compile.Walks.{pipes}
use ppz.Acl.Compile.Nats.{star, tail, subsumes, Nats}
use ppz.Acl.Compile.Requests.{
  ReadOp, stream_info, msg_get, direct_get, consumer_create, msg_next, same_op, op_pattern,
  js_read_patterns_lem, Extra, Extra-Lacks, request, request_tokens, IsToken, split-request,
  split-expand_read, split-broad_read, subsumes-expand_read, subsumes-broad_read,
}

-- An account that is one token, other than the prefix of the JetStream API.
pub record IsAccount (account_id : Text) : Type 0 where
  pub token : IsToken account_id
  pub not_js : text_eq account_id (utf8 "$JS") ≡ false

-- A pipe as the builders of subjects make it: its stream is one token, and it rides below the account.
pub record IsPipe (account_id : Text) (r : PipeRef) : Type 0 where
  pub stream : IsToken r.stream
  pub rest : List Text
  pub wire : split (wire_subject r account_id) b'.' ≡ account_id ∷ rest

op_some :
    (o : ReadOp)
    → (same_op stream_info o
        || same_op msg_get o
        || same_op direct_get o
        || same_op consumer_create o
        || same_op msg_next o)
      ≡ true
op_some stream_info = refl
op_some _ = refl

-- The fixed entries are about other operations.
abbrev pub hits : List Text → List Text → Bool
hits patterns subject = any (λ p. subsumes (split p b'.') subject) patterns

pub misses_allowed :
    (o : ReadOp) (s : Text) (extra : List Text)
    → hits always_allowed (request_tokens o s extra) ≡ false
unfolding always_allowed split subsumes text_eq star tail utf8
misses_allowed stream_info s extra = refl
misses_allowed _ s extra = refl

pub misses_denied :
    (o : ReadOp) (s : Text) (extra : List Text)
    → hits always_denied (request_tokens o s extra) ≡ false
unfolding always_denied split subsumes text_eq star tail utf8
misses_denied stream_info s extra = refl
misses_denied _ s extra = refl

-- Nor is an entry below the account.
misses_wire :
    (a : Text) (rest : List Text) (o : ReadOp) (s : Text) (extra : List Text)
    → IsAccount a
    → subsumes (a ∷ rest) (request_tokens o s extra) ≡ false
unfolding subsumes
misses_wire a rest o s extra h = let t = h.token in ground (arith, h.not_js, t.not_star, t.not_tail)

module _ (nats : Nats) {op : ReadOp} (s : Text) {extra : List Text} (x : Extra op extra)
    (h : Lacks b'.' s) where
  abbrev pub req : Text
  req = request op s extra

  covers_req :
      (pattern : Text)
      → nats.covers pattern req ≡ subsumes (split pattern b'.') (request_tokens op s extra)
  covers_req pattern =
      nats.covers_law pattern req
      ∙ ap (subsumes (split pattern b'.')) (split-request op s extra h (Extra-Lacks x))

  covers-broad : (o : ReadOp) → nats.covers (broad_read (op_pattern o)) req ≡ same_op o op
  covers-broad o =
      covers_req _
      ∙ ap (λ ts. subsumes ts (request_tokens op s extra)) (split-broad_read o)
      ∙ subsumes-broad_read o s x

  covers-expand :
      (o : ReadOp) (t : Text)
      → IsToken t
      → nats.covers (expand_read (op_pattern o) t) req ≡ (same_op o op && text_eq t s)
  covers-expand o t k =
      covers_req _
      ∙ ap (λ ts. subsumes ts (request_tokens op s extra)) (split-expand_read o t k.whole)
      ∙ subsumes-expand_read o t s k.not_star k.not_tail x

  pub any-broad : any (λ a. nats.covers a req) (map broad_read js_read_patterns) ≡ true
  any-broad = rw js_read_patterns_lem (
      ground (
        arith,
        op_some op,
        covers-broad stream_info,
        covers-broad msg_get,
        covers-broad direct_get,
        covers-broad consumer_create,
        covers-broad msg_next,
      ))

  any-expand :
      (t : Text)
      → IsToken t
      → any (λ a. nats.covers a req) (map (λ pat. expand_read pat t) js_read_patterns) ≡ text_eq t s
  any-expand t k = rw js_read_patterns_lem (
      ground (
        arith,
        op_some op,
        covers-expand stream_info t k,
        covers-expand msg_get t k,
        covers-expand direct_get t k,
        covers-expand consumer_create t k,
        covers-expand msg_next t k,
      ))

  pub any-reads_of :
      (rs : List PipeRef)
      → All (λ r. IsToken r.stream) rs
      → any (λ a. nats.covers a req) (reads_of rs) ≡ any (λ r. text_eq r.stream s) rs
  unfolding reads_of
  any-reads_of [] k = refl
  any-reads_of (r ∷ rs) k =
      any-append (λ a. nats.covers a req) (map (λ pat. expand_read pat r.stream) js_read_patterns) _
      ∙ ap₂ ◌||◌ (any-expand r.stream k.0) (any-reads_of rs k.1)

  pub any-hits :
      (patterns : List Text)
      → any (λ a. nats.covers a req) patterns ≡ hits patterns (request_tokens op s extra)
  any-hits patterns = any_congr _ _ patterns (λ p _. covers_req p)

  pub any-wires :
      (account_id : Text) (rs : List PipeRef)
      → IsAccount account_id
      → All (IsPipe account_id) rs
      → any (λ a. nats.covers a req) (map (λ r. wire_subject r account_id) rs) ≡ false
  any-wires account_id [] k l = refl
  any-wires account_id (r ∷ rs) k l =
      let miss : nats.covers (wire_subject r account_id) req ≡ false =
        covers_req _
        ∙ ap (λ ts. subsumes ts (request_tokens op s extra)) l.0.wire
        ∙ misses_wire account_id l.0.rest op s extra k in
      ground (arith, miss, any-wires account_id rs k l.1)

pub All-pipes :
    (P : PipeRef → Type 0) (f : Access → Bool) (access : List Access)
    → All (λ a. P a.pipe) access
    → All P (pipes f access)
All-pipes P f [] h = tt
All-pipes P f (a ∷ access) h = elim (Bool-cases (f a)) [
  | inl e ↦ rw e (h.0, All-pipes P f access h.1)
  | inr e ↦ rw e (All-pipes P f access h.1)
]

-- Two entries for one stream give the same read access.
abbrev pub AgreeOn : (Access → Text) → (Access → Bool) → List Access → Type 0
AgreeOn key f access = (a b : Access) → In a access → In b access → key a ≡ key b → f a ≡ f b

pub any_agreeing :
    (key : Access → Text) (f : Access → Bool) (access : List Access) (a : Access)
    → AgreeOn key f access
    → In a access
    → any (λ b. f b && text_eq (key b) (key a)) access ≡ f a
any_agreeing key f access a agree m =
    Bool-ext _ _
      (λ h.
        let (b, n, e) = (any_iff (λ b. f b && text_eq (key b) (key a)) access).0 h in
        let same : key b ≡ key a = (text_eq_iff _ _).0 (ground arith) in
        sym (agree b a n m same) ∙ ground arith)
      (λ h.
        (any_iff (λ b. f b && text_eq (key b) (key a)) access).1
          (a, m, rw h (text_eq_refl (key a))))

-- ===== src/Acl/Compile/Wires.antt =====
-- Which publishes and live subscriptions a compiled credential permits.
use ppz.Base.{
  subst, ◌≢◌, ◌≡◌, refl, sym, ap, ap₂, ◌∙◌, Bool, true, false, not, ◌&&◌, ◌||◌, List, [], ◌∷◌, ◌++◌,
  map, arith, if◌then◌else◌, any, All-append, any-append, any-map, any-filter, any_congr, All_at,
  In, filter, All, Text, utf8, text_eq, text_eq_iff, text_eq_refl, Lacks, Bool-ext, split,
  split_inj, split-append,
}
use ppz.Acl.Perm.{read, write, has_bit, effective}
use ppz.Acl.Compile.{
  PipeRef, wire_subject, Access, js_read_patterns, always_allowed, always_denied, broad_read,
  expand_read, reads_of, initial, compile,
}
use ppz.Acl.Compile.Walks.{
  reads, writes, pipes, wires, is_broad, compile-pub_allow, compile-pub_deny, compile-sub_allow,
  compile-sub_deny,
}
use ppz.Acl.Compile.Nats.{star, tail, subsumes, Nats, permits_pub, permits_sub}
use ppz.Acl.Compile.Requests.{
  js_read_patterns_lem, split-expand_read, split-broad_read, IsToken, stream_info, msg_get,
  direct_get, consumer_create, msg_next,
}
use ppz.Acl.Compile.Reads.{IsAccount, AgreeOn, any_agreeing, All-pipes}

abbrev pub IsPlain : Text → Type 0
IsPlain t = (text_eq t star ≡ false) × (text_eq t tail ≡ false)

subsumes_plain : (ps ts : List Text) → All IsPlain ps → subsumes ps ts ≡ true → ps ≡ ts
unfolding subsumes
subsumes_plain [] [] h e = refl
subsumes_plain [] (t ∷ ts) h e = absurd (ground arith)
subsumes_plain (p ∷ ps) [] h e = absurd (ground arith)
subsumes_plain (p ∷ ps) (t ∷ ts) h e =
    let (ns, nt) = h.0 in
    ap₂ ◌∷◌ (ground (arith, text_eq_iff p t)) (subsumes_plain ps ts h.1 (ground arith))

subsumes_self : (ps : List Text) → All IsPlain ps → subsumes ps ps ≡ true
unfolding subsumes
subsumes_self [] h = refl
subsumes_self (p ∷ ps) h =
    let (ns, nt) = h.0 in ground (arith, text_eq_refl p, subsumes_self ps h.1)

-- A pipe that rides below the account, on a subject without wildcards.
pub record IsWire (account_id : Text) (r : PipeRef) : Type 0 where
  pub stream : IsToken r.stream
  pub second : Text
  pub more : List Text
  pub wire : split (wire_subject r account_id) b'.' ≡ account_id ∷ second ∷ more
  pub plain : All IsPlain (second ∷ more)

pub record IsNetwork (account_id : Text) (access : List Access) : Type 0 where
  pub account : IsAccount account_id
  pub not_inbox : text_eq account_id (utf8 "_INBOX") ≡ false
  pub each : All (λ a. IsWire account_id a.pipe) access
  pub write_once : AgreeOn (λ a. wire_subject a.pipe account_id) writes access
  pub read_once : AgreeOn (λ a. wire_subject a.pipe account_id) reads access

lit_plain :
    (text_eq (utf8 "$JS") star ≡ false)
    × (text_eq (utf8 "$JS") tail ≡ false)
    × (text_eq (utf8 "_INBOX") star ≡ false)
    × (text_eq (utf8 "_INBOX") tail ≡ false)
    × (text_eq (utf8 "_presence") star ≡ false)
    × (text_eq (utf8 "_presence") tail ≡ false)
    × (text_eq (utf8 "_system") star ≡ false)
    × (text_eq (utf8 "_system") tail ≡ false)
unfolding text_eq star tail utf8
lit_plain = (refl, refl, refl, refl, refl, refl, refl, refl)

-- A pattern whose first token is another literal.
first_misses :
    (p a : Text) (ps ts : List Text)
    → text_eq p star ≡ false
    → text_eq p tail ≡ false
    → text_eq a p ≡ false
    → subsumes (p ∷ ps) (a ∷ ts) ≡ false
unfolding subsumes
first_misses p a ps ts hs ht h = ground (arith, text_eq_iff a p, text_eq_iff p a)

covers_plain :
    (nats : Nats) (u v : Text) → All IsPlain (split u b'.') → nats.covers u v ≡ text_eq u v
covers_plain nats u v h =
    nats.covers_law u v
    ∙ Bool-ext _ _ (λ e. (text_eq_iff u v).1 (split_inj u v b'.' (subsumes_plain _ _ h e)))
        (λ e.
          subst (λ w. subsumes (split u b'.') (split w b'.') ≡ true) ((text_eq_iff u v).0 e)
            (subsumes_self _ h))

wire-IsPlain :
    (account_id : Text) (r : PipeRef)
    → IsAccount account_id
    → IsWire account_id r
    → All IsPlain (split (wire_subject r account_id) b'.')
wire-IsPlain account_id r k h =
    let t = k.token in subst (All IsPlain) (sym h.wire) ((t.not_star, t.not_tail), h.plain)

-- Every fixed or JetStream pattern begins with `$JS`.
abbrev BeginsJs : Text → Type 0
BeginsJs p = (ps : List Text) × (split p b'.' ≡ utf8 "$JS" ∷ ps)

allowed-BeginsJs : All BeginsJs always_allowed
unfolding always_allowed split utf8
allowed-BeginsJs = ((_, refl), tt)

denied-BeginsJs : All BeginsJs always_denied
unfolding always_denied split utf8
denied-BeginsJs = ((_, refl), ((_, refl), ((_, refl), ((_, refl), ((_, refl), ((_, refl), tt))))))

broad-BeginsJs : All BeginsJs (map broad_read js_read_patterns)
broad-BeginsJs = rw js_read_patterns_lem (
  (_, split-broad_read stream_info),
  (
    (_, split-broad_read msg_get),
    (
      (_, split-broad_read direct_get),
      ((_, split-broad_read consumer_create), ((_, split-broad_read msg_next), tt)),
    ),
  ),
)

expand-BeginsJs :
    (t : Text) → Lacks b'.' t → All BeginsJs (map (λ pat. expand_read pat t) js_read_patterns)
expand-BeginsJs t h = rw js_read_patterns_lem (
  (_, split-expand_read stream_info t h),
  (
    (_, split-expand_read msg_get t h),
    (
      (_, split-expand_read direct_get t h),
      ((_, split-expand_read consumer_create t h), ((_, split-expand_read msg_next t h), tt)),
    ),
  ),
)

reads-BeginsJs :
    (account_id : Text) (rs : List PipeRef)
    → All (IsWire account_id) rs
    → All BeginsJs (reads_of rs)
unfolding reads_of
reads-BeginsJs account_id [] h = tt
reads-BeginsJs account_id (r ∷ rs) h =
    All-append BeginsJs (map (λ pat. expand_read pat r.stream) js_read_patterns) _
      (expand-BeginsJs r.stream h.0.stream.whole) (reads-BeginsJs account_id rs h.1)

js_misses :
    (nats : Nats) (ps : List Text) (w a : Text) (ts : List Text)
    → split w b'.' ≡ a ∷ ts
    → text_eq a (utf8 "$JS") ≡ false
    → All BeginsJs ps
    → any (λ p. nats.covers p w) ps ≡ false
js_misses nats [] w a ts e n h = refl
js_misses nats (p ∷ ps) w a ts e n h =
    let miss : nats.covers p w ≡ false =
      nats.covers_law p w
      ∙ ap₂ subsumes h.0.1 e
      ∙ first_misses (utf8 "$JS") a h.0.0 ts lit_plain.0 lit_plain.1 n in
    ground (arith, miss, js_misses nats ps w a ts e n h.1)

any-wires_on :
    (nats : Nats) (account_id : Text) (f : Access → Bool) (access : List Access) (a : Access)
    → IsAccount account_id
    → All (λ a. IsWire account_id a.pipe) access
    → AgreeOn (λ a. wire_subject a.pipe account_id) f access
    → In a access
    → any (λ p. nats.covers p (wire_subject a.pipe account_id)) (wires account_id f access) ≡ f a
any-wires_on nats account_id f access a k each agree m =
    let w = wire_subject a.pipe account_id in
    any-map (λ p. nats.covers p w) (λ r. wire_subject r account_id) (pipes f access)
    ∙ any_congr _ (λ r. text_eq (wire_subject r account_id) w) (pipes f access)
        (λ r n. covers_plain nats (wire_subject r account_id) w (
          wire-IsPlain account_id r k (
            All_at (IsWire account_id) r (pipes f access)
              (All-pipes (IsWire account_id) f access each) n)))
    ∙ any-map (λ r. text_eq (wire_subject r account_id) w) (λ a. a.pipe) (filter f access)
    ∙ any-filter (λ b. text_eq (wire_subject b.pipe account_id) w) f access
    ∙ any_agreeing (λ a. wire_subject a.pipe account_id) f access a agree m

module _ (nats : Nats) (account_id : Text) (access : List Access) (a : Access)
    (k : IsNetwork account_id access) (m : In a access) where
  abbrev wire_of : Text
  wire_of = wire_subject a.pipe account_id

  on_wire : IsWire account_id a.pipe
  on_wire = All_at (λ a. IsWire account_id a.pipe) a access k.each m

  fixed : (ps : List Text) → All BeginsJs ps → any (λ p. nats.covers p wire_of) ps ≡ false
  fixed ps h = js_misses nats ps wire_of account_id _ on_wire.wire k.account.not_js h

  read_entries :
      any
        (λ p. nats.covers p wire_of)
        (if is_broad account_id access
          then map broad_read js_read_patterns
          else reads_of (pipes reads access))
      ≡ false
  read_entries = ground (
    arith,
    fixed _ broad-BeginsJs,
    fixed _ (
        reads-BeginsJs account_id (pipes reads access)
          (All-pipes (IsWire account_id) reads access k.each)),
  )

  deny_entries :
      any
        (λ p. nats.covers p wire_of)
        (if is_broad account_id access then reads_of (pipes (λ a. not (reads a)) access) else [])
      ≡ false
  deny_entries = ground (
    arith,
    fixed _ (
        reads-BeginsJs account_id (pipes (λ a. not (reads a)) access)
          (All-pipes (IsWire account_id) (λ a. not (reads a)) access k.each)),
  )

  -- For an account id that is a single token other than `$JS` and `_INBOX`, and pipes on subjects
  -- below the account without wildcards and on streams that are single tokens, where entries with
  -- one subject agree, the compiled credential permits publishing on a listed pipe's subject
  -- exactly when the principal may write to the pipe.
  pub compile-permits_write :
      permits_pub nats (compile account_id access) (wire_subject a.pipe account_id)
      ≡ has_bit (effective a.perm) write
  compile-permits_write =
      ap₂ (λ p q. p && not q)
        (ap (any (λ p. nats.covers p wire_of)) (compile-pub_allow account_id access)
          ∙ any-append _ (always_allowed ++ wires account_id writes access) _
          ∙ ap₂ ◌||◌
              (any-append _ always_allowed (wires account_id writes access)
                ∙ ap₂ ◌||◌ (fixed _ allowed-BeginsJs)
                    (any-wires_on nats account_id writes access a k.account k.each k.write_once m))
              read_entries)
        (ap (any (λ p. nats.covers p wire_of)) (compile-pub_deny account_id access)
          ∙ any-append _ always_denied _
          ∙ ap₂ ◌||◌ (fixed _ denied-BeginsJs) deny_entries)
      ∙ ground arith

  split_family :
      (name : Text) (ps : List Text)
      → split name b'.' ≡ ps
      → split (account_id ++ b'.' ∷ name) b'.' ≡ account_id ∷ ps
  split_family name ps e =
      split-append account_id name b'.' k.account.token.whole ∙ ap (λ ts. account_id ∷ ts) e

  family_misses :
      (name p : Text)
      → split name b'.' ≡ p ∷ tail ∷ []
      → text_eq p star ≡ false
      → text_eq p tail ≡ false
      → text_eq on_wire.second p ≡ false
      → nats.covers (account_id ++ b'.' ∷ name) wire_of ≡ false
  unfolding subsumes
  family_misses name p e hs ht n =
      nats.covers_law (account_id ++ b'.' ∷ name) wire_of
      ∙ ap₂ subsumes (split_family name _ e) on_wire.wire
      ∙ ground (
        arith,
        first_misses p on_wire.second (tail ∷ []) on_wire.more hs ht n,
        k.account.token.not_tail,
      )

  split_inbox : split (utf8 "_INBOX.>") b'.' ≡ utf8 "_INBOX" ∷ tail ∷ []
  unfolding split utf8 tail
  split_inbox = refl

  inbox_misses : nats.covers (utf8 "_INBOX.>") wire_of ≡ false
  inbox_misses =
      nats.covers_law (utf8 "_INBOX.>") wire_of
      ∙ ap₂ subsumes split_inbox on_wire.wire
      ∙ first_misses (utf8 "_INBOX") account_id (tail ∷ []) _ lit_plain.2 lit_plain.3 k.not_inbox

  base_misses :
      text_eq on_wire.second (utf8 "_presence") ≡ false
      → text_eq on_wire.second (utf8 "_system") ≡ false
      → any (λ p. nats.covers p wire_of) (initial account_id).sub_allow ≡ false
  unfolding initial utf8 split tail
  base_misses hp hs = ground (
    arith,
    inbox_misses,
    family_misses (utf8 "_presence.>") (utf8 "_presence") refl lit_plain.4 lit_plain.5 hp,
    family_misses (utf8 "_system.>") (utf8 "_system") refl lit_plain.6 lit_plain.7 hs,
  )

  -- For an account id that is a single token other than `$JS` and `_INBOX`, pipes on subjects
  -- below the account without wildcards and on streams that are single tokens, where entries with
  -- one subject agree, and a listed pipe whose second token is neither `_presence` nor `_system`,
  -- the compiled credential permits a live subscription to the pipe's subject exactly when the
  -- principal may read the pipe.
  pub compile-permits_tail :
      (second : Text) (more : List Text)
      → split (wire_subject a.pipe account_id) b'.' ≡ account_id ∷ second ∷ more
      → second ≢ utf8 "_presence"
      → second ≢ utf8 "_system"
      → permits_sub nats (compile account_id access) (wire_subject a.pipe account_id)
        ≡ has_bit (effective a.perm) read
  compile-permits_tail second more e hp hs =
      let same : on_wire.second ≡ second = cc (on_wire.wire, e) in
      let np : text_eq on_wire.second (utf8 "_presence") ≡ false =
        ground (arith, text_eq_iff on_wire.second (utf8 "_presence")) in
      let ns : text_eq on_wire.second (utf8 "_system") ≡ false =
        ground (arith, text_eq_iff on_wire.second (utf8 "_system")) in
      ap₂ (λ p q. p && not q)
        (ap (any (λ p. nats.covers p wire_of)) (compile-sub_allow account_id access)
          ∙ any-append _ (initial account_id).sub_allow (wires account_id reads access)
          ∙ ap₂ ◌||◌ (base_misses np ns)
              (any-wires_on nats account_id reads access a k.account k.each k.read_once m))
        (ap (any (λ p. nats.covers p wire_of)) (compile-sub_deny account_id access))
      ∙ ground arith

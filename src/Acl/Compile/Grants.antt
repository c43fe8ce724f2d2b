-- ===== src/Acl/Compile/Grants.antt =====
-- A compiled credential permits what the access holds, and no more.
use ppz.Base.{
  ◌≡◌, ap, ap₂, ◌∙◌, Bool, false, not, ◌&&◌, ◌||◌, List, [], ◌∷◌, ◌++◌, arith, any, any-append,
  any-map, any-filter, All_at, In, filter, All, Text, text_eq, Lacks,
}
use ppz.Acl.Perm.{read, has_bit, effective}
use ppz.Acl.Compile.{PipeRef, Access, always_allowed, always_denied, reads_of, compile}
use ppz.Acl.Compile.Walks.{
  reads, writes, pipes, wires, is_broad, compile-pub_allow, compile-pub_deny,
}
use ppz.Acl.Compile.Nats.{Nats, permits_pub}
use ppz.Acl.Compile.Requests.{ReadOp, Extra, request, IsToken}
use ppz.Acl.Compile.Reads.{
  IsAccount, IsPipe, misses_allowed, misses_denied, any-broad, any-reads_of, any-hits, any-wires,
  All-pipes, AgreeOn, any_agreeing,
}

-- The account, and access that enumerates its pipes without contradicting itself.
pub record IsCatalog (account_id : Text) (access : List Access) : Type 0 where
  pub account : IsAccount account_id
  pub each : All (λ a. IsPipe account_id a.pipe) access
  pub streams : AgreeOn (λ a. a.pipe.stream) reads access

All-stream :
    (account_id : Text) (rs : List PipeRef)
    → All (IsPipe account_id) rs
    → All (λ r. IsToken r.stream) rs
All-stream account_id [] h = tt
All-stream account_id (r ∷ rs) h = (h.0.stream, All-stream account_id rs h.1)

module _ (nats : Nats) {op : ReadOp} {extra : List Text} (x : Extra op extra) where
  abbrev streams_at : Text → (Access → Bool) → List Access → Bool
  streams_at s f access = any (λ r. text_eq r.stream s) (pipes f access)

  module _ (account_id : Text) (access : List Access) (k : IsCatalog account_id access) (s : Text)
      (h : Lacks b'.' s) where
    abbrev at : Text → Bool
    at a = nats.covers a (request op s extra)

    fixed_allow : any at always_allowed ≡ false
    fixed_allow = any-hits nats s x h always_allowed ∙ misses_allowed op s extra

    fixed_deny : any at always_denied ≡ false
    fixed_deny = any-hits nats s x h always_denied ∙ misses_denied op s extra

    at_reads : (f : Access → Bool) → any at (reads_of (pipes f access)) ≡ streams_at s f access
    at_reads f =
        any-reads_of nats s x h (pipes f access)
          (All-stream account_id (pipes f access) (All-pipes (IsPipe account_id) f access k.each))

    at-wires : any at (wires account_id writes access) ≡ false
    at-wires =
        any-wires nats s x h account_id (pipes writes access) k.account
          (All-pipes (IsPipe account_id) writes access k.each)

    allowed_at :
        any at (compile account_id access).pub_allow
        ≡ (is_broad account_id access || streams_at s reads access)
    allowed_at =
        ap (any at) (compile-pub_allow account_id access)
        ∙ any-append at (always_allowed ++ wires account_id writes access) _
        ∙ ap₂ ◌||◌
            (any-append at always_allowed (wires account_id writes access)
              ∙ ap₂ ◌||◌ fixed_allow at-wires)
            (ground (arith, any-broad nats s x h, at_reads reads))

    denied_at :
        any at (compile account_id access).pub_deny
        ≡ (is_broad account_id access && streams_at s (λ a. not (reads a)) access)
    denied_at =
        ap (any at) (compile-pub_deny account_id access)
        ∙ any-append at always_denied _
        ∙ ap₂ ◌||◌ fixed_deny (ground (arith, at_reads (λ a. not (reads a))))

streams_at_agreeing :
    (f : Access → Bool) (access : List Access) (a : Access)
    → AgreeOn (λ a. a.pipe.stream) f access
    → In a access
    → any (λ r. text_eq r.stream a.pipe.stream) (pipes f access) ≡ f a
streams_at_agreeing f access a agree m =
    any-map (λ r. text_eq r.stream a.pipe.stream) (λ a. a.pipe) (filter f access)
    ∙ any-filter (λ b. text_eq b.pipe.stream a.pipe.stream) f access
    ∙ any_agreeing (λ a. a.pipe.stream) f access a agree m

-- For an account id that is a single token other than `$JS`, streams that are single tokens,
-- subjects below the account, and access in which entries with one stream agree on reading, the
-- compiled credential permits each of the five JetStream requests of a read of a listed pipe
-- exactly when the principal may read the pipe, whichever of the two forms `Compile` emits.
pub compile-permits_read :
    (nats : Nats) {op : ReadOp} {extra : List Text} (x : Extra op extra) (account_id : Text)
    (access : List Access) (a : Access)
    → IsCatalog account_id access
    → In a access
    → permits_pub nats (compile account_id access) (request op a.pipe.stream extra)
      ≡ has_bit (effective a.perm) read
compile-permits_read nats x account_id access a k m =
    let t = (All_at (λ a. IsPipe account_id a.pipe) a access k.each m).stream in
    ap₂ (λ p q. p && not q) (allowed_at nats x account_id access k a.pipe.stream t.whole)
      (denied_at nats x account_id access k a.pipe.stream t.whole)
    ∙ ground (
      arith,
      streams_at_agreeing reads access a k.streams m,
      streams_at_agreeing (λ a. not (reads a)) access a (λ b c i j e. ap not (k.streams b c i j e))
          m,
    )

-- ===== src/Enforce/Credential.antt =====
-- The credential of a member of an enforcing org: it permits what the evaluator allows, and no more.
use ppz.Base.{
  ◌≡◌, refl, sym, ap, subst, ◌∙◌, ◌↔◌, inl, inr, Bool, true, some, List, [], ◌∷◌, map, arith,
  if◌then◌else◌, In, All, All_at, Text, Bool-cases,
}
use Prim.Native.Nat.{bit_or}
use ppz.Acl.Perm.{Perm, caps_ind, read, write, admin, caps, has_bit, effective, Carries}
use ppz.Acl.Model.{Uuid, Principal, Subject, Grant, has}
use ppz.Acl.Evaluate.{evaluate}
use ppz.Acl.Compile.{PipeRef, Access, Permissions, compile, wire_subject}
use ppz.Acl.Compile.Walks.{reads, writes}
use ppz.Acl.Compile.Nats.{Nats, permits_pub}
use ppz.Acl.Compile.Reads.{AgreeOn}
use ppz.Acl.Compile.Wires.{IsWire, IsNetwork, compile-permits_write}
use ppz.Natsubj.Uuids.{Uuids}
use ppz.Natsubj.Paths.{IsAddress}
use ppz.Enforce.{
  Store, ref_of, to_acl, grants_for, subject_for, principal_of, acl_pipe_refs, principal_access,
  credential_permissions, nats_permissions_for,
}
use ppz.Enforce.Refs.{Address, addresses, made, listed_from_rows, listed_once}
use ppz.Enforce.Addresses.{path_of_subject}
use ppz.Enforce.Tokens.{account-IsAccount, account_not_inbox, ref-IsWire, wire_lem}
use ppz.Acl.Evaluate.Allows.{
  Allows, by_role, by_handle, by_table, by_grant, shared, inbox, presence, evaluate_iff,
}

admin-Carries : (c d : Perm) → Carries c admin → Carries c d
admin-Carries c d (inl e) = inr e
admin-Carries c d (inr e) = inr e

-- Whoever may administer a pipe may use it in every way.
admin-Allows :
    (p : Principal) (s : Subject) (gs : List Grant) (c : Perm)
    → Allows p s gs admin
    → Allows p s gs c
admin-Allows p s gs c (by_role r) = by_role r
admin-Allows p s gs c (by_handle m o) = by_handle m o
admin-Allows p s gs c (by_table m (shared e (inl k))) = absurd (ground arith)
admin-Allows p s gs c (by_table m (shared e (inr k))) = absurd (ground arith)
admin-Allows p s gs c (by_table m (inbox n e k)) = absurd (ground arith)
admin-Allows p s gs c (by_table m (presence n e k)) = absurd (ground arith)
admin-Allows p s gs c (by_grant m g i r) = by_grant m g i (record {
  named = r.named;
  whole = r.whole;
  covers = r.covers;
  carries = admin-Carries g.perm c r.carries;
})

all_bits : (c : Perm) → In c caps → has_bit (bit_or (bit_or read write) admin) c ≡ true
unfolding has_bit
all_bits = caps_ind (λ c. has_bit 7 c ≡ true) refl refl refl

effective_bit :
    (d c : Perm)
    → In c caps
    → has_bit (effective d) c ≡ (if has_bit d admin then true else has_bit d c)
unfolding effective
effective_bit d c k = ground (arith, all_bits c k)

pub effective_iff :
    (p : Principal) (s : Subject) (gs : List Grant) (c : Perm)
    → In c caps
    → (has_bit (effective (evaluate p s gs).perm) c ≡ true) ↔ Allows p s gs c
unfolding has
effective_iff p s gs c k =
    let by_cap = evaluate_iff p s gs c k in
    let by_admin = evaluate_iff p s gs admin (inr (inr (inl refl))) in
    let bit = effective_bit (evaluate p s gs).perm c k in
    (
      λ h. elim (Bool-cases (has_bit (evaluate p s gs).perm admin)) [
        | inl e ↦ admin-Allows p s gs c (by_admin.0 e)
        | inr e ↦ by_cap.0 (ground arith)
      ],
      λ h. let e = by_cap.1 h in ground arith,
    )

-- The names of every declared pipe are accepted ones.
abbrev pub IsNamed : Store → Type 0
IsNamed store = All (λ a. IsAddress a.manifold a.handle a.name) (addresses store)

module _ (uuids : Uuids) (store : Store) (named : IsNamed store) (id : Uuid) (name : Text) where
  abbrev account : Text
  account = uuids.uuid_string store.account_id

  abbrev rows : List Grant
  rows = map to_acl (grants_for store id)

  abbrev refs : List PipeRef
  refs = acl_pipe_refs uuids store

  abbrev access_to : PipeRef → Access
  access_to r = record {
    pipe = r;
    perm = (evaluate (principal_of uuids store id name) (subject_for r store.sources) rows).perm;
  }

  abbrev access : List Access
  access = map access_to refs

  In-access :
      (rs : List PipeRef) (a : Access)
      → In a (map access_to rs)
      → (r : PipeRef) × In r rs × (access_to r ≡ a)
  In-access [] a m = absurd m
  In-access (r ∷ rs) a (inl e) = (r, inl refl, e)
  In-access (r ∷ rs) a (inr m) = let (s, n, e) = In-access rs a m in (s, inr n, e)

  access-In : (rs : List PipeRef) (r : PipeRef) → In r rs → In (access_to r) (map access_to rs)
  access-In [] r m = absurd m
  access-In (s ∷ rs) r (inl e) = inl (ap access_to e)
  access-In (s ∷ rs) r (inr m) = inr (access-In rs r m)

  address_of :
      (r : PipeRef)
      → In r refs
      → (a : Address) × IsAddress a.manifold a.handle a.name × (r ≡ made uuids store a)
  address_of r m =
      let (a, i, e) = listed_from_rows uuids store r m in
      (a, All_at (λ a. IsAddress a.manifold a.handle a.name) a (addresses store) named i, e)

  -- A key that fixes the path fixes the access.
  agree_of_path :
      (key : PipeRef → Text) (f : Access → Bool)
      → ((r s : PipeRef) → In r refs → In s refs → key r ≡ key s → r.path ≡ s.path)
      → AgreeOn (λ a. key a.pipe) f access
  agree_of_path key f same a b i j e =
      let (r, m, u) = In-access refs a i in
      let (s, n, v) = In-access refs b j in
      let keys : key r ≡ key s = ap (λ a. key a.pipe) u ∙ e ∙ sym (ap (λ a. key a.pipe) v) in
      let one : r ≡ s = listed_once uuids store r s m n (same r s m n keys) in
      ap f (sym u ∙ ap access_to one ∙ v)

  same_wire :
      (r s : PipeRef)
      → In r refs
      → In s refs
      → wire_subject r account ≡ wire_subject s account
      → r.path ≡ s.path
  unfolding ref_of
  same_wire r s m n e =
      let (a, k, u) = address_of r m in
      let (b, l, v) = address_of s n in
      ap (λ r. r.path) u
      ∙ path_of_subject uuids store.account_id a.manifold a.handle a.name b.manifold b.handle b.name
          k l
          (sym (
              ap (λ r. wire_subject r account) u
              ∙ wire_lem uuids store.account_id store refl a.manifold a.handle a.name k)
            ∙ e
            ∙ (ap (λ r. wire_subject r account) v
                ∙ wire_lem uuids store.account_id store refl b.manifold b.handle b.name l))
      ∙ sym (ap (λ r. r.path) v)

  All-access :
      (P : PipeRef → Type 0) (rs : List PipeRef)
      → ((r : PipeRef) → In r rs → P r)
      → All (λ a. P a.pipe) (map access_to rs)
  All-access P [] h = tt
  All-access P (r ∷ rs) h = (h r (inl refl), All-access P rs (λ s m. h s (inr m)))

  ref-IsWire_of : (r : PipeRef) → In r refs → IsWire account r
  ref-IsWire_of r m =
      let (a, k, e) = address_of r m in
      subst (IsWire account) (sym e)
        (ref-IsWire uuids store.account_id store refl a.manifold a.handle a.name k)

  access-IsNetwork : IsNetwork account access
  access-IsNetwork = record {
    account = account-IsAccount uuids store.account_id;
    not_inbox = account_not_inbox uuids store.account_id;
    each = All-access (IsWire account) refs ref-IsWire_of;
    write_once = agree_of_path (λ r. wire_subject r account) writes same_wire;
    read_once = agree_of_path (λ r. wire_subject r account) reads same_wire;
  }

  granted_access :
      store.name_of id ≡ some name
      → nats_permissions_for uuids store id true ≡ some (compile account access)
  unfolding nats_permissions_for principal_access credential_permissions
  granted_access e = ground (arith, e)

  module _ (nats : Nats) (known : store.name_of id ≡ some name) (r : PipeRef) (m : In r refs) where
    abbrev Allowed : Perm → Type 0
    Allowed = Allows (principal_of uuids store id name) (subject_for r store.sources) rows

    -- In an enforcing org whose pipes have accepted names, every known user gets a credential,
    -- and it permits publishing on a listed pipe's subject exactly when the relation Allows lets
    -- the user write to that pipe.
    pub credential-writes :
        (perms : Permissions) × (nats_permissions_for uuids store id true ≡ some perms)
        × ((permits_pub nats perms (wire_subject r account) ≡ true) ↔ Allowed write)
    credential-writes =
        let same =
          compile-permits_write nats account access (access_to r) access-IsNetwork
            (access-In refs r m) in
        let held =
          effective_iff (principal_of uuids store id name) (subject_for r store.sources) rows write
            (inr (inl refl)) in
        (compile account access, granted_access known, rw same held)

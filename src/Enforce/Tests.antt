-- ===== src/Enforce/Tests.antt =====
-- The theorems on the enforcement wiring, applied to an account with a handle and a shared pipe.
use ppz.Base.{
  ◌≡◌, refl, ◌≢◌, ◌↔◌, ◌⊎◌, inl, inr, true, some, [], ◌∷◌, map, In, Text, utf8, text_eq, split,
  arith,
}
use ppz.Acl.Perm.{read, write}
use ppz.Acl.Model.{Principal, org_none, org_member}
use ppz.Acl.Evaluate.Allows.{Allows}
use ppz.Acl.Compile.{PipeRef, Permissions, wire_subject}
use ppz.Acl.Compile.Nats.{Nats, subsumes, permits_pub}
use ppz.Natsubj.Names.{IsHandle}
use ppz.Natsubj.Builders.{presence_pipe, build_subject, build_stream_name}
use ppz.Natsubj.Paths.{IsAddress}
use ppz.Enforce.{
  Source, kind_message, Store, auto_pipes, pipe_path, ref_of, to_acl, grants_for, subject_for,
  principal_of, acl_pipe_refs, nats_permissions_for, add_ref, add_names, add_sources,
  add_uncollared,
}
use ppz.Enforce.Refs.{Address, addresses, path_of, listed_path_iff}
use ppz.Enforce.Credential.{IsNamed, credential-writes}
use ppz.Enforce.Collar.{last_row-Allows}
use ppz.Natsubj.Decimal.{digits, decimal}

abbrev server : Nats
server = record {
  covers = λ pattern subject. subsumes (split pattern b'.') (split subject b'.');
  covers_law = λ pattern subject. refl;
}

abbrev bob : Source
bob = record {
  manifold = [];
  handle = utf8 "bob";
  kind = kind_message;
  created_by_user_id = 8;
  rows = utf8 "log" ∷ [];
}

-- A later row of another user: the same handle in a manifold.
abbrev other_bob : Source
other_bob = record {
  manifold = utf8 "ns";
  handle = utf8 "bob";
  kind = kind_message;
  created_by_user_id = 7;
  rows = [];
}

abbrev store : Store
store = record {
  account_id = 5;
  owner = some 1;
  role_of = λ u. some (utf8 "member");
  name_of = λ u. some (utf8 "alice");
  sources = bob ∷ [];
  uncollared = ([], utf8 "memo") ∷ [];
  grants = [];
}

names-IsHandle :
    IsHandle (utf8 "bob") × IsHandle (utf8 "log") × IsHandle (utf8 "memo") × IsHandle (utf8 "inbox")
unfolding utf8
names-IsHandle = (ground arith, ground arith, ground arith, ground arith)

no_presence :
    (utf8 "log" ≢ presence_pipe) × (utf8 "memo" ≢ presence_pipe) × (utf8 "inbox" ≢ presence_pipe)
unfolding utf8 presence_pipe
no_presence = (λ e. cc, λ e. cc, λ e. cc)

root-IsAddress :
    (h n : Text) → (h ≡ []) ⊎ IsHandle h → IsHandle n → n ≢ presence_pipe → IsAddress [] h n
root-IsAddress h n k l p = record {
  segments = inl refl;
  collar = k;
  pipe = l;
  owned = λ e. absurd (p e);
}

store-IsNamed : IsNamed store
unfolding auto_pipes utf8
store-IsNamed =
    let (bob, log, memo, inbox) = names-IsHandle in
    (
      root-IsAddress _ _ (inr bob) inbox no_presence.2,
      (
        root-IsAddress _ _ (inr bob) log no_presence.0,
        (root-IsAddress _ _ (inl refl) memo no_presence.1, tt),
      ),
    )

memo_full : utf8 "memo" ≢ []
unfolding utf8
memo_full e = cc

listed_path_iff_example :
    ((r : PipeRef) × In r (acl_pipe_refs decimal store) × (r.path ≡ utf8 "memo"))
    ↔ ((a : Address) × In a (addresses store) × (path_of a ≡ utf8 "memo"))
listed_path_iff_example = listed_path_iff decimal store (utf8 "memo") memo_full

abbrev log_ref : PipeRef
log_ref = ref_of decimal store [] (utf8 "bob") (utf8 "log")

log_listed : In log_ref (acl_pipe_refs decimal store)
unfolding acl_pipe_refs add_sources add_uncollared add_names add_ref auto_pipes utf8 text_eq
    pipe_path ref_of build_subject build_stream_name
log_listed = inr (inl refl)

credential-writes_example :
    (perms : Permissions) × (nats_permissions_for decimal store 7 true ≡ some perms)
    × ((permits_pub server perms (wire_subject log_ref (digits 36 5)) ≡ true)
        ↔ Allows
            (principal_of decimal store 7 (utf8 "alice"))
            (subject_for log_ref (bob ∷ []))
            (map to_acl (grants_for store 7))
            write)
credential-writes_example =
    credential-writes decimal store store-IsNamed 7 (utf8 "alice") server refl log_ref log_listed

abbrev at_root : PipeRef
at_root = record { path = utf8 "bob.inbox"; subject = []; stream = [] }

abbrev alice : Principal
alice = record { id = 7; name = utf8 "alice"; org_role = org_member }

at_root_parts : split (utf8 "bob.inbox") b'.' ≡ utf8 "bob" ∷ utf8 "inbox" ∷ []
unfolding utf8 split
at_root_parts = refl

has_role : org_member ≢ org_none
unfolding org_member org_none utf8
has_role e = cc

bob_full : utf8 "bob" ≢ []
unfolding utf8
bob_full e = cc

abbrev eve : Source
eve = record {
  manifold = [];
  handle = utf8 "eve";
  kind = kind_message;
  created_by_user_id = 9;
  rows = [];
}

eve_not_bob : utf8 "eve" ≢ utf8 "bob"
unfolding utf8
eve_not_bob e = ground arith

last_row-Allows_example : Allows alice (subject_for at_root (bob ∷ other_bob ∷ eve ∷ [])) [] read
last_row-Allows_example =
    last_row-Allows at_root (utf8 "bob") (utf8 "inbox") [] at_root_parts alice [] (bob ∷ [])
      (eve ∷ []) other_bob read (eve_not_bob, tt) refl bob_full refl (λ e. absurd (omega arith))
      has_role

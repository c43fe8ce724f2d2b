-- ===== src/Enforce.antt =====
-- internal/server/acl_enforce.go, credential.go and role.go, and the rows of internal/db that they read:
-- a principal's access to every pipe of an account, and the credential it compiles to.
pub mod Refs
pub mod Addresses
pub mod Tokens
pub mod Credential
pub mod Collar
mod Tests
use ppz.Base.{
  ◌≡◌, Bool, true, false, not, ◌&&◌, ◌||◌, Option, none, some, List, [], ◌∷◌, ◌++◌, map, filter,
  if◌then◌else◌, nat_eq, any, Text, utf8, text_eq, split, last_or, Time,
}
use ppz.Acl.Perm.{Perm, read, write, admin}
use ppz.Acl.Model.{
  Uuid, uuid_nil, everyone_id, OrgRole, org_none, org_member, org_admin, org_owner, Principal,
  Subject, Grant,
}
use ppz.Acl.Evaluate.{evaluate}
use ppz.Acl.Compile.{PipeRef, Access, Permissions, compile, unrestricted}
use ppz.Natsubj.Uuids.{Uuids}
use ppz.Natsubj.Builders.{build_subject, build_stream_name}

-- `type SourceKind string`; any kind but a terminal's is a message source.
pub data SourceKind : Type 0 where
  kind_message kind_pty : SourceKind

-- A row of `sources` with the names of its rows in `pipes`.
pub record Source : Type 0 where
  pub manifold : Text
  pub handle : Text
  pub kind : SourceKind
  pub created_by_user_id : Uuid
  pub rows : List Text

unfoldable pub auto_pipes : Source → List Text
unfolding utf8
auto_pipes src = elim src.kind [
  | kind_pty ↦
      utf8 "stdin"
      ∷ utf8 "stdout"
      ∷ utf8 "stdctrl"
      ∷ utf8 "system"
      ∷ utf8 "inbox"
      ∷ utf8 "heartbeat"
      ∷ []
  | kind_message ↦ utf8 "inbox" ∷ []
]

unfoldable pub is_auto_pipe : Source → Text → Bool
is_auto_pipe src name = any (λ p. text_eq p name) (auto_pipes src)

-- A row of `acl_grants`, joined with the names.
pub record AclGrant : Type 0 where
  pub principal_id : Uuid
  pub principal_name : Text
  pub selector : Text
  pub perm : Text
  pub granted_by_name : Text
  pub created_at : Time

unfoldable pub perm_of_text : Text → Perm
perm_of_text t =
    if text_eq t (utf8 "read")
    then read
    else if text_eq t (utf8 "write")
    then write
    else if text_eq t (utf8 "admin")
    then admin
    else 0

unfoldable pub to_acl : AclGrant → Grant
to_acl g = record {
  principal_id = g.principal_id;
  principal = g.principal_name;
  selector = g.selector;
  perm = perm_of_text g.perm;
  granted_by = g.granted_by_name;
  created_at = g.created_at;
}

-- What the database holds of one account. `owner` is missing with the account.
pub record Store : Type 0 where
  pub account_id : Uuid
  pub owner : Option Uuid
  pub role_of : Uuid → Option Text
  pub name_of : Uuid → Option Text
  pub sources : List Source
  pub uncollared : List (Text × Text)
  pub grants : List AclGrant

unfoldable pub role_in_org : Store → Uuid → OrgRole
role_in_org store user_id =
    if nat_eq user_id uuid_nil || nat_eq store.account_id uuid_nil
    then org_none
    else elim store.owner [
      | none ↦ org_none
      | some owner_id ↦
          if nat_eq owner_id user_id then org_owner else elim (store.role_of user_id) [
            | none ↦ org_none
            | some role ↦
                if text_eq role org_admin
                then org_admin
                else if text_eq role org_owner
                then org_admin
                else org_member
          ]
    ]

-- The rows of one principal and of everyone.
unfoldable pub grants_for : Store → Uuid → List AclGrant
grants_for store id =
    filter (λ g. nat_eq g.principal_id id || nat_eq g.principal_id everyone_id) store.grants

unfoldable pub pipe_path : Text → Text → Text → Text
pipe_path manifold handle name =
    let path = if not (text_eq handle []) then handle ++ b'.' ∷ name else name in
    if not (text_eq manifold []) then manifold ++ b'.' ∷ path else path

-- `sources[handle] = src` over the rows: the last row with the handle is the one that is found.
unfoldable pub find_source : List Source → Text → Option Source
find_source [] handle = none
find_source (src ∷ more) handle =
    let later = find_source more handle in
    elim later [
      | some found ↦ some found
      | none ↦ if text_eq src.handle handle then some src else none
    ]

-- `splitPath`, with the part since the last dot so far.
unfoldable pub split_path_from : Text → Text → List Text
split_path_from part [] = part ∷ []
split_path_from part (c ∷ p) = elim (nat_eq c b'.') [
  | true ↦ part ∷ split_path_from [] p
  | false ↦ split_path_from (part ++ c ∷ []) p
]

unfoldable pub split_path : Text → List Text
unfolding split_path_from
split_path p = split_path_from [] p

-- `split` at the dots stands for `splitPath` here.
unfoldable pub subject_for : PipeRef → List Source → Subject
unfolding find_source
subject_for ref sources =
    let parts = split ref.path b'.' in
    let name = last_or parts [] in
    let shared : Subject = record { path = ref.path; collar = []; name = name; owner = uuid_nil } in
    elim parts [
      | [] ↦ shared
      | first ∷ rest ↦ elim rest [
        | [] ↦ shared
        | _ ∷ _ ↦ elim (find_source sources first) [
          | none ↦ shared
          | some src ↦ record {
            path = ref.path;
            collar = src.handle;
            name = name;
            owner = src.created_by_user_id;
          }
        ]
      ]
    ]

-- `resolveSubject`, with the row that the database gives for a handle; `none` is the error of an empty
-- path.
unfoldable pub resolve_subject : (Text → Option Source) → Text → Option Subject
resolve_subject get_source_by_handle path =
    if text_eq path []
    then none
    else let parts = split path b'.' in
      let name = last_or parts [] in
      let shared : Subject = record { path = path; collar = []; name = name; owner = uuid_nil } in
      elim parts [
        | [] ↦ some shared
        | first ∷ rest ↦ elim rest [
          | [] ↦ some shared
          | _ ∷ _ ↦ elim (get_source_by_handle first) [
            | none ↦ some shared
            | some src ↦ some (record {
              path = path;
              collar = src.handle;
              name = name;
              owner = src.created_by_user_id;
            })
          ]
        ]
      ]

module _ (uuids : Uuids) (store : Store) where
  unfoldable pub ref_of : Text → Text → Text → PipeRef
  ref_of manifold handle name = record {
    path = pipe_path manifold handle name;
    subject = build_subject uuids store.account_id manifold handle name;
    stream = build_stream_name uuids store.account_id manifold handle name;
  }

  -- The closure `add`, whose `seen` is the paths of `out`.
  unfoldable pub add_ref : List PipeRef → Text → Text → Text → List PipeRef
  unfolding ref_of
  add_ref out manifold handle name =
      let ref = ref_of manifold handle name in
      if text_eq ref.path [] || any (λ r. text_eq r.path ref.path) out then out else out ++ ref ∷ []

  unfoldable pub add_names : List PipeRef → Text → Text → List Text → List PipeRef
  unfolding add_ref
  add_names out manifold handle [] = out
  add_names out manifold handle (name ∷ names) =
      add_names (add_ref out manifold handle name) manifold handle names

  unfoldable pub add_sources : List PipeRef → List Source → List PipeRef
  unfolding add_names
  add_sources out [] = out
  add_sources out (src ∷ more) =
      add_sources
        (add_names (add_names out src.manifold src.handle (auto_pipes src)) src.manifold src.handle
          src.rows)
        more

  unfoldable pub add_uncollared : List PipeRef → List (Text × Text) → List PipeRef
  unfolding add_ref
  add_uncollared out [] = out
  add_uncollared out ((manifold, name) ∷ more) = add_uncollared (add_ref out manifold [] name) more

  unfoldable pub acl_pipe_refs : List PipeRef
  unfolding add_sources add_uncollared
  acl_pipe_refs = add_uncollared (add_sources [] store.sources) store.uncollared

  abbrev pub principal_of : Uuid → Text → Principal
  principal_of id name = record { id = id; name = name; org_role = role_in_org store id }

  -- `principalAccess`, where `none` is the error of a missing user.
  unfoldable pub principal_access : Uuid → Option (List Access)
  principal_access id = elim (store.name_of id) [
    | none ↦ none
    | some name ↦ some (
        map
          (λ ref. record {
            pipe = ref;
            perm =
                (evaluate (principal_of id name) (subject_for ref store.sources)
                  (map to_acl (grants_for store id))).perm;
          })
          acl_pipe_refs)
  ]

  unfoldable pub credential_permissions : Bool → Text → List Access → Permissions
  credential_permissions enforced account_id access =
      if not enforced then unrestricted else compile account_id access

  unfoldable pub nats_permissions_for : Uuid → Bool → Option Permissions
  unfolding credential_permissions principal_access
  nats_permissions_for id enforced =
      if not enforced
      then some (credential_permissions false (uuids.uuid_string store.account_id) [])
      else elim (principal_access id) [
        | none ↦ none
        | some access ↦
            some (credential_permissions true (uuids.uuid_string store.account_id) access)
      ]

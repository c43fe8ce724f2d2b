-- ===== src/Acl/Model.antt =====
-- internal/acl/acl.go: roles, principals, pipes, grants and decisions.
use Prim.Native.Nat.{bit_or}
use ppz.Base.{
  ℕ, Time, Bool, false, not, ◌||◌, Option, none, some, [], if◌then◌else◌, nat_eq, leb, Text, utf8,
  text_eq,
}
use ppz.Acl.Perm.{Perm, has_bit}
use ppz.Acl.Selector.{Selector}

-- A UUID is its 16 bytes, read as a number; `uuid.Nil` is 0.
abbrev pub Uuid : Type 0
Uuid = ℕ

abbrev pub uuid_nil : Uuid
uuid_nil = 0

-- 00000000-0000-0000-0000-000000000002
abbrev pub everyone_id : Uuid
everyone_id = 2

-- `type OrgRole string`: any text may stand in the role column.
abbrev pub OrgRole : Type 0
OrgRole = Text

unfoldable pub org_none : OrgRole
org_none = []

unfoldable pub org_member : OrgRole
unfolding utf8
org_member = utf8 "member"

unfoldable pub org_admin : OrgRole
unfolding utf8
org_admin = utf8 "admin"

unfoldable pub org_owner : OrgRole
unfolding utf8
org_owner = utf8 "owner"

unfoldable pub role_rank : OrgRole → ℕ
role_rank r =
    if text_eq r org_owner
    then 3
    else if text_eq r org_admin
    then 2
    else if text_eq r org_member
    then 1
    else 0

unfoldable pub at_least : OrgRole → OrgRole → Bool
unfolding role_rank
at_least r min = if nat_eq (role_rank r) 0 then false else leb (role_rank min) (role_rank r)

unfoldable pub can_administer_org : OrgRole → Bool
can_administer_org r = text_eq r org_owner || text_eq r org_admin

pub record Principal : Type 0 where
  pub id : Uuid
  pub name : Text
  pub org_role : OrgRole

pub record Subject : Type 0 where
  pub path : Text
  pub collar : Text
  pub name : Text
  pub owner : Uuid

pub record Grant : Type 0 where
  pub principal_id : Uuid
  pub principal : Text
  pub selector : Selector
  pub perm : Perm
  pub granted_by : Text
  pub created_at : Time

-- `type ReasonKind string`, whose values are these constants.
pub data ReasonKind : Type 0 where
  reason_none reason_default reason_grant reason_handle_owner : ReasonKind
  reason_org_role reason_key_scope : ReasonKind

abbrev pub kind_rank : ReasonKind → ℕ
kind_rank reason_org_role = 4
kind_rank reason_grant = 3
kind_rank reason_handle_owner = 2
kind_rank reason_default = 1
kind_rank _ = 0

pub record Reason : Type 0 where
  pub kind : ReasonKind
  pub grant : Option Grant
  pub detail : Text

abbrev pub no_reason : Reason
no_reason = record { kind = reason_none; grant = none; detail = [] }

unfoldable pub label : Reason → Text
unfolding utf8
label r = elim r.kind [
  | reason_default ↦ utf8 "default"
  | reason_grant ↦ utf8 "grant"
  | reason_handle_owner ↦ utf8 "handle owner"
  | reason_org_role ↦ utf8 "org role"
  | reason_key_scope ↦ utf8 "key scope"
  | reason_none ↦ []
]

-- `Why` is a map; one that is nil reads as one that is empty.
abbrev pub WhyMap : Type 0
WhyMap = Perm → Option Reason

pub record Decision : Type 0 where
  pub perm : Perm
  pub why : WhyMap

abbrev pub no_decision : Decision
no_decision = record { perm = 0; why = λ _. none }

unfoldable pub has : Decision → Perm → Bool
has d p = has_bit d.perm p

unfoldable pub reason : Decision → Perm → Reason
reason d p = elim (d.why p) [ none ↦ no_reason | some r ↦ r ]

abbrev pub set_why : WhyMap → Perm → Reason → WhyMap
set_why why p r q = if nat_eq q p then some r else why q

-- The explanation that survives: the new one, unless the old one is at least as specific.
unfoldable pub keep_why : Option Reason → Reason → Reason
keep_why none r = r
keep_why (some old) r = if leb (kind_rank r.kind) (kind_rank old.kind) then old else r

unfoldable pub allow : Decision → Perm → Reason → Decision
unfolding keep_why
allow d p r = record { perm = bit_or d.perm p; why = set_why d.why p (keep_why (d.why p) r) }

unfoldable pub deny : Decision → Perm → Text → Decision
deny d p detail = if has_bit d.perm p then d else record d {
  why = set_why d.why p (record { kind = reason_none; grant = none; detail = detail });
}

unfoldable pub can_see_roster : Decision → Bool
can_see_roster d = not (nat_eq d.perm 0)

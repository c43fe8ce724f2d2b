-- ===== src/Acl/Evaluate.antt =====
-- internal/acl/acl.go: `Evaluate`, the default table and the texts of a denial.
pub mod Bits
pub mod Allows
pub mod Why
pub mod Provenance
use ppz.Base.{
  Bool, not, ◌&&◌, some, none, List, [], ◌∷◌, ◌++◌, if◌then◌else◌, nat_eq, Text, utf8, text_eq,
}
use ppz.Acl.Perm.{Perm, read, write, admin, caps, expand}
use ppz.Acl.Selector.{match}
use ppz.Acl.Model.{
  uuid_nil, everyone_id, org_none, can_administer_org, Principal, Subject, Grant, Reason,
  reason_default, reason_grant, reason_handle_owner, reason_org_role, Decision, no_decision, allow,
  deny,
}

-- The default table, one entry a capability.
unfoldable pub defaults_for : Subject → List (Perm × Text)
defaults_for s =
    if text_eq s.collar []
    then (read, utf8 "default — org-shared space") ∷ (write, utf8 "default — org-shared space") ∷ []
    else if text_eq s.name (utf8 "inbox")
    then (write, utf8 "default — inbox is write-open") ∷ []
    else if text_eq s.name (utf8 "heartbeat")
    then (read, utf8 "default — presence is read-open") ∷ []
    else []

unfoldable pub denial_detail : Subject → Perm → Text
denial_detail s p =
    if text_eq s.collar []
    then utf8 "no grant"
    else if text_eq s.name (utf8 "inbox") && nat_eq p read
    then utf8 "no grant; only the handle owner may read an inbox"
    else if text_eq s.name (utf8 "heartbeat") && nat_eq p write
    then utf8 "no grant; only the handle owner may publish its heartbeat"
    else if nat_eq p admin
    then utf8 "not the handle owner, not an org admin"
    else utf8 "no grant; pipes under a handle are owner-only by default"

-- The loops that allow, or deny, one capability after another.
unfoldable pub allow_all : Reason → List Perm → Decision → Decision
allow_all r [] d = d
allow_all r (p ∷ ps) d = allow_all r ps (allow d p r)

unfoldable pub allow_defaults : List (Perm × Text) → Decision → Decision
allow_defaults [] d = d
allow_defaults ((p, detail) ∷ rest) d =
    allow_defaults rest
      (allow d p (record { kind = reason_default; grant = none; detail = detail }))

unfoldable pub deny_all : (Perm → Text) → List Perm → Decision → Decision
deny_all detail [] d = d
deny_all detail (p ∷ ps) d = deny_all detail ps (deny d p (detail p))

abbrev pub org_reason : Principal → Reason
org_reason p = record { kind = reason_org_role; grant = none; detail = utf8 "org " ++ p.org_role }

abbrev pub owner_reason : Reason
owner_reason = record { kind = reason_handle_owner; grant = none; detail = utf8 "handle owner" }

abbrev pub grant_reason : Grant → Reason
grant_reason g = record {
  kind = reason_grant;
  grant = some g;
  detail = utf8 "grant by " ++ g.granted_by;
}

-- One round of the loop over the grants, and the loop.
unfoldable pub apply_grant : Principal → Subject → Grant → Decision → Decision
apply_grant p s g d =
    if not (nat_eq g.principal_id p.id) && not (nat_eq g.principal_id everyone_id)
    then d
    else if not (match g.selector s.path)
    then d
    else allow_all (grant_reason g) (expand g.perm) d

unfoldable pub apply_grants : Principal → Subject → List Grant → Decision → Decision
apply_grants p s [] d = d
apply_grants p s (g ∷ gs) d = apply_grants p s gs (apply_grant p s g d)

unfoldable pub owns : Principal → Subject → Bool
owns p s = not (text_eq s.collar []) && not (nat_eq s.owner uuid_nil) && nat_eq s.owner p.id

unfoldable pub evaluate : Principal → Subject → List Grant → Decision
evaluate p s grants =
    if text_eq p.org_role org_none
    then deny_all (λ _. utf8 "not a member of this org") caps no_decision
    else if can_administer_org p.org_role
    then allow_all (org_reason p) caps no_decision
    else let start =
        if owns p s
        then allow_all owner_reason caps no_decision
        else allow_defaults (defaults_for s) no_decision in
      deny_all (denial_detail s) caps (apply_grants p s grants start)

-- ===== src/Acl/Evaluate/Bits.antt =====
-- The capability set that the loops of `Evaluate` leave, one capability at a time.
use ppz.Base.{
  ◌<◌, ◌≡◌, refl, ap, ◌∙◌, inl, inr, Bool, true, false, not, ◌&&◌, ◌||◌, List, [], ◌∷◌, arith,
  if◌then◌else◌, nat_eq, In, All, any, Text, text_eq, utf8,
}
use ppz.Acl.Perm.{Perm, read, write, caps, expand, has_bit, has_bit-or, bit_or-lt, has_bit-zero}
use ppz.Acl.Selector.{match}
use ppz.Acl.Model.{
  everyone_id, org_none, can_administer_org, Principal, Subject, Grant, Reason, Decision,
  no_decision, has, allow, deny,
}
use ppz.Acl.Evaluate.{
  defaults_for, denial_detail, allow_all, allow_defaults, deny_all, apply_grant, apply_grants, owns,
  evaluate, grant_reason, org_reason, owner_reason,
}

abbrev pub Fits : Decision → Type 0
Fits d = d.perm < 8

abbrev pub AreCaps : List Perm → Type 0
AreCaps = All (λ p. In p caps)

abbrev pub listed : Perm → List Perm → Bool
listed c ps = any (λ p. nat_eq p c) ps

pub allow-Fits : (d : Decision) (p : Perm) (r : Reason) → In p caps → Fits d → Fits (allow d p r)
unfolding allow
allow-Fits d p r m f = bit_or-lt p d.perm m f

pub has-allow :
    (d : Decision) (p : Perm) (r : Reason) (c : Perm)
    → In p caps
    → In c caps
    → Fits d
    → has (allow d p r) c ≡ (nat_eq p c || has d c)
unfolding allow has
has-allow d p r c m k f = has_bit-or p d.perm c m k f

allow_all-Fits :
    (r : Reason) (ps : List Perm) (d : Decision) → AreCaps ps → Fits d → Fits (allow_all r ps d)
unfolding allow_all
allow_all-Fits r [] d m f = f
allow_all-Fits r (p ∷ ps) d m f = allow_all-Fits r ps (allow d p r) m.1 (allow-Fits d p r m.0 f)

pub has-allow_all :
    (r : Reason) (ps : List Perm) (d : Decision) (c : Perm)
    → AreCaps ps
    → In c caps
    → Fits d
    → has (allow_all r ps d) c ≡ (listed c ps || has d c)
unfolding allow_all
has-allow_all r [] d c m k f = refl
has-allow_all r (p ∷ ps) d c m k f = ground (
  arith,
  has-allow_all r ps (allow d p r) c m.1 k (allow-Fits d p r m.0 f),
  has-allow d p r c m.0 k f,
)

pub expand-AreCaps : (p : Perm) → AreCaps (expand p)
unfolding expand
expand-AreCaps p = ground arith

abbrev names : Principal → Grant → Bool
names p g = nat_eq g.principal_id p.id || nat_eq g.principal_id everyone_id

-- A grant that names the principal, covers the pipe and carries the capability.
abbrev pub confers : Principal → Subject → Perm → Grant → Bool
confers p s c g = names p g && match g.selector s.path && listed c (expand g.perm)

apply_grant-Fits :
    (p : Principal) (s : Subject) (g : Grant) (d : Decision) → Fits d → Fits (apply_grant p s g d)
unfolding apply_grant
apply_grant-Fits p s g d f =
    ground (arith, allow_all-Fits (grant_reason g) (expand g.perm) d (expand-AreCaps g.perm) f)

has-apply_grant :
    (p : Principal) (s : Subject) (g : Grant) (d : Decision) (c : Perm)
    → In c caps
    → Fits d
    → has (apply_grant p s g d) c ≡ (confers p s c g || has d c)
unfolding apply_grant
has-apply_grant p s g d c k f =
    ground (arith, has-allow_all (grant_reason g) (expand g.perm) d c (expand-AreCaps g.perm) k f)

apply_grants-Fits :
    (p : Principal) (s : Subject) (gs : List Grant) (d : Decision)
    → Fits d
    → Fits (apply_grants p s gs d)
unfolding apply_grants
apply_grants-Fits p s [] d f = f
apply_grants-Fits p s (g ∷ gs) d f =
    apply_grants-Fits p s gs (apply_grant p s g d) (apply_grant-Fits p s g d f)

pub has-apply_grants :
    (p : Principal) (s : Subject) (gs : List Grant) (d : Decision) (c : Perm)
    → In c caps
    → Fits d
    → has (apply_grants p s gs d) c ≡ (any (confers p s c) gs || has d c)
unfolding apply_grants
has-apply_grants p s [] d c k f = refl
has-apply_grants p s (g ∷ gs) d c k f = ground (
  arith,
  has-apply_grants p s gs (apply_grant p s g d) c k (apply_grant-Fits p s g d f),
  has-apply_grant p s g d c k f,
)

perm-deny_all :
    (detail : Perm → Text) (ps : List Perm) (d : Decision) → (deny_all detail ps d).perm ≡ d.perm
unfolding deny_all deny
perm-deny_all detail [] d = refl
perm-deny_all detail (p ∷ ps) d = perm-deny_all detail ps (deny d p (detail p)) ∙ ground arith

pub has-deny_all :
    (detail : Perm → Text) (ps : List Perm) (d : Decision) (c : Perm)
    → has (deny_all detail ps d) c ≡ has d c
unfolding has
has-deny_all detail ps d c = ap (λ b. has_bit b c) (perm-deny_all detail ps d)

-- The capabilities of the default table.
abbrev pub by_default : Subject → Perm → Bool
by_default s c =
    if text_eq s.collar []
    then nat_eq read c || nat_eq write c
    else if text_eq s.name (utf8 "inbox")
    then nat_eq write c
    else if text_eq s.name (utf8 "heartbeat")
    then nat_eq read c
    else false

read-In : In read caps
read-In = inl refl

write-In : In write caps
write-In = inr (inl refl)

defaults-Fits : (s : Subject) → Fits (allow_defaults (defaults_for s) no_decision)
unfolding defaults_for allow_defaults allow
defaults-Fits s = ground (arith, bit_or-lt read 0 read-In, bit_or-lt write 0 write-In)

has-defaults :
    (s : Subject) (c : Perm)
    → In c caps
    → has (allow_defaults (defaults_for s) no_decision) c ≡ by_default s c
unfolding defaults_for allow_defaults allow has
has-defaults s c k = ground (
  arith,
  has_bit-or read 0 c read-In k,
  has_bit-or write 0 c write-In k,
  has_bit-or write 1 c write-In k,
  has_bit-zero c k,
)

pub caps-AreCaps : AreCaps caps
caps-AreCaps = (inl refl, (inr (inl refl), (inr (inr (inl refl)), tt)))

pub listed-caps : (c : Perm) → In c caps → listed c caps ≡ true
listed-caps c k = ground arith

pub has-no_decision : (c : Perm) → In c caps → has no_decision c ≡ false
unfolding has
has-no_decision c k = has_bit-zero c k

-- What holds before the grants are read.
unfoldable pub start : Principal → Subject → Decision
start p s =
    if owns p s
    then allow_all owner_reason caps no_decision
    else allow_defaults (defaults_for s) no_decision

pub start-Fits : (p : Principal) (s : Subject) → Fits (start p s)
unfolding start
start-Fits p s = ground (
  arith,
  defaults-Fits s,
  allow_all-Fits owner_reason caps no_decision caps-AreCaps (omega arith),
)

pub has-start :
    (p : Principal) (s : Subject) (c : Perm)
    → In c caps
    → has (start p s) c ≡ (owns p s || by_default s c)
unfolding start
has-start p s c k = ground (
  arith,
  has-defaults s c k,
  has-allow_all owner_reason caps no_decision c caps-AreCaps k (omega arith),
  listed-caps c k,
)

-- The whole decision as one Boolean.
pub has-evaluate :
    (p : Principal) (s : Subject) (gs : List Grant) (c : Perm)
    → In c caps
    → has (evaluate p s gs) c ≡ (
        not (text_eq p.org_role org_none)
        && (can_administer_org p.org_role || owns p s || by_default s c || any (confers p s c) gs))
unfolding evaluate start
has-evaluate p s gs c k = ground (
  arith,
  has-deny_all (λ _. utf8 "not a member of this org") caps no_decision c,
  has-no_decision c k,
  has-allow_all (org_reason p) caps no_decision c caps-AreCaps k (omega arith),
  listed-caps c k,
  has-deny_all (denial_detail s) caps (apply_grants p s gs (start p s)) c,
  has-apply_grants p s gs (start p s) c k (start-Fits p s),
  has-start p s c k,
)

pub evaluate-Fits : (p : Principal) (s : Subject) (gs : List Grant) → Fits (evaluate p s gs)
unfolding evaluate start
evaluate-Fits p s gs = ground (
  arith,
  perm-deny_all (λ _. utf8 "not a member of this org") caps no_decision,
  allow_all-Fits (org_reason p) caps no_decision caps-AreCaps (omega arith),
  perm-deny_all (denial_detail s) caps (apply_grants p s gs (start p s)),
  apply_grants-Fits p s gs (start p s) (start-Fits p s),
)

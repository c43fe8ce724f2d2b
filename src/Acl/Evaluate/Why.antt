-- ===== src/Acl/Evaluate/Why.antt =====
-- The explanation that `Evaluate` gives for each capability, held or not.
use ppz.Base.{
  subst, ◌≡◌, refl, sym, ap, ◌∙◌, inl, inr, true, not, ◌&&◌, ◌||◌, Option, none, some, ◌≤◌, List,
  [], ◌∷◌, arith, if◌then◌else◌, nat_eq, In, any, find, any_of_find-none, any_of_find-some,
  Option-cases, Text, text_eq, utf8, Bool-cases,
}
use ppz.Acl.Perm.{Perm, caps, expand}
use ppz.Acl.Model.{
  org_none, can_administer_org, Principal, Subject, Grant, Reason, reason_none, reason_default,
  kind_rank, Decision, no_decision, has, allow, deny, keep_why,
}
use ppz.Acl.Evaluate.{
  defaults_for, denial_detail, allow_all, allow_defaults, deny_all, apply_grant, apply_grants, owns,
  evaluate, grant_reason, org_reason, owner_reason,
}
use ppz.Acl.Evaluate.Bits.{
  listed, confers, by_default, start, listed-caps, has-start, start-Fits, has-apply_grants,
  has-no_decision,
}

keep_why_idem : (w : Option Reason) (r : Reason) → keep_why (some (keep_why w r)) r ≡ keep_why w r
unfolding keep_why
keep_why_idem none r = ground arith
keep_why_idem (some old) r = ground arith

eq_of_test : (p c : Perm) → nat_eq p c ≡ true → p ≡ c
eq_of_test p c h = ground arith

why-allow_self :
    (d : Decision) (c : Perm) (r : Reason) → (allow d c r).why c ≡ some (keep_why (d.why c) r)
unfolding allow
why-allow_self d c r = ground arith

why-allow :
    (d : Decision) (p : Perm) (r : Reason) (c : Perm)
    → (allow d p r).why c ≡ (if nat_eq p c then some (keep_why (d.why c) r) else d.why c)
why-allow d p r c = elim (Bool-cases (nat_eq p c)) [
  | inl e ↦ rw e (rw (eq_of_test p c e) (why-allow_self d c r))
  | inr e ↦ rw e (unfold allow in ground arith)
]

why-allow_all :
    (r : Reason) (ps : List Perm) (d : Decision) (c : Perm)
    → (allow_all r ps d).why c ≡ (if listed c ps then some (keep_why (d.why c) r) else d.why c)
unfolding allow_all
why-allow_all r [] d c = refl
why-allow_all r (p ∷ ps) d c =
    ground (arith, why-allow_all r ps (allow d p r) c, why-allow d p r c, keep_why_idem (d.why c) r)

why-apply_grant :
    (p : Principal) (s : Subject) (g : Grant) (d : Decision) (c : Perm)
    → (apply_grant p s g d).why c
      ≡ (if confers p s c g then some (keep_why (d.why c) (grant_reason g)) else d.why c)
unfolding apply_grant
why-apply_grant p s g d c = ground (arith, why-allow_all (grant_reason g) (expand g.perm) d c)

-- What gives way to a grant: no explanation yet, the default table, or the handle's owner.
abbrev Weak : Option Reason → Type 0
Weak none = Unit
Weak (some r) = kind_rank r.kind ≤ 2

keep_why-Weak :
    (w : Option Reason) (g : Grant) → Weak w → keep_why w (grant_reason g) ≡ grant_reason g
unfolding keep_why
keep_why-Weak none g h = refl
keep_why-Weak (some old) g h = ground arith

keep_why_strong :
    (r : Reason) (g : Grant) → kind_rank r.kind ≡ 3 → keep_why (some r) (grant_reason g) ≡ r
unfolding keep_why
keep_why_strong r g h = ground arith

keep_why-none : (r : Reason) → keep_why none r ≡ r
unfolding keep_why
keep_why-none r = refl

-- Once a grant explains a capability, later rows do not change the explanation.
why-apply_grants_strong :
    (p : Principal) (s : Subject) (gs : List Grant) (d : Decision) (c : Perm) (r : Reason)
    → kind_rank r.kind ≡ 3
    → d.why c ≡ some r
    → (apply_grants p s gs d).why c ≡ some r
unfolding apply_grants
why-apply_grants_strong p s [] d c r k e = e
why-apply_grants_strong p s (g ∷ gs) d c r k e =
    why-apply_grants_strong p s gs (apply_grant p s g d) c r k
      (ground (arith, why-apply_grant p s g d c, keep_why_strong r g k))

-- The first row that confers the capability explains it.
by_first : Option Grant → Option Reason → Option Reason
by_first none w = w
by_first (some g) w = some (grant_reason g)

why-apply_grants :
    (p : Principal) (s : Subject) (gs : List Grant) (d : Decision) (c : Perm)
    → Weak (d.why c)
    → (apply_grants p s gs d).why c ≡ by_first (find (confers p s c) gs) (d.why c)
unfolding apply_grants by_first
why-apply_grants p s [] d c w = refl
why-apply_grants p s (g ∷ gs) d c w = elim (Bool-cases (confers p s c g)) [
  | inl e ↦ rw e (
      why-apply_grants_strong p s gs (apply_grant p s g d) c (grant_reason g) refl
        (why-apply_grant p s g d c ∙ rw e (ap some (keep_why-Weak (d.why c) g w))))
  | inr e ↦
      let step : (apply_grant p s g d).why c ≡ d.why c =
        ground (arith, why-apply_grant p s g d c) in
      rw e (
        why-apply_grants p s gs (apply_grant p s g d) c (subst Weak (sym step) w)
        ∙ ap (by_first (find (confers p s c) gs)) step)
]

-- The text of the default table, and what explains a capability where no row does.
unfoldable pub default_detail : Subject → Text
default_detail s =
    if text_eq s.collar []
    then utf8 "default — org-shared space"
    else if text_eq s.name (utf8 "inbox")
    then utf8 "default — inbox is write-open"
    else utf8 "default — presence is read-open"

abbrev pub default_reason : Subject → Reason
default_reason s = record { kind = reason_default; grant = none; detail = default_detail s }

abbrev pub denied : Text → Reason
denied t = record { kind = reason_none; grant = none; detail = t }

why-defaults :
    (s : Subject) (c : Perm)
    → (allow_defaults (defaults_for s) no_decision).why c
      ≡ (if by_default s c then some (default_reason s) else none)
unfolding allow_defaults defaults_for default_detail allow
why-defaults s c = ground arith

unfoldable pub unexplained : Principal → Subject → Perm → Reason
unexplained p s c =
    if owns p s
    then owner_reason
    else if by_default s c
    then default_reason s
    else denied (denial_detail s c)

-- The explanation, said at once: no membership, then the org's role, then the first row that
-- confers the capability, then the handle's owner, then the default table, then a denial.
unfoldable pub explain : Principal → Subject → List Grant → Perm → Reason
unfolding unexplained default_detail
explain p s gs c =
    if text_eq p.org_role org_none
    then denied (utf8 "not a member of this org")
    else if can_administer_org p.org_role
    then org_reason p
    else elim (find (confers p s c) gs) [ none ↦ unexplained p s c | some g ↦ grant_reason g ]

why-deny_self :
    (d : Decision) (c : Perm) (t : Text)
    → (deny d c t).why c ≡ (if not (has d c) then some (denied t) else d.why c)
unfolding deny has
why-deny_self d c t = ground arith

why-deny :
    (detail : Perm → Text) (d : Decision) (p c : Perm)
    → (deny d p (detail p)).why c
      ≡ (if nat_eq p c && not (has d c) then some (denied (detail c)) else d.why c)
why-deny detail d p c = elim (Bool-cases (nat_eq p c)) [
  | inl e ↦ rw e (rw (eq_of_test p c e) (why-deny_self d c (detail c)))
  | inr e ↦ rw e (unfold deny in ground arith)
]

has-deny : (d : Decision) (p c : Perm) (t : Text) → has (deny d p t) c ≡ has d c
unfolding deny has
has-deny d p c t = ground arith

why-deny_all :
    (detail : Perm → Text) (ps : List Perm) (d : Decision) (c : Perm)
    → (deny_all detail ps d).why c
      ≡ (if listed c ps && not (has d c) then some (denied (detail c)) else d.why c)
unfolding deny_all
why-deny_all detail [] d c = refl
why-deny_all detail (p ∷ ps) d c = ground (
  arith,
  why-deny_all detail ps (deny d p (detail p)) c,
  why-deny detail d p c,
  has-deny d p c (detail p),
)

-- Before the grants are read.
start_why : Principal → Subject → Perm → Option Reason
start_why p s c =
    if owns p s then some owner_reason else if by_default s c then some (default_reason s) else none

why-start :
    (p : Principal) (s : Subject) (c : Perm) → In c caps → (start p s).why c ≡ start_why p s c
unfolding start start_why
why-start p s c k = ground (
  arith,
  why-defaults s c,
  why-allow_all owner_reason caps no_decision c,
  listed-caps c k,
  keep_why-none owner_reason,
)

start_why-Weak : (p : Principal) (s : Subject) (c : Perm) → Weak (start_why p s c)
unfolding start_why
start_why-Weak p s c = ground arith

module _ (p : Principal) (s : Subject) (gs : List Grant) (c : Perm) (k : In c caps) where
  member : Decision
  member = apply_grants p s gs (start p s)

  why-member_before : member.why c ≡ by_first (find (confers p s c) gs) (start_why p s c)
  unfolding member
  why-member_before =
      let e = why-start p s c k in
      why-apply_grants p s gs (start p s) c (subst Weak (sym e) (start_why-Weak p s c))
      ∙ ap (by_first (find (confers p s c) gs)) e

  has-member : has member c ≡ (any (confers p s c) gs || (owns p s || by_default s c))
  unfolding member
  has-member =
      has-apply_grants p s gs (start p s) c k (start-Fits p s)
      ∙ ap (λ b. any (confers p s c) gs || b) (has-start p s c k)

  why-member :
      (deny_all (denial_detail s) caps member).why c
      ≡ some (elim (find (confers p s c) gs) [ none ↦ unexplained p s c | some g ↦ grant_reason g ])
  unfolding unexplained by_first start_why
  why-member = elim (Option-cases (find (confers p s c) gs)) [
    | inl e ↦ rw e (
        ground (
          arith,
          why-deny_all (denial_detail s) caps member c,
          listed-caps c k,
          why-member_before,
          has-member,
          e,
          any_of_find-none (confers p s c) gs e,
        ))
    | inr (g, e) ↦ rw e (
        ground (
          arith,
          why-deny_all (denial_detail s) caps member c,
          listed-caps c k,
          why-member_before,
          has-member,
          e,
          any_of_find-some (confers p s c) gs g e,
        ))
  ]

  -- For each of the three capabilities, the decision stores exactly the explanation of `explain`:
  -- that the principal is not a member where there is no role, else the org role of an owner or
  -- admin, else the first grant that confers the capability, else the handle's ownership, else
  -- the default table, else the text of the denial.
  pub why-evaluate : (evaluate p s gs).why c ≡ some (explain p s gs c)
  unfolding evaluate explain member start
  why-evaluate = ground (
    arith,
    why-member,
    why-deny_all (λ _. utf8 "not a member of this org") caps no_decision c,
    why-allow_all (org_reason p) caps no_decision c,
    keep_why-none (org_reason p),
    has-no_decision c k,
    listed-caps c k,
  )

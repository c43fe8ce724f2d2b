-- ===== src/Acl/Evaluate/Allows.antt =====
-- When a principal may use a pipe, as a relation with no order of evaluation in it.
use ppz.Base.{
  nat_eq_iff, subst, ◌≡◌, refl, sym, ◌∙◌, ◌≢◌, ◌↔◌, ◌⊎◌, inl, inr, Bool, true, false, ◌&&◌, ◌||◌,
  List, [], arith, nat_eq, In, any_iff, Bool-cases, text_eq, text_eq_iff, utf8, split, Bool-ext,
}
use ppz.Acl.Perm.{Perm, read, write, caps, expand, perm_ext, Carries, expand-Carries_iff}
use ppz.Acl.Selector.{match}
use ppz.Acl.Selector.Covers.{NoEmpty, Covers, match_iff}
use ppz.Acl.Model.{
  OrgRole, uuid_nil, everyone_id, org_none, org_admin, org_owner, can_administer_org, Principal,
  Subject, Grant, has,
}
use ppz.Acl.Evaluate.{owns, evaluate}
use ppz.Acl.Evaluate.Bits.{listed, confers, by_default, has-evaluate, evaluate-Fits}

-- The owner of the handle, which is a real principal.
abbrev pub Owns : Principal → Subject → Type 0
Owns p s = (s.collar ≢ []) × (s.owner ≢ uuid_nil) × (s.owner ≡ p.id)

-- The default table: shared space, inboxes that all may write, presence that all may read.
pub data DefaultFor (s : Subject) (c : Perm) : Type 0 where
  shared : s.collar ≡ [] → (c ≡ read) ⊎ (c ≡ write) → DefaultFor s c
  inbox : s.collar ≢ [] → s.name ≡ utf8 "inbox" → c ≡ write → DefaultFor s c
  presence : s.collar ≢ [] → s.name ≡ utf8 "heartbeat" → c ≡ read → DefaultFor s c

-- A grant that counts: it names the principal or everyone, covers the path of the pipe, and
-- carries the capability.
pub record Grants (p : Principal) (s : Subject) (c : Perm) (g : Grant) : Type 0 where
  pub named : (g.principal_id ≡ p.id) ⊎ (g.principal_id ≡ everyone_id)
  pub whole : NoEmpty (split s.path b'.')
  pub covers : Covers (split g.selector b'.') (split s.path b'.')
  pub carries : Carries g.perm c

pub data Allows (p : Principal) (s : Subject) (gs : List Grant) (c : Perm) : Type 0 where
  by_role : (p.org_role ≡ org_owner) ⊎ (p.org_role ≡ org_admin) → Allows p s gs c
  by_handle : p.org_role ≢ org_none → Owns p s → Allows p s gs c
  by_table : p.org_role ≢ org_none → DefaultFor s c → Allows p s gs c
  by_grant : p.org_role ≢ org_none → (g : Grant) → In g gs → Grants p s c g → Allows p s gs c

owns_iff : (p : Principal) (s : Subject) → (owns p s ≡ true) ↔ Owns p s
unfolding owns
owns_iff p s = grind (arith, text_eq_iff s.collar [])

heartbeat_ne_inbox : text_eq (utf8 "heartbeat") (utf8 "inbox") ≡ false
unfolding text_eq utf8
heartbeat_ne_inbox = refl

DefaultFor-by_default : (s : Subject) (c : Perm) → DefaultFor s c → by_default s c ≡ true
DefaultFor-by_default s c (shared e k) = ground (arith, text_eq_iff s.collar [])
DefaultFor-by_default s c (inbox n e k) =
    ground (arith, text_eq_iff s.collar [], text_eq_iff s.name (utf8 "inbox"))
DefaultFor-by_default s c (presence n e k) = ground (
  arith,
  text_eq_iff s.collar [],
  text_eq_iff s.name (utf8 "inbox"),
  text_eq_iff s.name (utf8 "heartbeat"),
  text_eq_iff (utf8 "heartbeat") (utf8 "inbox"),
  heartbeat_ne_inbox,
)

by_default-DefaultFor : (s : Subject) (c : Perm) → by_default s c ≡ true → DefaultFor s c
by_default-DefaultFor s c h = elim (Bool-cases (text_eq s.collar [])) [
  | inl e ↦ shared ((text_eq_iff _ _).0 e) (ground arith)
  | inr n ↦
      let named : s.collar ≢ [] = ground (arith, text_eq_iff s.collar []) in
      elim (Bool-cases (text_eq s.name (utf8 "inbox"))) [
        | inl e ↦ inbox named ((text_eq_iff _ _).0 e) (ground arith)
        | inr m ↦
            presence named (ground (arith, text_eq_iff s.name (utf8 "heartbeat"))) (ground arith)
      ]
]

can_administer_org_iff :
    (r : OrgRole) → (can_administer_org r ≡ true) ↔ ((r ≡ org_owner) ⊎ (r ≡ org_admin))
unfolding can_administer_org
can_administer_org_iff r = grind (arith, text_eq_iff r org_owner, text_eq_iff r org_admin)

listed→In : (c : Perm) (ps : List Perm) → listed c ps ≡ true → In c ps
listed→In c ps h =
    let (q, m, e) = (any_iff (λ p. nat_eq p c) ps).0 h in
    subst (λ q. In q ps) ((nat_eq_iff q c).0 e) m

In→listed : (c : Perm) (ps : List Perm) → In c ps → listed c ps ≡ true
In→listed c ps m = (any_iff (λ p. nat_eq p c) ps).1 (c, m, (nat_eq_iff c c).1 refl)

pub confers-Grants :
    (p : Principal) (s : Subject) (c : Perm) (g : Grant)
    → In c caps
    → confers p s c g ≡ true
    → Grants p s c g
confers-Grants p s c g k h =
    let (whole, covers) = (match_iff g.selector s.path).0 (ground arith) in
    record {
      named = ground arith;
      whole = whole;
      covers = covers;
      carries = (expand-Carries_iff g.perm c k).0 (listed→In c _ (ground arith));
    }

Grants-confers :
    (p : Principal) (s : Subject) (c : Perm) (g : Grant)
    → In c caps
    → Grants p s c g
    → confers p s c g ≡ true
Grants-confers p s c g k h =
    let matched : match g.selector s.path ≡ true =
      (match_iff g.selector s.path).1 (h.whole, h.covers) in
    let held : listed c (expand g.perm) ≡ true =
      In→listed c _ ((expand-Carries_iff g.perm c k).1 h.carries) in
    ground arith

last_of_or :
    (m a b c d : Bool)
    → (m && (a || b || c || d)) ≡ true
    → a ≡ false
    → b ≡ false
    → c ≡ false
    → d ≡ true
last_of_or m a b c d h p q r = ground arith

role_ne_none : (r : OrgRole) → (r ≡ org_owner) ⊎ (r ≡ org_admin) → r ≢ org_none
unfolding org_owner org_admin org_none
role_ne_none r (inl e) n = cc
role_ne_none r (inr e) n = cc

module _ (p : Principal) (s : Subject) (gs : List Grant) (c : Perm) (k : In c caps) where
  evaluate-Allows : has (evaluate p s gs) c ≡ true → Allows p s gs c
  evaluate-Allows h =
      let e = sym (has-evaluate p s gs c k) ∙ h in
      let member : p.org_role ≢ org_none = ground (arith, text_eq_iff p.org_role org_none) in
      elim (Bool-cases (can_administer_org p.org_role)) [
        | inl role ↦ by_role ((can_administer_org_iff _).0 role)
        | inr role ↦ elim (Bool-cases (owns p s)) [
          | inl own ↦ by_handle member ((owns_iff p s).0 own)
          | inr own ↦ elim (Bool-cases (by_default s c)) [
            | inl table ↦ by_table member (by_default-DefaultFor s c table)
            | inr table ↦
                let (g, m, r) =
                  (any_iff (confers p s c) gs).0 (last_of_or _ _ _ _ _ e role own table) in
                by_grant member g m (confers-Grants p s c g k r)
          ]
        ]
      ]

  Allows-evaluate : Allows p s gs c → has (evaluate p s gs) c ≡ true
  Allows-evaluate (by_role r) =
      let role = (can_administer_org_iff p.org_role).1 r in
      ground
        (arith, has-evaluate p s gs c k, role_ne_none p.org_role r, text_eq_iff p.org_role org_none)
  Allows-evaluate (by_handle n o) =
      ground (arith, has-evaluate p s gs c k, (owns_iff p s).1 o, text_eq_iff p.org_role org_none)
  Allows-evaluate (by_table n d) =
      ground (
        arith,
        has-evaluate p s gs c k,
        DefaultFor-by_default s c d,
        text_eq_iff p.org_role org_none,
      )
  Allows-evaluate (by_grant n g m r) =
      let found = (any_iff (confers p s c) gs).1 (g, m, Grants-confers p s c g k r) in
      ground (arith, has-evaluate p s gs c k, found, text_eq_iff p.org_role org_none)

  -- For a capability among read, write and admin, the decision of `Evaluate` holds it exactly
  -- when the relation Allows gives it: by the role of an org owner or admin, or, for whoever has
  -- a role, by owning the handle, by the default table, or by a stored grant that names the
  -- principal or everyone, covers the path and carries the capability.
  pub evaluate_iff : (has (evaluate p s gs) c ≡ true) ↔ Allows p s gs c
  evaluate_iff = (evaluate-Allows, Allows-evaluate)

Allows-mono :
    {p : Principal} {s : Subject} {gs hs : List Grant} {c : Perm}
    → ((g : Grant) → In g gs → In g hs)
    → Allows p s gs c
    → Allows p s hs c
Allows-mono sub (by_role r) = by_role r
Allows-mono sub (by_handle n o) = by_handle n o
Allows-mono sub (by_table n d) = by_table n d
Allows-mono sub (by_grant n g m r) = by_grant n g (sub g m) r

-- If every row of one list of grants is in another, a principal who holds one of the three
-- capabilities under the first list holds it under the second.
pub evaluate_mono :
    (p : Principal) (s : Subject) (gs hs : List Grant) (c : Perm)
    → In c caps
    → ((g : Grant) → In g gs → In g hs)
    → has (evaluate p s gs) c ≡ true
    → has (evaluate p s hs) c ≡ true
evaluate_mono p s gs hs c k sub h =
    (evaluate_iff p s hs c k).1 (Allows-mono sub ((evaluate_iff p s gs c k).0 h))

-- Two lists of grants with the same rows give the same capability set, whatever the order of the
-- rows and however often one is repeated.
pub evaluate-perm_of_same_rows :
    (p : Principal) (s : Subject) (gs hs : List Grant)
    → ((g : Grant) → In g gs ↔ In g hs)
    → (evaluate p s gs).perm ≡ (evaluate p s hs).perm
unfolding has
evaluate-perm_of_same_rows p s gs hs e =
    perm_ext _ _ (evaluate-Fits p s gs) (evaluate-Fits p s hs) λ c k.
      Bool-ext _ _ (evaluate_mono p s gs hs c k (λ g. (e g).0))
        (evaluate_mono p s hs gs c k (λ g. (e g).1))

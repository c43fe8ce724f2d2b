-- ===== src/Acl/Evaluate/Provenance.antt =====
-- What an explanation tells its reader: whether the capability is held, and which row gave it.
use ppz.Base.{
  ◌≡◌, refl, sym, ap, ◌∙◌, ◌≢◌, ◌↔◌, inl, inr, Bool, true, ◌||◌, some, List, arith, In, find,
  find_sound, any_of_find-none, any_of_find-some, Option-cases, Bool-cases,
}
use ppz.Acl.Perm.{Perm, caps, caps_ind, empty_iff, read, write, admin}
use ppz.Acl.Model.{
  Principal, Subject, Grant, reason_none, reason_grant, has, reason, can_see_roster,
}
use ppz.Acl.Evaluate.{evaluate, grant_reason}
use ppz.Acl.Evaluate.Bits.{confers, has-evaluate, evaluate-Fits}
use ppz.Acl.Evaluate.Allows.{Grants, confers-Grants}
use ppz.Acl.Evaluate.Why.{explain, unexplained, why-evaluate}

module _ (p : Principal) (s : Subject) (gs : List Grant) (c : Perm) (k : In c caps) where
  -- The reason reported for a capability is the explanation of `explain`.
  pub reason-evaluate : reason (evaluate p s gs) c ≡ explain p s gs c
  unfolding reason
  reason-evaluate = rw (why-evaluate p s gs c k, reason)

  held-explain : (has (evaluate p s gs) c ≡ true) ↔ ((explain p s gs c).kind ≢ reason_none)
  unfolding explain unexplained
  held-explain = elim (Option-cases (find (confers p s c) gs)) [
    | inl e ↦ rw e (ground (arith, has-evaluate p s gs c k, any_of_find-none (confers p s c) gs e))
    | inr (g, e) ↦
        rw e (ground (arith, has-evaluate p s gs c k, any_of_find-some (confers p s c) gs g e))
  ]

  -- For each of the three capabilities, the decision holds it exactly when the reason that
  -- `Decision.Reason` reports has a kind other than none.
  pub held_iff_explained :
      (has (evaluate p s gs) c ≡ true) ↔ ((reason (evaluate p s gs) c).kind ≢ reason_none)
  held_iff_explained = rw reason-evaluate held-explain

  explain_grant :
      (explain p s gs c).kind ≡ reason_grant
      → (g : Grant) × (explain p s gs c ≡ grant_reason g) × In g gs × Grants p s c g
  unfolding explain unexplained
  explain_grant h = elim (Option-cases (find (confers p s c) gs)) [
    | inl e ↦ absurd (ground (arith, e))
    | inr (g, e) ↦
        let (m, held) = find_sound (confers p s c) gs g e in
        (g, ground (arith, e), m, confers-Grants p s c g k held)
  ]

  -- For each of the three capabilities, a reason of kind grant carries a stored row, and that row
  -- names the principal or everyone, covers the pipe and carries the capability.
  pub reason_grant_sound :
      (reason (evaluate p s gs) c).kind ≡ reason_grant
      → (g : Grant) × ((reason (evaluate p s gs) c).grant ≡ some g) × In g gs × Grants p s c g
  reason_grant_sound h =
      let e = reason-evaluate in
      let (g, same, m, r) = explain_grant (sym (ap (λ r. r.kind) e) ∙ h) in
      (g, ap (λ r. r.grant) (e ∙ same), m, r)

some_cap :
    (f : Perm → Bool)
    → (f read || f write || f admin) ≡ true
    → (c : Perm) × In c caps × (f c ≡ true)
some_cap f h = elim (Bool-cases (f read)) [
  | inl e ↦ (read, inl refl, e)
  | inr r ↦ elim (Bool-cases (f write)) [
    | inl e ↦ (write, inr (inl refl), e)
    | inr w ↦ (admin, inr (inr (inl refl)), ground arith)
  ]
]

cap_some :
    (f : Perm → Bool) (c : Perm) → In c caps → f c ≡ true → (f read || f write || f admin) ≡ true
cap_some f c k h =
    caps_ind (λ c. f c ≡ true → (f read || f write || f admin) ≡ true) (λ h. ground arith)
      (λ h. ground arith) (λ h. ground arith) c k h

-- `CanSeeRoster` holds of a decision of `Evaluate` exactly when one of the three capabilities is
-- held.
pub can_see_roster_iff :
    (p : Principal) (s : Subject) (gs : List Grant)
    → (can_see_roster (evaluate p s gs) ≡ true)
      ↔ ((c : Perm) × In c caps × (has (evaluate p s gs) c ≡ true))
unfolding can_see_roster has
can_see_roster_iff p s gs =
    let d = evaluate p s gs in
    let e = empty_iff d.perm (evaluate-Fits p s gs) in
    (
      λ h. some_cap (has d) (ground (arith, e)),
      λ (c, m, h). ground (arith, e, cap_some (has d) c m h),
    )

-- ===== src/Acl/Tests.antt =====
-- The theorems on internal/acl, applied to a small org.
use ppz.Base.{◌≡◌, refl, ◌↔◌, inl, inr, true, some, List, [], ◌∷◌, In, utf8, text_eq, split}
use ppz.Acl.Perm.{read, write, admin, caps, has_bit, effective, expand}
use ppz.Acl.Selector.{match, match_parts, has_empty, rest_inside, token_any, token_rest}
use ppz.Acl.Selector.Covers.{NoEmpty, Covers, match_iff}
use ppz.Acl.Model.{
  org_none, org_admin, org_owner, can_administer_org, Principal, Subject, Grant, reason_grant, has,
  reason, allow, deny, keep_why,
}
use ppz.Acl.Evaluate.{
  evaluate, defaults_for, denial_detail, allow_all, allow_defaults, deny_all, apply_grant,
  apply_grants, owns,
}
use ppz.Acl.Evaluate.Allows.{Allows, evaluate_iff, evaluate_mono}
use ppz.Acl.Evaluate.Why.{explain, why-evaluate}

match_iff_example : (match (utf8 "bob.**") (utf8 "bob.log") ≡ true) ↔ (
    NoEmpty (split (utf8 "bob.log") b'.')
    × Covers (split (utf8 "bob.**") b'.') (split (utf8 "bob.log") b'.'))
match_iff_example = match_iff (utf8 "bob.**") (utf8 "bob.log")

abbrev alice : Principal
alice = record { id = 7; name = utf8 "alice"; org_role = utf8 "member" }

abbrev bob_log : Subject
bob_log = record { path = utf8 "bob.log"; collar = utf8 "bob"; name = utf8 "log"; owner = 8 }

abbrev to_write : Grant
to_write = record {
  principal_id = 7;
  principal = utf8 "alice";
  selector = utf8 "bob.*";
  perm = write;
  granted_by = utf8 "bob";
  created_at = 0;
}

abbrev elsewhere : Grant
elsewhere = record {
  principal_id = 7;
  principal = utf8 "alice";
  selector = utf8 "carol.*";
  perm = read;
  granted_by = utf8 "carol";
  created_at = 0;
}

abbrev rows : List Grant
rows = elsewhere ∷ to_write ∷ []

abbrev write_cap : In write caps
write_cap = inr (inl refl)

evaluate_iff_example :
    (has (evaluate alice bob_log rows) write ≡ true) ↔ Allows alice bob_log rows write
evaluate_iff_example = evaluate_iff alice bob_log rows write write_cap

writes_log : has (evaluate alice bob_log (to_write ∷ [])) write ≡ true
unfolding has evaluate defaults_for denial_detail allow_all allow_defaults deny_all apply_grant
    apply_grants owns match match_parts has_empty rest_inside token_any token_rest has_bit effective
    org_none can_administer_org org_owner org_admin allow deny keep_why utf8 text_eq split expand
writes_log = refl

evaluate_mono_example : has (evaluate alice bob_log rows) write ≡ true
evaluate_mono_example =
    evaluate_mono alice bob_log (to_write ∷ []) rows write write_cap (λ g m. inr m) writes_log

swapped : {g : Grant} → In g (to_write ∷ elsewhere ∷ []) → In g rows
swapped (inl e) = inr (inl e)
swapped (inr (inl e)) = inl e
swapped (inr (inr e)) = absurd e

swapped_back : {g : Grant} → In g rows → In g (to_write ∷ elsewhere ∷ [])
swapped_back (inl e) = inr (inl e)
swapped_back (inr (inl e)) = inl e
swapped_back (inr (inr e)) = absurd e

why-evaluate_example :
    (evaluate alice bob_log rows).why admin ≡ some (explain alice bob_log rows admin)
why-evaluate_example = why-evaluate alice bob_log rows admin (inr (inr (inl refl)))

granted : (reason (evaluate alice bob_log rows) write).kind ≡ reason_grant
unfolding reason evaluate defaults_for denial_detail allow_all allow_defaults deny_all apply_grant
    apply_grants owns match match_parts has_empty rest_inside token_any token_rest has_bit effective
    org_none can_administer_org org_owner org_admin allow deny keep_why utf8 text_eq split expand
granted = refl

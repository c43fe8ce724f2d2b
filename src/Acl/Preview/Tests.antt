-- ===== src/Acl/Preview/Tests.antt =====
-- The preview of an account with one handle and two members.
use ppz.Base.{inl, ◌≡◌, refl, ◌≢◌, ◌↔◌, true, false, some, [], ◌∷◌, In, utf8, split, text_eq, arith}
use ppz.Acl.Perm.{read}
use ppz.Acl.Model.{Principal, org_member, org_owner, org_admin, has}
use ppz.Acl.Evaluate.{evaluate}
use ppz.Acl.Compile.{PipeRef}
use ppz.Natsubj.Builders.{presence_pipe}
use ppz.Acl.Preview.{SourceRef, PreviewInput, build_preview, collar_of, source_or, last_segment}
use ppz.Acl.Preview.Affected.{Affected, affected_iff, affected-loses}

abbrev bob : Principal
bob = record { id = 8; name = utf8 "bob"; org_role = org_owner }

abbrev alice : Principal
alice = record { id = 7; name = utf8 "alice"; org_role = org_member }

abbrev bob_source : SourceRef
bob_source = record {
  handle = utf8 "bob";
  kind = utf8 "message";
  owner_id = 8;
  owner_is_member = true;
}

abbrev org : PreviewInput
org = record {
  org_owner_id = 8;
  org_owner_is_placeholder = false;
  members = bob ∷ alice ∷ [];
  sources = bob_source ∷ [];
  pipes = record { path = utf8 "bob.log"; subject = []; stream = [] } ∷ [];
}

affected_iff_example : In (utf8 "bob.log") (build_preview org).affected ↔ (
    ((pipe : PipeRef) × In pipe org.pipes × (pipe.path ≡ utf8 "bob.log"))
    × Affected org (utf8 "bob.log"))
affected_iff_example = affected_iff org (utf8 "bob.log")

collar_lem : collar_of (bob_source ∷ []) (utf8 "bob.log") ≡ some bob_source
unfolding collar_of source_or split text_eq utf8
collar_lem = refl

log_name :
    (last_segment (utf8 "bob.log") ≢ presence_pipe)
    × (last_segment (utf8 "bob.log") ≢ utf8 "broadcast")
unfolding split utf8 presence_pipe
log_name = (λ e. cc, λ e. cc)

abbrev log_affected : Affected org (utf8 "bob.log")
log_affected = record {
  source = bob_source;
  collar = collar_lem;
  others = omega arith;
  not_presence = log_name.0;
  not_broadcast = log_name.1;
}

full : utf8 "bob" ≢ []
unfolding utf8
full e = cc

plain_role : (org_member ≢ org_owner) × (org_member ≢ org_admin)
unfolding org_member org_owner org_admin utf8
plain_role = (λ e. cc, λ e. cc)

log_listed : In (utf8 "bob.log") (build_preview org).affected
log_listed =
    (affected_iff org (utf8 "bob.log")).1
      ((record { path = utf8 "bob.log"; subject = []; stream = [] }, inl refl, refl), log_affected)

affected-loses_example :
    has
      (evaluate alice
        (record {
          path = utf8 "bob.log";
          collar = utf8 "bob";
          name = last_segment (utf8 "bob.log");
          owner = 8;
        })
        [])
      read
    ≡ false
affected-loses_example =
    affected-loses org (utf8 "bob.log") bob_source alice log_listed collar_lem full plain_role.0
      plain_role.1 (λ e. absurd (omega arith))

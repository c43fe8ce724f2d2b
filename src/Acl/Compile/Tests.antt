-- ===== src/Acl/Compile/Tests.antt =====
-- The theorems on internal/acl/compile.go, applied to two pipes.
use ppz.Base.{
  ◌≡◌, ap, Bool, text_eq_iff, arith, refl, sym, ◌∙◌, ◌≢◌, inl, inr, false, List, [], ◌∷◌, Text,
  utf8, text_eq, split,
}
use ppz.Acl.Perm.{read, write, has_bit, effective}
use ppz.Acl.Compile.{Access, compile, wire_subject}
use ppz.Acl.Compile.Nats.{Nats, subsumes, star, tail, permits_pub, permits_sub}
use ppz.Acl.Compile.Requests.{stream_info, bare_info, request, IsToken}
use ppz.Acl.Compile.Reads.{IsAccount, AgreeOn}
use ppz.Acl.Compile.Grants.{IsCatalog, compile-permits_read}
use ppz.Acl.Compile.Wires.{IsNetwork, compile-permits_write, compile-permits_tail}
use ppz.Acl.Compile.Walks.{reads, writes}

-- A server that compares tokens as documented.
abbrev server : Nats
server = record {
  covers = λ pattern subject. subsumes (split pattern b'.') (split subject b'.');
  covers_law = λ pattern subject. refl;
}

abbrev log_access : Access
log_access = record {
  pipe = record {
    path = utf8 "bob.log";
    subject = utf8 "org.bob.log";
    stream = utf8 "pipe_org_bob_log";
  };
  perm = read;
}

abbrev memo_access : Access
memo_access = record {
  pipe = record { path = utf8 "memo"; subject = utf8 "org.memo"; stream = utf8 "pipe_org_memo" };
  perm = write;
}

abbrev both : List Access
both = log_access ∷ memo_access ∷ []

-- Two entries with different keys agree on everything.
agree_of_apart :
    (key : Access → Text) (f : Access → Bool) (x y : Access)
    → key x ≢ key y
    → AgreeOn key f (x ∷ y ∷ [])
agree_of_apart key f x y n a b (inl e) (inl i) k = ap f (sym e ∙ i)
agree_of_apart key f x y n a b (inl e) (inr (inl i)) k = absurd (n (ap key e ∙ k ∙ sym (ap key i)))
agree_of_apart key f x y n a b (inr (inl e)) (inl i) k =
    absurd (n (ap key i ∙ sym k ∙ sym (ap key e)))
agree_of_apart key f x y n a b (inr (inl e)) (inr (inl i)) k = ap f (sym e ∙ i)
agree_of_apart key f x y n a b (inr (inr e)) j k = absurd e
agree_of_apart key f x y n a b (inl e) (inr (inr j)) k = absurd j
agree_of_apart key f x y n a b (inr (inl e)) (inr (inr j)) k = absurd j

apart_ends : {t : Text} {u : Text} → text_eq t u ≡ false → t ≢ u
apart_ends {t} {u} n e = absurd (ground (arith, text_eq_iff t u))

org-IsToken : IsToken (utf8 "org")
unfolding text_eq star tail utf8
org-IsToken = record { whole = ground arith; not_star = refl; not_tail = refl }

log-IsToken : IsToken (utf8 "pipe_org_bob_log")
unfolding text_eq star tail utf8
log-IsToken = record { whole = ground arith; not_star = refl; not_tail = refl }

memo-IsToken : IsToken (utf8 "pipe_org_memo")
unfolding text_eq star tail utf8
memo-IsToken = record { whole = ground arith; not_star = refl; not_tail = refl }

org_account : IsAccount (utf8 "org")
unfolding text_eq utf8
org_account = record { token = org-IsToken; not_js = refl }

log_wire :
    split (wire_subject log_access.pipe (utf8 "org")) b'.'
    ≡ utf8 "org" ∷ utf8 "bob" ∷ utf8 "log" ∷ []
unfolding wire_subject split utf8 text_eq
log_wire = refl

memo_wire : split (wire_subject memo_access.pipe (utf8 "org")) b'.' ≡ utf8 "org" ∷ utf8 "memo" ∷ []
unfolding wire_subject split utf8 text_eq
memo_wire = refl

streams_apart : log_access.pipe.stream ≢ memo_access.pipe.stream
unfolding text_eq utf8
streams_apart = apart_ends refl

wires_apart : wire_subject log_access.pipe (utf8 "org") ≢ wire_subject memo_access.pipe (utf8 "org")
unfolding text_eq utf8 wire_subject
wires_apart = apart_ends refl

both-IsCatalog : IsCatalog (utf8 "org") both
both-IsCatalog = record {
  account = org_account;
  each = (
    record { stream = log-IsToken; rest = _; wire = log_wire },
    (record { stream = memo-IsToken; rest = _; wire = memo_wire }, tt),
  );
  streams = agree_of_apart (λ a. a.pipe.stream) reads log_access memo_access streams_apart;
}

not_inbox : text_eq (utf8 "org") (utf8 "_INBOX") ≡ false
unfolding text_eq utf8
not_inbox = refl

both-IsNetwork : IsNetwork (utf8 "org") both
unfolding text_eq star tail utf8
both-IsNetwork = record {
  account = org_account;
  not_inbox = not_inbox;
  each = (
    record {
      stream = log-IsToken;
      second = _;
      more = _;
      wire = log_wire;
      plain = ((refl, refl), ((refl, refl), tt));
    },
    (
      record {
        stream = memo-IsToken;
        second = _;
        more = _;
        wire = memo_wire;
        plain = ((refl, refl), tt);
      },
      tt,
    ),
  );
  write_once = agree_of_apart _ writes log_access memo_access wires_apart;
  read_once = agree_of_apart _ reads log_access memo_access wires_apart;
}

compile-permits_read_example :
    permits_pub server
      (compile (utf8 "org") both)
      (request stream_info (utf8 "pipe_org_bob_log") [])
    ≡ has_bit (effective read) read
compile-permits_read_example =
    compile-permits_read server bare_info (utf8 "org") both log_access both-IsCatalog (inl refl)

compile-permits_write_example :
    permits_pub server (compile (utf8 "org") both) (wire_subject memo_access.pipe (utf8 "org"))
    ≡ has_bit (effective write) write
compile-permits_write_example =
    compile-permits_write server (utf8 "org") both memo_access both-IsNetwork (inr (inl refl))

bob_apart : (utf8 "bob" ≢ utf8 "_presence") × (utf8 "bob" ≢ utf8 "_system")
unfolding text_eq utf8
bob_apart = (apart_ends refl, apart_ends refl)

compile-permits_tail_example :
    permits_sub server (compile (utf8 "org") both) (wire_subject log_access.pipe (utf8 "org"))
    ≡ has_bit (effective read) read
compile-permits_tail_example =
    compile-permits_tail server (utf8 "org") both log_access both-IsNetwork (inl refl) (utf8 "bob")
      (utf8 "log" ∷ []) log_wire bob_apart.0 bob_apart.1

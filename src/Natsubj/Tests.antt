-- ===== src/Natsubj/Tests.antt =====
-- The theorems on internal/natsubj, applied to small names, with UUIDs as 36 decimal digits.
use ppz.Base.{
  ◌≡◌, refl, ◌≢◌, ◌↔◌, inl, inr, none, some, [], if◌then◌else◌, All, utf8, text_eq, Lacks, split,
  arith,
}
use ppz.Natsubj.Names.{IsHandle}
use ppz.Natsubj.Builders.{build_subject, presence_pipe, build_stream_name, parse_presence_subject}
use ppz.Natsubj.Decimal.{decimal}
use ppz.Natsubj.Paths.{IsAddress, parse_presence-build_subject}
use ppz.Natsubj.Streams.{build_stream_name-eq_iff}

bob-IsHandle : IsHandle (utf8 "bob")
unfolding utf8
bob-IsHandle = ground arith

log-IsHandle : IsHandle (utf8 "log")
unfolding utf8
log-IsHandle = ground arith

log_other : utf8 "log" ≢ presence_pipe
unfolding utf8 presence_pipe
log_other e = cc

bob_full : utf8 "bob" ≢ []
unfolding utf8
bob_full e = cc

ns-IsHandles : All IsHandle (split (utf8 "bob.log") b'.')
unfolding utf8 split
ns-IsHandles = (bob-IsHandle, (log-IsHandle, tt))

bob_log_bob : IsAddress (utf8 "bob.log") (utf8 "bob") (utf8 "log")
bob_log_bob = record {
  segments = inr ns-IsHandles;
  collar = inr bob-IsHandle;
  pipe = log-IsHandle;
  owned = λ e. absurd (log_other e);
}

bob_log : IsAddress [] (utf8 "bob") (utf8 "log")
bob_log = record {
  segments = inl refl;
  collar = inr bob-IsHandle;
  pipe = log-IsHandle;
  owned = λ e. absurd (log_other e);
}

bob-Lacks : Lacks b'.' (utf8 "bob")
unfolding utf8
bob-Lacks = ground arith

parse_presence-build_subject_example :
    parse_presence_subject decimal
      (build_subject decimal 5 (utf8 "bob.log") (utf8 "bob") (utf8 "log"))
    ≡ (if text_eq (utf8 "log") presence_pipe then some (utf8 "bob") else none)
parse_presence-build_subject_example =
    parse_presence-build_subject decimal 5 (utf8 "bob.log") (utf8 "bob") (utf8 "log") bob_log_bob

build_stream_name-eq_iff_example :
    (build_stream_name decimal 5 (utf8 "bob.log") (utf8 "bob") (utf8 "log")
      ≡ build_stream_name decimal 5 [] (utf8 "bob") (utf8 "log"))
    ↔ (build_subject decimal 5 (utf8 "bob.log") (utf8 "bob") (utf8 "log")
        ≡ build_subject decimal 5 [] (utf8 "bob") (utf8 "log"))
build_stream_name-eq_iff_example =
    build_stream_name-eq_iff decimal 5 (utf8 "bob.log") (utf8 "bob") (utf8 "log") [] (utf8 "bob")
      (utf8 "log") bob_log_bob bob_log

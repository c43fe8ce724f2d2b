-- ===== src/Acl/Compile.antt =====
-- internal/acl/compile.go: a principal's access, compiled into the permissions of a NATS user.
pub mod Walks
pub mod Nats
pub mod Requests
pub mod Reads
pub mod Grants
pub mod Wires
mod Tests
use ppz.Base.{
  ◌+◌, Bool, not, List, [], ◌∷◌, ◌++◌, map, if◌then◌else◌, ltb, length, flat_map, Text, utf8,
  text_eq, replace_first, trim_suffix,
}
use ppz.Acl.Perm.{Perm, read, write, has_bit, effective}

pub record PipeRef : Type 0 where
  pub path : Text
  pub subject : Text
  pub stream : Text

unfoldable pub wire_subject : PipeRef → Text → Text
unfolding utf8
wire_subject r account_id =
    if not (text_eq r.subject []) then r.subject else account_id ++ utf8 "." ++ r.path

pub record Access : Type 0 where
  pub pipe : PipeRef
  pub perm : Perm

pub record Permissions : Type 0 where
  pub pub_allow : List Text
  pub pub_deny : List Text
  pub sub_allow : List Text
  pub sub_deny : List Text

unfoldable pub js_read_patterns : List Text
unfolding utf8
js_read_patterns =
    utf8 "$JS.API.STREAM.INFO.%s"
    ∷ utf8 "$JS.API.STREAM.MSG.GET.%s"
    ∷ utf8 "$JS.API.DIRECT.GET.%s"
    ∷ utf8 "$JS.API.CONSUMER.CREATE.%s.>"
    ∷ utf8 "$JS.API.CONSUMER.MSG.NEXT.%s.>"
    ∷ []

unfoldable pub always_allowed : List Text
unfolding utf8
always_allowed = utf8 "$JS.API.INFO" ∷ []

unfoldable pub always_denied : List Text
unfolding utf8
always_denied =
    utf8 "$JS.API.STREAM.LIST"
    ∷ utf8 "$JS.API.STREAM.NAMES"
    ∷ utf8 "$JS.API.STREAM.CREATE.>"
    ∷ utf8 "$JS.API.STREAM.UPDATE.>"
    ∷ utf8 "$JS.API.STREAM.DELETE.>"
    ∷ utf8 "$JS.API.STREAM.PURGE.>"
    ∷ []

unfoldable pub expand_read : Text → Text → Text
unfolding utf8 replace_first
expand_read pattern stream = replace_first pattern (utf8 "%s") stream

unfoldable pub broad_read : Text → Text
unfolding utf8 replace_first trim_suffix
broad_read pattern = replace_first (trim_suffix pattern (utf8 ".>")) (utf8 "%s") (utf8 ">")

-- The permissions and the two lists that the loop over the access builds.
pub record Walk : Type 0 where
  pub perms : Permissions
  pub readable : List PipeRef
  pub excluded : List PipeRef

unfoldable pub initial : Text → Permissions
unfolding utf8
initial account_id = record {
  pub_allow = always_allowed;
  pub_deny = always_denied;
  sub_allow =
      utf8 "_INBOX.>"
      ∷ (account_id ++ utf8 "._presence.>")
      ∷ (account_id ++ utf8 "._system.>")
      ∷ [];
  sub_deny = [];
}

-- One round: the write half, then the read half, which ends in `continue`.
unfoldable pub visit : Text → Access → Walk → Walk
visit account_id a w =
    let perm = effective a.perm in
    let wire = wire_subject a.pipe account_id in
    let p =
      if has_bit perm write
      then record (w.perms) { pub_allow = w.perms.pub_allow ++ wire ∷ [] }
      else w.perms in
    if has_bit perm read
    then record {
      perms = record p { sub_allow = p.sub_allow ++ wire ∷ [] };
      readable = w.readable ++ a.pipe ∷ [];
      excluded = w.excluded;
    }
    else record { perms = p; readable = w.readable; excluded = w.excluded ++ a.pipe ∷ [] }

unfoldable pub visit_all : Text → List Access → Walk → Walk
unfolding visit
visit_all account_id [] w = w
visit_all account_id (a ∷ access) w = visit_all account_id access (visit account_id a w)

-- The loop over the patterns inside the loop over the pipes.
unfoldable pub reads_of : List PipeRef → List Text
reads_of pipes = flat_map (λ pipe. map (λ pat. expand_read pat pipe.stream) js_read_patterns) pipes

unfoldable pub compile : Text → List Access → Permissions
unfolding reads_of visit_all initial
compile account_id access =
    let w =
      visit_all account_id access
        (record { perms = initial account_id; readable = []; excluded = [] }) in
    if ltb (1 + length w.excluded) (length w.readable)
    then record (w.perms) {
      pub_allow = w.perms.pub_allow ++ map broad_read js_read_patterns;
      pub_deny = w.perms.pub_deny ++ reads_of w.excluded;
    }
    else record (w.perms) { pub_allow = w.perms.pub_allow ++ reads_of w.readable }

unfoldable pub unrestricted : Permissions
unfolding utf8
unrestricted = record {
  pub_allow = utf8 ">" ∷ [];
  pub_deny = [];
  sub_allow = utf8 ">" ∷ [];
  sub_deny = [];
}

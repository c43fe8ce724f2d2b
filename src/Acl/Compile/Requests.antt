-- ===== src/Acl/Compile/Requests.antt =====
-- The JetStream requests behind a read, and which compiled patterns cover them.
use mathlib.Core.List.{append-nil}
use ppz.Base.{
  ◌≡◌, refl, ap, Bool, true, false, ◌&&◌, List, [], ◌∷◌, ◌++◌, map, arith, All, Text, utf8, text_eq,
  split, join, Lacks, split-join, split-append, split_of_Lacks,
}
use ppz.Acl.Compile.{js_read_patterns, expand_read, broad_read}
use ppz.Acl.Compile.Nats.{star, tail, subsumes}

pub data ReadOp : Type 0 where
  stream_info msg_get direct_get consumer_create msg_next : ReadOp

abbrev pub same_op : ReadOp → ReadOp → Bool
same_op stream_info stream_info = true
same_op msg_get msg_get = true
same_op direct_get direct_get = true
same_op consumer_create consumer_create = true
same_op msg_next msg_next = true
same_op _ _ = false

abbrev pub op_pattern : ReadOp → Text
op_pattern stream_info = utf8 "$JS.API.STREAM.INFO.%s"
op_pattern msg_get = utf8 "$JS.API.STREAM.MSG.GET.%s"
op_pattern direct_get = utf8 "$JS.API.DIRECT.GET.%s"
op_pattern consumer_create = utf8 "$JS.API.CONSUMER.CREATE.%s.>"
op_pattern msg_next = utf8 "$JS.API.CONSUMER.MSG.NEXT.%s.>"

abbrev pub ops : List ReadOp
ops = stream_info ∷ msg_get ∷ direct_get ∷ consumer_create ∷ msg_next ∷ []

pub js_read_patterns_lem : js_read_patterns ≡ map op_pattern ops
unfolding js_read_patterns utf8
js_read_patterns_lem = refl

-- The tokens before the stream, after `$JS` and `API`.
abbrev pub op_tokens : ReadOp → List Text
op_tokens stream_info = utf8 "STREAM" ∷ utf8 "INFO" ∷ []
op_tokens msg_get = utf8 "STREAM" ∷ utf8 "MSG" ∷ utf8 "GET" ∷ []
op_tokens direct_get = utf8 "DIRECT" ∷ utf8 "GET" ∷ []
op_tokens consumer_create = utf8 "CONSUMER" ∷ utf8 "CREATE" ∷ []
op_tokens msg_next = utf8 "CONSUMER" ∷ utf8 "MSG" ∷ utf8 "NEXT" ∷ []

abbrev pub op_rest : ReadOp → List Text
op_rest consumer_create = tail ∷ []
op_rest msg_next = tail ∷ []
op_rest _ = []

-- What a client sends after the stream: nothing, or the consumer's name and configuration.
pub data Extra : ReadOp → List Text → Type 0 where
  bare_info : Extra stream_info []
  bare_msg : Extra msg_get []
  bare_direct : Extra direct_get []
  create_for :
      (t : Text) (ts : List Text) → All (Lacks b'.') (t ∷ ts) → Extra consumer_create (t ∷ ts)
  next_of : (t : Text) (ts : List Text) → All (Lacks b'.') (t ∷ ts) → Extra msg_next (t ∷ ts)

abbrev pub js : List Text → List Text
js ts = utf8 "$JS" ∷ utf8 "API" ∷ ts

abbrev pub request_tokens : ReadOp → Text → List Text → List Text
request_tokens op stream extra = js (op_tokens op ++ stream ∷ extra)

abbrev pub request : ReadOp → Text → List Text → Text
request op stream extra = join (request_tokens op stream extra) (utf8 ".")

abbrev pub after_op : ReadOp → List Text → List Text
after_op op ts = js (op_tokens op ++ ts)

split_bare : (s : Text) → Lacks b'.' s → split (s ++ []) b'.' ≡ s ∷ []
split_bare s h = rw append-nil (split_of_Lacks s b'.' h)

split-tail : (s : Text) → Lacks b'.' s → split (s ++ b'.' ∷ b'>' ∷ []) b'.' ≡ s ∷ tail ∷ []
unfolding split tail utf8
split-tail s h = split-append s (b'>' ∷ []) b'.' h

pub split-expand_read :
    (op : ReadOp) (s : Text)
    → Lacks b'.' s
    → split (expand_read (op_pattern op) s) b'.' ≡ after_op op (s ∷ op_rest op)
unfolding expand_read split
split-expand_read stream_info s h = ap (after_op stream_info) (split_bare s h)
split-expand_read msg_get s h = ap (after_op msg_get) (split_bare s h)
split-expand_read direct_get s h = ap (after_op direct_get) (split_bare s h)
split-expand_read consumer_create s h = ap (after_op consumer_create) (split-tail s h)
split-expand_read msg_next s h = ap (after_op msg_next) (split-tail s h)

pub split-broad_read :
    (op : ReadOp) → split (broad_read (op_pattern op)) b'.' ≡ after_op op (tail ∷ [])
unfolding broad_read split tail
split-broad_read stream_info = refl
split-broad_read msg_get = refl
split-broad_read direct_get = refl
split-broad_read consumer_create = refl
split-broad_read msg_next = refl

pub Extra-Lacks : {op : ReadOp} {extra : List Text} → Extra op extra → All (Lacks b'.') extra
Extra-Lacks bare_info = tt
Extra-Lacks bare_msg = tt
Extra-Lacks bare_direct = tt
Extra-Lacks (create_for t ts h) = h
Extra-Lacks (next_of t ts h) = h

pub split-request :
    (op : ReadOp) (s : Text) (extra : List Text)
    → Lacks b'.' s
    → All (Lacks b'.') extra
    → split (request op s extra) b'.' ≡ request_tokens op s extra
unfolding split join utf8
split-request stream_info s extra h k = ap (after_op stream_info) (split-join s extra b'.' h k)
split-request msg_get s extra h k = ap (after_op msg_get) (split-join s extra b'.' h k)
split-request direct_get s extra h k = ap (after_op direct_get) (split-join s extra b'.' h k)
split-request consumer_create s extra h k =
    ap (after_op consumer_create) (split-join s extra b'.' h k)
split-request msg_next s extra h k = ap (after_op msg_next) (split-join s extra b'.' h k)

-- A name that is one token of a subject and no wildcard.
pub record IsToken (t : Text) : Type 0 where
  pub whole : Lacks b'.' t
  pub not_star : text_eq t star ≡ false
  pub not_tail : text_eq t tail ≡ false

pub subsumes-expand_read :
    (op : ReadOp) {op' : ReadOp} (s' s : Text) {extra : List Text}
    → text_eq s' star ≡ false
    → text_eq s' tail ≡ false
    → Extra op' extra
    → subsumes (after_op op (s' ∷ op_rest op)) (request_tokens op' s extra)
      ≡ (same_op op op' && text_eq s' s)
unfolding subsumes text_eq star tail utf8
subsumes-expand_read stream_info s' s h k bare_info = ground arith
subsumes-expand_read _ s' s h k bare_info = ground arith
subsumes-expand_read stream_info s' s h k bare_msg = ground arith
subsumes-expand_read _ s' s h k bare_msg = ground arith
subsumes-expand_read stream_info s' s h k bare_direct = ground arith
subsumes-expand_read _ s' s h k bare_direct = ground arith
subsumes-expand_read stream_info s' s h k (create_for t ts l) = ground arith
subsumes-expand_read _ s' s h k (create_for t ts l) = ground arith
subsumes-expand_read stream_info s' s h k (next_of t ts l) = ground arith
subsumes-expand_read _ s' s h k (next_of t ts l) = ground arith

pub subsumes-broad_read :
    (op : ReadOp) {op' : ReadOp} (s : Text) {extra : List Text}
    → Extra op' extra
    → subsumes (after_op op (tail ∷ [])) (request_tokens op' s extra) ≡ same_op op op'
unfolding subsumes text_eq star tail utf8
subsumes-broad_read stream_info s bare_info = refl
subsumes-broad_read _ s bare_info = refl
subsumes-broad_read stream_info s bare_msg = refl
subsumes-broad_read _ s bare_msg = refl
subsumes-broad_read stream_info s bare_direct = refl
subsumes-broad_read _ s bare_direct = refl
subsumes-broad_read stream_info s (create_for t ts l) = refl
subsumes-broad_read _ s (create_for t ts l) = refl
subsumes-broad_read stream_info s (next_of t ts l) = refl
subsumes-broad_read _ s (next_of t ts l) = refl

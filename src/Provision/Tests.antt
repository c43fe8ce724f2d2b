-- ===== src/Provision/Tests.antt =====
-- Provisioning at concrete input.
use ppz.Base.{
  false, sym, ap, ◌∙◌, Bool, not, filter, none, if◌then◌else◌, text_eq_iff, arith, ℕ, ◌≡◌, ◌≢◌,
  refl, inl, inr, Bool, true, Option, none, some, List, [], ◌∷◌, if◌then◌else◌, Text, text_eq, utf8,
  encode_rune, All, arith,
}
use ppz.Natsubj.Names.{IsHandle}
use ppz.Natsubj.Decimal.{decimal}
use ppz.Natsubj.Builders.{build_stream_name, presence_pipe}
use ppz.Natsubj.Paths.{IsAddress}
use ppz.Enforce.{Source, kind_message, auto_pipes}
use ppz.Provision.{
  JetStream, Deletion, deleted, stream_not_found, StreamConfig, PipeRow, pipe_retention,
  StreamConfig, stream_config, ensure_source_streams, ensure_auto, ensure_user,
  ensure_pipe_stream_with_retention,
}
use ppz.Provision.Provisioned.{override_kept, UniqueNames}

abbrev bob : Source
bob = record {
  manifold = [];
  handle = utf8 "bob";
  kind = kind_message;
  created_by_user_id = 7;
  rows = [];
}

abbrev row : Text → Option ℕ → PipeRow
row name ttl = record {
  manifold = [];
  name = name;
  ttl_seconds = ttl;
  max_msgs = none;
  max_bytes = none;
}

-- The inbox keeps its messages for a minute, and there is a further pipe.
abbrev rows : List PipeRow
rows = row (utf8 "inbox") (some 60) ∷ row (utf8 "log") none ∷ []

abbrev Configs : Type 0
Configs = List StreamConfig

abbrev find_config : Text → Configs → Option StreamConfig
find_config name [] = none
find_config name (c ∷ js) = if text_eq c.name name then some c else find_config name js

abbrev put_config : StreamConfig → Configs → Configs
put_config cfg [] = cfg ∷ []
put_config cfg (c ∷ js) = if text_eq c.name cfg.name then cfg ∷ js else c ∷ put_config cfg js

find_config-put_config :
    (cfg : StreamConfig) (name : Text) (js : Configs)
    → find_config name (put_config cfg js)
      ≡ (if text_eq cfg.name name then some cfg else find_config name js)
find_config-put_config cfg name [] = refl
find_config-put_config cfg name (c ∷ js) = ground (
  arith,
  text_eq_iff c.name cfg.name,
  text_eq_iff c.name name,
  text_eq_iff cfg.name name,
  find_config-put_config cfg name js,
)

abbrev without : Text → Configs → Configs
without name js = filter (λ (c : StreamConfig). not (text_eq c.name name)) js

find_config-without :
    (name other : Text) (js : Configs)
    → find_config other (without name js)
      ≡ (if text_eq name other then none else find_config other js)
find_config-without name other [] = ground arith
find_config-without name other (c ∷ js) = ground (
  arith,
  text_eq_iff c.name name,
  text_eq_iff c.name other,
  text_eq_iff name other,
  find_config-without name other js,
)

abbrev is_none : Option StreamConfig → Bool
is_none none = true
is_none (some c) = false

created :
    (cfg : StreamConfig) (js left : Configs)
    → some (put_config cfg js) ≡ some left
    → (name : Text)
    → find_config name left ≡ (if text_eq cfg.name name then some cfg else find_config name js)
created cfg js left h name =
    let same : put_config cfg js ≡ left = cc (h) in
    ap (find_config name) (sym same) ∙ find_config-put_config cfg name js

-- The answer to a deletion.
abbrev deletion : Text → Configs → Deletion Configs
deletion name js =
    if is_none (find_config name js) then stream_not_found else deleted (without name js)

removed :
    (name : Text) (js left : Configs)
    → deletion name js ≡ deleted left
    → (other : Text)
    → find_config other left ≡ (if text_eq name other then none else find_config other js)
removed name js left h other =
    let same : without name js ≡ left = ground arith in
    ap (find_config other) (sym same) ∙ find_config-without name other js

no_stream :
    (name : Text) (js : Configs) → deletion name js ≡ stream_not_found → find_config name js ≡ none
no_stream name js h = ground arith

-- A server that keeps its streams in a list and refuses none.
abbrev in_memory : JetStream
in_memory = record {
  Streams = Configs;
  find_stream = find_config;
  create_or_update_stream = λ cfg js. some (put_config cfg js);
  delete_stream = deletion;
  create_or_update_law = created;
  delete_law = removed;
  not_found_law = no_stream;
}

bob-IsHandle : IsHandle (utf8 "bob")
unfolding utf8
bob-IsHandle = ground arith

address : (n : Text) → IsHandle n → n ≢ presence_pipe → IsAddress [] (utf8 "bob") n
address n h p = record {
  segments = inl refl;
  collar = inr bob-IsHandle;
  pipe = h;
  owned = λ e. absurd (p e);
}

inbox_address : IsAddress [] (utf8 "bob") (utf8 "inbox")
unfolding utf8 presence_pipe
inbox_address = address (utf8 "inbox") (ground arith) (λ e. cc)

log_address : IsAddress [] (utf8 "bob") (utf8 "log")
unfolding utf8 presence_pipe
log_address = address (utf8 "log") (ground arith) (λ e. cc)

autos : All (λ n. IsAddress [] (utf8 "bob") n) (auto_pipes bob)
unfolding auto_pipes
autos = (inbox_address, tt)

abbrev provisioned : Configs
unfolding ensure_source_streams ensure_auto ensure_user ensure_pipe_stream_with_retention auto_pipes
provisioned = elim (ensure_source_streams decimal in_memory 5 bob rows []) [
  | none ↦ []
  | some js ↦ js
]

done : ensure_source_streams decimal in_memory 5 bob rows [] ≡ some provisioned
unfolding ensure_source_streams ensure_auto ensure_user ensure_pipe_stream_with_retention auto_pipes
    utf8 encode_rune text_eq
done = refl

users : All (λ (r : PipeRow). IsAddress r.manifold bob.handle r.name) rows
users = (inbox_address, (log_address, tt))

unique : UniqueNames decimal in_memory 5 bob rows rows
unfolding utf8
unique = (((λ e. cc), tt), (tt, tt))

override_kept_example :
    find_config (build_stream_name decimal 5 [] (utf8 "bob") (utf8 "inbox")) provisioned
    ≡ some (
        stream_config decimal 5 []
          (utf8 "bob")
          (utf8 "inbox")
          (pipe_retention (row (utf8 "inbox") (some 60))))
unfolding auto_pipes text_eq
override_kept_example =
    override_kept decimal in_memory 5 bob rows [] provisioned autos users done
      (row (utf8 "inbox") (some 60)) unique (inl refl)

-- ===== src/Provision.antt =====
-- internal/server/streams.go, with the retention of account_pool.go: the streams of a source.
pub mod Distinct
pub mod Provisioned
pub mod Deleted
mod Tests
use ppz.Base.{
  ℕ, ◌*◌, ◌%◌, ◌^◌, ◌≡◌, Bool, true, false, Option, none, some, List, [], ◌∷◌, if◌then◌else◌, any,
  not, filter, Text, text_eq, Duration, second,
}
use ppz.Acl.Model.{Uuid}
use ppz.Natsubj.Uuids.{Uuids}
use ppz.Natsubj.Builders.{build_subject, build_stream_name}
use ppz.Enforce.{Source, auto_pipes}

-- What a stream keeps: an age, a number of messages and a number of bytes. The ints are kept as their
-- two's complement.
pub record Retention : Type 0 where
  pub max_age : Duration
  pub max_msgs : ℕ
  pub max_bytes : ℕ

pub record RetentionOverride : Type 0 where
  pub ttl_seconds : Option ℕ
  pub max_msgs : Option ℕ
  pub max_bytes : Option ℕ

abbrev pub default_stream_max_age : Duration
default_stream_max_age = 24 * (3600 * second)

abbrev pub default_stream_max_msgs : ℕ
default_stream_max_msgs = 5000

abbrev pub default_stream_max_bytes : ℕ
default_stream_max_bytes = 16 * (1024 * 1024)

-- The loop over the layers for one field.
unfoldable pub first_set : (RetentionOverride → Option ℕ) → ℕ → List RetentionOverride → ℕ
first_set field default [] = default
first_set field default (l ∷ layers) = elim (field l) [
  | some v ↦ v
  | none ↦ first_set field default layers
]

abbrev seconds : Option ℕ → Option ℕ
seconds none = none
seconds (some n) = some (n * second % 2 ^ 64)

unfoldable pub resolve_retention : List RetentionOverride → Retention
unfolding first_set
resolve_retention layers = record {
  max_age = first_set (λ l. seconds l.ttl_seconds) default_stream_max_age layers;
  max_msgs = first_set (λ l. l.max_msgs) default_stream_max_msgs layers;
  max_bytes = first_set (λ l. l.max_bytes) default_stream_max_bytes layers;
}

-- The columns of a row of `pipes` that are read here.
pub record PipeRow : Type 0 where
  pub manifold : Text
  pub name : Text
  pub ttl_seconds : Option ℕ
  pub max_msgs : Option ℕ
  pub max_bytes : Option ℕ

unfoldable pub pipe_layer : PipeRow → RetentionOverride
pipe_layer pipe = record {
  ttl_seconds = pipe.ttl_seconds;
  max_msgs = pipe.max_msgs;
  max_bytes = pipe.max_bytes;
}

unfoldable pub pipe_retention : PipeRow → Retention
unfolding pipe_layer
pipe_retention pipe = resolve_retention (pipe_layer pipe ∷ [])

-- The part of a stream's configuration that differs from stream to stream.
pub record StreamConfig : Type 0 where
  pub name : Text
  pub subject : Text
  pub retention : Retention

-- What JetStream answers to `DeleteStream`: the streams that are left, ErrStreamNotFound, or another
-- error.
pub data Deletion (A : Type 0) : Type 0 where
  deleted : A → Deletion A
  stream_not_found failed : Deletion A

-- JetStream, which is not part of the repository: a parameter. An answer `none` is an error. After a
-- call that succeeds the stream of the name has that configuration, or is gone, and the others are as
-- they were.
pub record JetStream : Type 1 where
  pub Streams : Type 0
  pub find_stream : Text → Streams → Option StreamConfig
  pub create_or_update_stream : StreamConfig → Streams → Option Streams
  pub delete_stream : Text → Streams → Deletion Streams
  pub create_or_update_law :
      (cfg : StreamConfig) (js left : Streams)
      → create_or_update_stream cfg js ≡ some left
      → (name : Text)
      → find_stream name left ≡ (if text_eq cfg.name name then some cfg else find_stream name js)
  pub delete_law :
      (name : Text) (js left : Streams)
      → delete_stream name js ≡ deleted left
      → (other : Text)
      → find_stream other left ≡ (if text_eq name other then none else find_stream other js)
  pub not_found_law :
      (name : Text) (js : Streams)
      → delete_stream name js ≡ stream_not_found
      → find_stream name js ≡ none

-- `stored[name]`: the last row with the name.
unfoldable pub stored_row : Text → Option PipeRow → List PipeRow → Option PipeRow
stored_row name found [] = found
stored_row name found (r ∷ rows) =
    stored_row name (if text_eq r.name name then some r else found) rows

unfoldable pub auto_retention : List PipeRow → Text → Retention
auto_retention rows name = elim (stored_row name none rows) [
  | none ↦ resolve_retention []
  | some row ↦ pipe_retention row
]

module _ (uuids : Uuids) (a : Uuid) where
  unfoldable pub stream_config : Text → Text → Text → Retention → StreamConfig
  stream_config manifold handle pipe r = record {
    name = build_stream_name uuids a manifold handle pipe;
    subject = build_subject uuids a manifold handle pipe;
    retention = r;
  }

module _ (uuids : Uuids) (jet : JetStream) (a : Uuid) where
  open jet use {Streams, create_or_update_stream, delete_stream}

  -- `none` is an error.
  unfoldable pub ensure_pipe_stream_with_retention :
      Text → Text → Text → Retention → Streams → Option Streams
  ensure_pipe_stream_with_retention manifold handle pipe r js =
      create_or_update_stream (stream_config uuids a manifold handle pipe r) js

  module _ (src : Source) (rows : List PipeRow) where
    unfoldable pub ensure_auto : List Text → Streams → Option Streams
    ensure_auto [] js = some js
    ensure_auto (name ∷ names) js =
        elim (ensure_pipe_stream_with_retention src.manifold src.handle name
          (auto_retention rows name) js) [ none ↦ none | some left ↦ ensure_auto names left ]

    -- `done` holds exactly the names of the first loop.
    unfoldable pub ensure_user : List PipeRow → Streams → Option Streams
    ensure_user [] js = some js
    ensure_user (row ∷ more) js =
        if any (λ p. text_eq p row.name) (auto_pipes src)
        then ensure_user more js
        else elim (ensure_pipe_stream_with_retention row.manifold src.handle row.name
            (pipe_retention row) js) [ none ↦ none | some left ↦ ensure_user more left ]

    -- The rows are those that the database lists for the source.
    unfoldable pub ensure_source_streams : Streams → Option Streams
    ensure_source_streams js = elim (ensure_auto (auto_pipes src) js) [
      | none ↦ none
      | some left ↦ ensure_user rows left
    ]

  unfoldable pub delete_pipe_stream : Text → Text → Text → Streams → Option Streams
  delete_pipe_stream manifold handle pipe js =
      elim (delete_stream (build_stream_name uuids a manifold handle pipe) js) [
        | deleted left ↦ some left
        | stream_not_found ↦ some js
        | failed ↦ none
      ]

  unfoldable pub delete_uncollared_pipe_stream : Text → Text → Streams → Option Streams
  delete_uncollared_pipe_stream manifold name js =
      elim (delete_stream (build_stream_name uuids a manifold [] name) js) [
        | deleted left ↦ some left
        | stream_not_found ↦ some js
        | failed ↦ none
      ]

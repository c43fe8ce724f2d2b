-- ===== src/Provision/Deleted.antt =====
-- A pipe that is deleted loses its stream, and no other pipe does.
use ppz.Base.{
  ◌≡◌, refl, subst, ap, ◌∙◌, ◌⊎◌, inl, inr, Bool, Option, none, some, if◌then◌else◌, Text, text_eq,
  text_eq_iff, arith, Bool-cases,
}
use ppz.Acl.Model.{Uuid}
use ppz.Natsubj.Uuids.{Uuids}
use ppz.Natsubj.Builders.{build_subject, build_stream_name}
use ppz.Natsubj.Paths.{IsAddress}
use ppz.Natsubj.Streams.{build_stream_name-eq_iff}
use ppz.Provision.{JetStream, Deletion, deleted, stream_not_found, failed, delete_pipe_stream}

module _ (uuids : Uuids) (jet : JetStream) (a : Uuid) where
  -- A deletion that succeeds, whether there was a stream or not.
  answered : Text → jet.Streams → Option jet.Streams
  answered name js = elim (jet.delete_stream name js) [
    | deleted left ↦ some left
    | stream_not_found ↦ some js
    | failed ↦ none
  ]

  Deletion-cases :
      (d : Deletion jet.Streams)
      → ((left : jet.Streams) × (d ≡ deleted left)) ⊎ ((d ≡ stream_not_found) ⊎ (d ≡ failed))
  Deletion-cases (deleted left) = inl (left, refl)
  Deletion-cases stream_not_found = inr (inl refl)
  Deletion-cases failed = inr (inr refl)

  absent :
      (name other : Text) (js : jet.Streams)
      → jet.delete_stream name js ≡ stream_not_found
      → jet.find_stream other js ≡ (if text_eq name other then none else jet.find_stream other js)
  absent name other js e = elim (Bool-cases (text_eq name other)) [
    | inl same ↦ rw same (
        subst (λ t. jet.find_stream t js ≡ none) ((text_eq_iff name other).0 same)
          (jet.not_found_law name js e))
    | inr apart ↦ rw apart refl
  ]

  removed :
      (name other : Text) (js left : jet.Streams)
      → answered name js ≡ some left
      → jet.find_stream other left ≡ (if text_eq name other then none else jet.find_stream other js)
  unfolding answered
  removed name other js left h = elim (Deletion-cases (jet.delete_stream name js)) [
    | inl (l, e) ↦
        let same : l ≡ left = ground (arith, e) in
        subst
          (λ t.
            jet.find_stream other t
            ≡ (if text_eq name other then none else jet.find_stream other js))
          same (jet.delete_law name js l e other)
    | inr (inl e) ↦
        let same : js ≡ left = ground (arith, e) in
        subst
          (λ t.
            jet.find_stream other t
            ≡ (if text_eq name other then none else jet.find_stream other js))
          same (absent name other js e)
    | inr (inr e) ↦ absurd (ground (arith, e))
  ]

  same_name :
      (m s p m' s' p' : Text)
      → IsAddress m s p
      → IsAddress m' s' p'
      → text_eq (build_stream_name uuids a m s p) (build_stream_name uuids a m' s' p')
        ≡ text_eq (build_subject uuids a m s p) (build_subject uuids a m' s' p')
  same_name m s p m' s' p' k k' =
      let both = build_stream_name-eq_iff uuids a m s p m' s' p' k k' in
      ground (
        arith,
        text_eq_iff (build_stream_name uuids a m s p) (build_stream_name uuids a m' s' p'),
        text_eq_iff (build_subject uuids a m s p) (build_subject uuids a m' s' p'),
        both,
      )

  -- When the server can be reached, deleting the stream of a pipe succeeds whether it exists or
  -- not, and afterwards, for any second pipe, both with well-formed addresses, the stream of the
  -- second pipe is gone if the two have one subject, and is as before otherwise.
  pub find_stream-delete_pipe_stream :
      (m s p m' s' p' : Text) (js left : jet.Streams)
      → IsAddress m s p
      → IsAddress m' s' p'
      → delete_pipe_stream uuids jet a m s p js ≡ some left
      → jet.find_stream (build_stream_name uuids a m' s' p') left ≡ (
          if text_eq (build_subject uuids a m s p) (build_subject uuids a m' s' p')
          then none
          else jet.find_stream (build_stream_name uuids a m' s' p') js)
  unfolding delete_pipe_stream answered
  find_stream-delete_pipe_stream m s p m' s' p' js left k k' h =
      let name = build_stream_name uuids a m s p in
      let other = build_stream_name uuids a m' s' p' in
      removed name other js left h
      ∙ ap (λ (b : Bool). if b then none else jet.find_stream other js)
          (same_name m s p m' s' p' k k')

-- ===== src/Provision/Distinct.antt =====
-- The streams of pipes with different names are different, and one is changed without the others.
use ppz.Base.{
  ◌≡◌, inl, inr, sym, ap, ◌∙◌, false, List, [], ◌∷◌, ◌++◌, last_or, last_or-append, Text, text_eq,
  text_eq_iff, Bool-cases,
}
use mathlib.Core.List.{append_assoc}
use ppz.Acl.Model.{Uuid}
use ppz.Natsubj.Uuids.{Uuids}
use ppz.Natsubj.Builders.{build_stream_name, presence_pipe}
use ppz.Natsubj.Paths.{IsAddress, manifold_parts, source_part, path_tokens}
use ppz.Natsubj.Streams.{build_stream_name-eq_iff, tokens_of_subject}

last-path_tokens :
    (m s p : Text) → text_eq p presence_pipe ≡ false → last_or (path_tokens m s p) [] ≡ p
last-path_tokens m s p h =
    rw (h, sym (append_assoc (manifold_parts m) (source_part s) (p ∷ [])))
      (last_or-append (manifold_parts m ++ source_part s) p [])

module _ (uuids : Uuids) (a : Uuid) where
  -- Streams of pipes with different names have different names.
  pub same_pipe :
      (m s p m' s' p' : Text)
      → IsAddress m s p
      → IsAddress m' s' p'
      → build_stream_name uuids a m s p ≡ build_stream_name uuids a m' s' p'
      → p ≡ p'
  same_pipe m s p m' s' p' k k' e =
      let (f, ts) =
        tokens_of_subject uuids a m s p m' s' p' k k'
          ((build_stream_name-eq_iff uuids a m s p m' s' p' k k').0 e) in
      elim (Bool-cases (text_eq p presence_pipe)) [
        | inl h ↦
            (text_eq_iff p presence_pipe).0 h ∙ sym ((text_eq_iff p' presence_pipe).0 (sym f ∙ h))
        | inr h ↦
            sym (last-path_tokens m s p h)
            ∙ (ap (λ (l : List Text). last_or l []) ts ∙ last-path_tokens m' s' p' (sym f ∙ h))
      ]

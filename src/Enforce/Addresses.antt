-- ===== src/Enforce/Addresses.antt =====
-- A pipe's path, subject and stream determine one another, where the names are accepted ones.
use mathlib.Core.List.{append_assoc}
use ppz.Base.{
  ◌≡◌, refl, sym, ap, ap₂, ◌∙◌, inl, inr, true, false, not, [], ◌∷◌, ◌++◌, arith, if◌then◌else◌,
  Text, text_eq, text_eq_iff, split, split_inj, split-append_both, split_of_Lacks, Bool-cases,
}
use ppz.Acl.Model.{Uuid}
use ppz.Natsubj.Names.{IsHandle-Lacks}
use ppz.Natsubj.Uuids.{Uuids}
use ppz.Natsubj.Builders.{presence_pipe, build_subject, build_stream_name}
use ppz.Natsubj.Paths.{IsAddress, manifold_parts, source_part, path_tokens, source-Lacks}
use ppz.Natsubj.Streams.{tokens_of_subject, build_stream_name-eq_iff}
use ppz.Enforce.{pipe_path}

-- The segments of a path.
split-pipe_path :
    (m s p : Text)
    → IsAddress m s p
    → split (pipe_path m s p) b'.' ≡ manifold_parts m ++ (source_part s ++ p ∷ [])
unfolding pipe_path
split-pipe_path m s p k =
    let sl = (source-Lacks k.collar).0 in
    let pl = split_of_Lacks p b'.' (IsHandle-Lacks k.pipe).0 in
    let inner : split (if not (text_eq s []) then s ++ b'.' ∷ p else p) b'.'
        ≡ source_part s ++ p ∷ [] =
      elim (Bool-cases (text_eq s [])) [
        | inl e ↦ rw e pl
        | inr e ↦ rw e (split-append_both s p b'.' ∙ ap₂ ◌++◌ (split_of_Lacks s b'.' sl) pl)
      ] in
    elim (Bool-cases (text_eq m [])) [
      | inl e ↦ rw e inner
      | inr e ↦ rw e (split-append_both m _ b'.' ∙ ap (λ ts. split m b'.' ++ ts) inner)
    ]

-- Presence takes a handle, so that the tokens of the subject give the path.
full_presence :
    (m s p : Text)
    → IsAddress m s p
    → text_eq p presence_pipe ≡ true
    → manifold_parts m ++ (source_part s ++ p ∷ []) ≡ path_tokens m s p ++ p ∷ []
full_presence m s p k here =
    let full : text_eq s [] ≡ false =
      ground (arith, text_eq_iff s [], k.owned ((text_eq_iff _ _).0 here)) in
    rw (here, full) (sym (append_assoc (manifold_parts m) (s ∷ []) (p ∷ [])))

full_other :
    (m s p : Text)
    → text_eq p presence_pipe ≡ false
    → manifold_parts m ++ (source_part s ++ p ∷ []) ≡ path_tokens m s p
full_other m s p other = rw other refl

module _ (uuids : Uuids) (a : Uuid) (m s p m' s' p' : Text) (k : IsAddress m s p)
    (k' : IsAddress m' s' p') where
  same_full :
      text_eq p presence_pipe ≡ text_eq p' presence_pipe
      → path_tokens m s p ≡ path_tokens m' s' p'
      → manifold_parts m ++ (source_part s ++ p ∷ [])
        ≡ manifold_parts m' ++ (source_part s' ++ p' ∷ [])
  same_full f e = elim (Bool-cases (text_eq p presence_pipe)) [
    | inl here ↦
        let name : p ≡ p' = (text_eq_iff _ _).0 here ∙ sym ((text_eq_iff _ _).0 (sym f ∙ here)) in
        full_presence m s p k here
        ∙ ap₂ (λ ts n. ts ++ n ∷ []) e name
        ∙ sym (full_presence m' s' p' k' (sym f ∙ here))
    | inr other ↦ full_other m s p other ∙ e ∙ sym (full_other m' s' p' (sym f ∙ other))
  ]

  pub path_of_subject :
      build_subject uuids a m s p ≡ build_subject uuids a m' s' p'
      → pipe_path m s p ≡ pipe_path m' s' p'
  path_of_subject e =
      let (f, ts) = tokens_of_subject uuids a m s p m' s' p' k k' e in
      split_inj _ _ b'.'
        (split-pipe_path m s p k ∙ same_full f ts ∙ sym (split-pipe_path m' s' p' k'))

  pub path_of_stream :
      build_stream_name uuids a m s p ≡ build_stream_name uuids a m' s' p'
      → pipe_path m s p ≡ pipe_path m' s' p'
  path_of_stream e = path_of_subject ((build_stream_name-eq_iff uuids a m s p m' s' p' k k').0 e)

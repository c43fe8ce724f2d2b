-- ===== src/Daemon/Subs/Members.antt =====
-- What a list of subjects holds after sorting, adding and filtering.
use ppz.Base.{
  ◌≤◌, ◌≡◌, ◌≢◌, ◌↔◌, ◌⊎◌, inl, inr, refl, sym, ap, ◌∙◌, subst, Bool, true, false, List, [], ◌∷◌,
  map, length, length-append, any_iff, filter, In, In-append, In-append_left, In-append_right, Text,
  text_eq, text_eq_iff, arith, Bool-cases,
}
use ppz.Daemon.Heartbeats.{text_lt}
use ppz.Daemon.Subs.{trim_space, insert_string, sort_strings, has_text, add_subject, add_subjects}

module _ (x : Text) where
  In-insert_string : (s : Text) (l : List Text) → In x (insert_string s l) ↔ ((s ≡ x) ⊎ In x l)
  unfolding insert_string
  In-insert_string s [] = (λ m. m, λ m. m)
  In-insert_string s (t ∷ l) = elim (Bool-cases (text_lt s t)) [
    | inl k ↦ rw k (λ m. m, λ m. m)
    | inr k ↦
        let (there, back) = In-insert_string s l in
        rw k (
          λ m. elim m [
            | inl same ↦ inr (inl same)
            | inr n ↦ elim (there n) [ inl same ↦ inl same | inr r ↦ inr (inr r) ]
          ],
          λ m. elim m [
            | inl same ↦ inr (back (inl same))
            | inr (inl same) ↦ inl same
            | inr (inr r) ↦ inr (back (inr r))
          ],
        )
  ]

  pub In-sort_strings : (l : List Text) → In x (sort_strings l) ↔ In x l
  unfolding sort_strings
  In-sort_strings [] = (λ m. m, λ m. m)
  In-sort_strings (s ∷ l) =
      let (out, back) = In-insert_string s (sort_strings l) in
      let (there, here) = In-sort_strings l in
      (
        λ m. elim (out m) [ inl same ↦ inl same | inr n ↦ inr (there n) ],
        λ m. elim m [ inl same ↦ back (inl same) | inr n ↦ back (inr (here n)) ],
      )

  pub has_text_iff : (l : List Text) → (has_text l x ≡ true) ↔ In x l
  unfolding has_text
  has_text_iff l = (
    λ h.
        let (t, m, e) = (any_iff (λ t. text_eq t x) l).0 h in
        subst (λ s. In s l) ((text_eq_iff t x).0 e) m,
    λ m. (any_iff (λ t. text_eq t x) l).1 (x, m, (text_eq_iff x x).1 refl),
  )

  pub In-filter : (p : Text → Bool) (l : List Text) → In x (filter p l) ↔ (In x l × (p x ≡ true))
  In-filter p [] = (λ m. absurd m, λ (m, k). absurd m)
  In-filter p (s ∷ l) =
      let (there, back) = In-filter p l in
      elim (Bool-cases (p s)) [
        | inl k ↦ rw k (
          λ m. elim m [
            | inl same ↦ (inl same, subst (λ t. p t ≡ true) same k)
            | inr n ↦ (inr (there n).0, (there n).1)
          ],
          λ (m, h). elim m [ inl same ↦ inl same | inr n ↦ inr (back (n, h)) ],
        )
        | inr k ↦ rw k (
          λ n. (inr (there n).0, (there n).1),
          λ (m, h). elim m [
            | inl same ↦ absurd (ground (arith, subst (λ t. p t ≡ false) same k))
            | inr n ↦ back (n, h)
          ],
        )
      ]

  abbrev pub Adds : List Text → Type 0
  Adds subjects = (x ≢ []) × In x (map trim_space subjects)

  In-add_subject :
      (subj : Text) (cur : List Text)
      → In x (add_subject subj cur) ↔ (In x cur ⊎ ((x ≢ []) × (trim_space subj ≡ x)))
  unfolding add_subject
  In-add_subject subj cur = elim (Bool-cases (text_eq (trim_space subj) [])) [
    | inl none_left ↦ rw none_left (
      λ m. inl m,
      λ m. elim m [
        | inl n ↦ n
        | inr (s, e) ↦ absurd (s (sym e ∙ (text_eq_iff (trim_space subj) []).0 none_left))
      ],
    )
    | inr some_left ↦ elim (Bool-cases (has_text cur (trim_space subj))) [
      | inl seen ↦
          rw (some_left, seen)
            (
              λ m. inl m,
              λ m. elim m [
                | inl n ↦ n
                | inr (s, e) ↦ (has_text_iff cur).0 (ap (has_text cur) (sym e) ∙ seen)
              ],
            )
      | inr fresh ↦
          rw (some_left, fresh)
            (
              λ m. elim (In-append x cur (trim_space subj ∷ []) m) [
                | inl n ↦ inl n
                | inr (inl e) ↦ inr (
                  λ none_left. ground (arith, (text_eq_iff (trim_space subj) []).1 (e ∙ none_left)),
                  e,
                )
                | inr (inr n) ↦ absurd n
              ],
              λ m. elim m [
                | inl n ↦ In-append_left x cur (trim_space subj ∷ []) n
                | inr (s, e) ↦ In-append_right x cur (trim_space subj ∷ []) (inl e)
              ],
            )
    ]
  ]

  pub In-add_subjects :
      (subjects cur : List Text) → In x (add_subjects subjects cur) ↔ (In x cur ⊎ Adds subjects)
  unfolding add_subjects
  In-add_subjects [] cur = (λ m. inl m, λ m. elim m [ inl n ↦ n | inr n ↦ absurd n.1 ])
  In-add_subjects (subj ∷ subjects) cur =
      let (out, back) = In-add_subjects subjects (add_subject subj cur) in
      let (there, here) = In-add_subject subj cur in
      (
        λ m. elim (out m) [
          | inl n ↦ elim (there n) [ inl c ↦ inl c | inr (s, e) ↦ inr (s, inl e) ]
          | inr (s, n) ↦ inr (s, inr n)
        ],
        λ m. elim m [
          | inl c ↦ back (inl (here (inl c)))
          | inr (s, inl e) ↦ back (inl (here (inr (s, e))))
          | inr (s, inr n) ↦ back (inr (s, n))
        ],
      )

-- A filter that keeps the length keeps everything.
pub length-filter_le : (p : Text → Bool) (l : List Text) → length (filter p l) ≤ length l
length-filter_le p [] = omega arith
length-filter_le p (s ∷ l) = ground (arith, length-filter_le p l)

pub filter_all : (p : Text → Bool) (l : List Text) → length (filter p l) ≡ length l → filter p l ≡ l
filter_all p [] h = refl
filter_all p (s ∷ l) h = elim (Bool-cases (p s)) [
  | inl k ↦ rw k (ap (λ (t : List Text). s ∷ t) (filter_all p l (ground arith)))
  | inr k ↦ absurd (ground (arith, length-filter_le p l))
]

pub grows :
    (subj : Text) (cur : List Text)
    → (length (add_subject subj cur) ≡ length cur)
    → add_subject subj cur ≡ cur
unfolding add_subject
grows subj cur h = ground (arith, length-append cur (trim_space subj ∷ []))

length-add_subject_le : (subj : Text) (cur : List Text) → length cur ≤ length (add_subject subj cur)
unfolding add_subject
length-add_subject_le subj cur = ground (arith, length-append cur (trim_space subj ∷ []))

pub length-add_subjects_le :
    (subjects cur : List Text) → length cur ≤ length (add_subjects subjects cur)
unfolding add_subjects
length-add_subjects_le [] cur = omega arith
length-add_subjects_le (subj ∷ subjects) cur =
    omega (
      arith,
      length-add_subject_le subj cur,
      length-add_subjects_le subjects (add_subject subj cur),
    )

pub add_subjects_all :
    (subjects cur : List Text)
    → length (add_subjects subjects cur) ≡ length cur
    → add_subjects subjects cur ≡ cur
unfolding add_subjects
add_subjects_all [] cur h = refl
add_subjects_all (subj ∷ subjects) cur h =
    let same : add_subject subj cur ≡ cur = grows subj cur (
      omega (
        arith,
        h,
        length-add_subject_le subj cur,
        length-add_subjects_le subjects (add_subject subj cur),
      )) in
    ap (add_subjects subjects) same
    ∙ add_subjects_all subjects cur
        (ap (λ (l : List Text). length (add_subjects subjects l)) (sym same) ∙ h)

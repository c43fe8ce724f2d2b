-- ===== src/Daemon/Subs/Added.antt =====
-- What a session is subscribed to after `Add` and `Remove`.
use ppz.Base.{
  ◌≡◌, ◌↔◌, ◌⊎◌, inl, inr, refl, sym, subst, Bool, true, not, ◌&&◌, List, nat_eq, length, filter,
  In, Text, text_eq_refl, arith, Bool-cases,
}
use ppz.Daemon.Cursors.{session}
use ppz.Daemon.Subs.{
  Subs, SubsFile, holds, SubsDisk, put_file, sort_strings, read_subs_file, load_locked, save_locked,
  list, has_text, add_subjects, add, remove,
}
use ppz.Daemon.Subs.Members.{
  In-sort_strings, In-filter, Adds, In-add_subjects, filter_all, add_subjects_all,
}

put_file_same :
    (dir sess : Text) (file : SubsFile) (subs : Subs) → put_file dir sess file subs dir sess ≡ file
unfolding put_file
put_file_same dir sess file subs = rw (text_eq_refl dir, text_eq_refl sess) refl

module _ (x : Text) (disk : SubsDisk) (account sess : Text) where
  saved :
      (l : List Text) (subs : Subs)
      → (save_locked disk account sess l subs).0 ≡ true
      → In x (read_subs_file ((save_locked disk account sess l subs).1 account sess)) ↔ In x l
  unfolding save_locked read_subs_file
  saved l subs h = elim (Bool-cases (disk.made_dir && (disk.wrote && disk.renamed))) [
    | inr bad ↦ absurd (ground arith)
    | inl good ↦
        let (out, back) = In-sort_strings x (sort_strings l) in
        let (there, here) = In-sort_strings x l in
        rw (good, put_file_same account sess (holds (sort_strings l)) subs)
          (λ m. there (out m), λ m. back (here m))
  ]

module _ (x : Text) (disk : SubsDisk) (account sess : Text) (subjects : List Text)
    (subs : Subs) where
  abbrev before : List Text
  before = (list disk account sess subs).0

  -- When `Add` succeeds, the session's file in the account's directory then gives exactly the
  -- subjects that `List` gave on the same answers of the file system, those of an adopted file of
  -- the flat layout included, and the given subjects without the white space around them, the
  -- empty ones left out.
  pub add_iff :
      (add disk account sess subjects subs).0 ≡ true
      → In x (read_subs_file ((add disk account sess subjects subs).1 account (session sess)))
        ↔ (In x (list disk account sess subs).0 ⊎ Adds x subjects)
  unfolding add list load_locked
  add_iff h =
      let (out, back) = In-add_subjects x subjects before in
      elim (Bool-cases (nat_eq (length (add_subjects subjects before)) (length before))) [
        | inl same ↦
            let whole = add_subjects_all subjects before (ground arith) in
            rw same (λ m. inl m, λ m. subst (λ (l : List Text). In x l) whole (back m))
        | inr grown ↦
            let left = (load_locked disk account (session sess) subs).1 in
            let (there, here) =
              saved x disk account (session sess) (add_subjects subjects before) left
                (rw grown at h) in
            rw grown (λ m. out (there m), λ m. here (back m))
      ]

  pub remove_iff :
      (remove disk account sess subjects subs).0 ≡ true
      → In x (read_subs_file ((remove disk account sess subjects subs).1 account (session sess)))
        ↔ (In x (list disk account sess subs).0 × (not (has_text subjects x) ≡ true))
  unfolding remove list load_locked
  remove_iff h =
      let p : Text → Bool = λ s. not (has_text subjects s) in
      let (out, back) = In-filter x p before in
      elim (Bool-cases (nat_eq (length (filter p before)) (length before))) [
        | inl same ↦
            let whole = filter_all p before (ground arith) in
            rw same (λ m. out (subst (λ (l : List Text). In x l) (sym whole) m), λ (m, k). m)
        | inr cut ↦
            let left = (load_locked disk account (session sess) subs).1 in
            let (there, here) =
              saved x disk account (session sess) (filter p before) left (rw cut at h) in
            rw cut (λ m. out (there m), λ m. here (back m))
      ]

-- ===== src/Daemon/Subs/Swept.antt =====
-- A handle that is gone leaves no subscription, and no other subscription goes with it.
use ppz.Base.{
  ◌≡◌, ◌≢◌, ◌↔◌, ◌⊎◌, inl, inr, refl, sym, ◌∙◌, subst, Bool, true, false, not, ◌&&◌, List, [], ◌∷◌,
  nat_eq, length, filter, In, Text, text_eq, text_eq_iff, text_eq_refl, arith, Bool-cases,
}
use ppz.Daemon.Subs.{
  Subs, SubsFile, missing, unparsed, holds, put_file, read_subs_file, is_missing, targets, Listing,
  no_dir, failed, entries, sweep_entries, sweep_dir, sweep_handle,
}
use ppz.Daemon.Subs.Members.{In-sort_strings, In-filter, filter_all}

-- The sessions that a listing names.
abbrev pub names : Listing → List Text
names no_dir = []
names failed = []
names (entries l) = l

module _ (x : Text) (wrote : Text → Text → Bool) (handle : Text) where
  abbrev keep : Text → Bool
  keep s = not (targets handle s)

  -- A session is subscribed to `x`.
  abbrev Has : Subs → Text → Text → Type 0
  Has subs d s = In x (read_subs_file (subs d s))

  abbrev kept : Subs → Text → Text → List Text
  kept subs dir sess = filter keep (read_subs_file (subs dir sess))

  rewritten :
      (dir sess d s : Text) (subs : Subs)
      → let after = put_file dir sess (holds (kept subs dir sess)) subs in
        (Has after d s → Has subs d s) × (keep x ≡ true → Has subs d s → Has after d s)
  unfolding put_file read_subs_file
  rewritten dir sess d s subs = elim (Bool-cases (text_eq d dir && text_eq s sess)) [
    | inr other ↦ rw other (λ m. m, λ k m. m)
    | inl same ↦
        let d_is : d ≡ dir = (text_eq_iff d dir).0 (ground arith) in
        let s_is : s ≡ sess = (text_eq_iff s sess).0 (ground arith) in
        let (there, here) = In-sort_strings x (kept subs dir sess) in
        let (out, back) = In-filter x keep (read_subs_file (subs dir sess)) in
        let file : subs dir sess ≡ subs d s = cc in
        rw same (
          λ m. subst (λ (f : SubsFile). In x (read_subs_file f)) file (out (there m)).0,
          λ k m. here (back (subst (λ (f : SubsFile). In x (read_subs_file f)) (sym file) m, k)),
        )
  ]

  rewritten_clean :
      (dir sess : Text) (subs : Subs)
      → Has (put_file dir sess (holds (kept subs dir sess)) subs) dir sess
      → keep x ≡ true
  unfolding put_file read_subs_file
  rewritten_clean dir sess subs m =
      let (there, here) = In-sort_strings x (kept subs dir sess) in
      let (out, back) = In-filter x keep (read_subs_file (subs dir sess)) in
      (out (there (rw (text_eq_refl dir, text_eq_refl sess) at m))).1

  -- What a sweep does, where `ok` says that it succeeded and `l` are the sessions that it went over.
  abbrev Sweeps : Text → List Text → Subs → Bool → Subs → Type 0
  Sweeps dir l subs ok after =
      ((d s : Text)
        → (Has after d s → Has subs d s) × (keep x ≡ true → Has subs d s → Has after d s))
      × (ok ≡ true → (s : Text) → In s l → Has after dir s → keep x ≡ true)

  sweep_entries-Sweeps :
      (dir : Text) (l : List Text) (subs : Subs)
      → Sweeps dir l subs
          (sweep_entries wrote handle dir l subs).0
          (sweep_entries wrote handle dir l subs).1
  unfolding sweep_entries
  sweep_entries-Sweeps dir [] subs = (λ d s. (λ m. m, λ k m. m), λ ok s m. absurd m)
  sweep_entries-Sweeps dir (sess ∷ l) subs =
      elim (Bool-cases
        (nat_eq (length (kept subs dir sess)) (length (read_subs_file (subs dir sess))))) [
          | inl clean ↦
              let (same, gone) = sweep_entries-Sweeps dir l subs in
              let whole = filter_all keep (read_subs_file (subs dir sess)) (ground arith) in
              let (out, back) = In-filter x keep (read_subs_file (subs dir sess)) in
              rw clean (
                same,
                λ ok s m h. elim m [
                  | inl e ↦
                      (out (
                        subst (λ (t : List Text). In x t) (sym whole)
                          ((same dir sess).0 (
                            subst (λ t. Has (sweep_entries wrote handle dir l subs).1 dir t) (sym e)
                              h)))).1
                  | inr n ↦ gone ok s n h
                ],
              )
          | inr dirty ↦ elim (Bool-cases (wrote dir sess)) [
            | inr bad ↦
                rw (dirty, bad) (λ d s. (λ m. m, λ k m. m), λ ok s m h. absurd (ground arith))
            | inl good ↦
                let next = put_file dir sess (holds (kept subs dir sess)) subs in
                let (same, gone) = sweep_entries-Sweeps dir l next in
                rw (dirty, good)
                  (
                    λ d s. (
                      λ m. (rewritten dir sess d s subs).0 ((same d s).0 m),
                      λ k m. (same d s).1 k ((rewritten dir sess d s subs).1 k m),
                    ),
                    λ ok s m h. elim m [
                      | inl e ↦ rewritten_clean dir sess subs (
                          (same dir sess).0 (
                            subst (λ t. Has (sweep_entries wrote handle dir l next).1 dir t) (sym e)
                              h))
                      | inr n ↦ gone ok s n h
                    ],
                  )
          ]
        ]

  sweep_dir-Sweeps :
      (dir : Text) (listing : Listing) (subs : Subs)
      → Sweeps dir
          (names listing)
          subs
          (sweep_dir wrote handle dir listing subs).0
          (sweep_dir wrote handle dir listing subs).1
  unfolding sweep_dir
  sweep_dir-Sweeps dir no_dir subs = (λ d s. (λ m. m, λ k m. m), λ ok s m. absurd m)
  sweep_dir-Sweeps dir failed subs = (λ d s. (λ m. m, λ k m. m), λ ok s m. absurd m)
  sweep_dir-Sweeps dir (entries l) subs = sweep_entries-Sweeps dir l subs

module _ (x : Text) (wrote : Text → Text → Bool) (read_dir : Text → Listing) (account handle : Text)
    (subs : Subs) where
  abbrev first : Bool × Subs
  first = sweep_dir wrote handle account (read_dir account) subs

  abbrev second : Bool × Subs
  second = sweep_dir wrote handle [] (read_dir []) first.1

  abbrev swept : Bool × Subs
  swept = sweep_handle wrote read_dir account handle subs

  -- A sweep that succeeds is the one of the account's directory, or it and the one of the flat layout.
  both_dirs :
      handle ≢ []
      → swept.0 ≡ true
      → (first.0 ≡ true)
        × ((account ≡ []) × (swept.1 ≡ first.1) ⊎ (second.0 ≡ true) × (swept.1 ≡ second.1))
  unfolding sweep_handle
  both_dirs some_handle h = elim (Bool-cases (text_eq handle [])) [
    | inl e ↦ absurd (some_handle ((text_eq_iff handle []).0 e))
    | inr e ↦ elim (Bool-cases first.0) [
      | inr bad ↦ absurd (ground arith)
      | inl good ↦ elim (Bool-cases (text_eq account [])) [
        | inl flat ↦ (good, inl ((text_eq_iff account []).0 flat, rw (e, good, flat) refl))
        | inr scoped ↦ (good, inr (rw (e, good, scoped) at h, rw (e, good, scoped) refl))
      ]
    ]
  ]

  not_missing : (f : SubsFile) → In x (read_subs_file f) → is_missing f ≡ false
  unfolding read_subs_file is_missing
  not_missing missing m = absurd m
  not_missing unparsed m = refl
  not_missing (holds l) m = refl

  -- When `SweepHandle` succeeds for a handle that is not empty, a session of the account or of
  -- the flat layout, which the directory's listing names unless it has no file, is subscribed to
  -- exactly those subjects that it was subscribed to before and that do not target the handle.
  pub sweep_handle_iff :
      (d s : Text)
      → handle ≢ []
      → (d ≡ account) ⊎ (d ≡ [])
      → (is_missing (subs d s) ≡ false → In s (names (read_dir d)))
      → (sweep_handle wrote read_dir account handle subs).0 ≡ true
      → In x (read_subs_file ((sweep_handle wrote read_dir account handle subs).1 d s))
        ↔ (In x (read_subs_file (subs d s)) × (not (targets handle x) ≡ true))
  sweep_handle_iff d s some_handle where_is listed h =
      let (ok, rest) = both_dirs some_handle h in
      let (same, gone) = sweep_dir-Sweeps x wrote handle account (read_dir account) subs in
      let (same', gone') = sweep_dir-Sweeps x wrote handle [] (read_dir []) first.1 in
      let in_list : In x (read_subs_file (subs d s)) → In s (names (read_dir d)) =
        λ m. listed (not_missing (subs d s) m) in
      let holds_in : Subs → Type 0 = λ t. In x (read_subs_file (t d s)) in
      let at_account : d ≡ account → holds_in first.1 → not (targets handle x) ≡ true = λ e m.
        gone ok s (subst (λ t. In s (names (read_dir t))) e (in_list ((same d s).0 m)))
          (subst (λ t. In x (read_subs_file (first.1 t s))) e m) in
      elim rest [
        | inl (flat, e) ↦ (
          λ m.
              let n = subst holds_in e m in
              ((same d s).0 n, at_account (elim where_is [ inl k ↦ k | inr k ↦ k ∙ sym flat ]) n),
          λ (m, k). subst holds_in (sym e) ((same d s).1 k m),
        )
        | inr (ok', e) ↦ (
          λ m.
              let n = subst holds_in e m in
              let n' = (same' d s).0 n in
              (
                (same d s).0 n',
                elim where_is [
                  | inl k ↦ at_account k n'
                  | inr k ↦
                      gone' ok' s
                        (subst (λ t. In s (names (read_dir t))) k (in_list ((same d s).0 n')))
                        (subst (λ t. In x (read_subs_file (second.1 t s))) k n)
                ],
              ),
          λ (m, k). subst holds_in (sym e) ((same' d s).1 k ((same d s).1 k m)),
        )
      ]

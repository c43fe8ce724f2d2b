-- ===== src/Daemon/Heartbeats/Cache.antt =====
-- What the cache holds after any calls.
use ppz.Base.{
  ◌≡◌, ◌≢◌, ◌↔◌, ◌⊎◌, inl, inr, refl, sym, ap, ◌∙◌, subst, Bool, Option, none, some, List, [], ◌∷◌,
  if◌then◌else◌, filter, In, Text, text_eq, text_eq_iff, arith, Bool-cases,
}
use ppz.Daemon.Heartbeats.{
  HeartbeatEntry, Cache, stamp_entry, clear, drop_other_accounts, text_lt, insert_sorted,
  sort_by_handle, snapshot_account,
}

-- A call on the cache.
pub data Op : Type 0 where
  stamps : HeartbeatEntry → Op
  clears : Op
  drops_others : Text → Op

-- The cache after the calls, the latest first.
unfoldable pub after : List Op → Cache
after [] = []
after (stamps e ∷ older) = stamp_entry e (after older)
after (clears ∷ older) = clear (after older)
after (drops_others a ∷ older) = drop_other_accounts a (after older)

-- The beat of a handle that still counts: the latest stamp, unless the cache was cleared since, or the
-- entries of accounts other than some one were dropped, and its own was another.
unfoldable pub latest_beat : Text → List Op → Option HeartbeatEntry
latest_beat h [] = none
latest_beat h (stamps e ∷ older) = if text_eq e.handle h then some e else latest_beat h older
latest_beat h (clears ∷ older) = none
latest_beat h (drops_others a ∷ older) = elim (latest_beat h older) [
  | none ↦ none
  | some e ↦ if text_eq e.account_id a then some e else none
]

abbrev pub find_beat : Text → Cache → Option HeartbeatEntry
find_beat h [] = none
find_beat h (x ∷ cache) = if text_eq x.handle h then some x else find_beat h cache

find_beat-stamp_entry :
    (h : Text) (e : HeartbeatEntry) (cache : Cache)
    → find_beat h (stamp_entry e cache) ≡ (if text_eq e.handle h then some e else find_beat h cache)
unfolding stamp_entry
find_beat-stamp_entry h e [] = refl
find_beat-stamp_entry h e (x ∷ cache) = ground (
  arith,
  text_eq_iff x.handle e.handle,
  text_eq_iff x.handle h,
  text_eq_iff e.handle h,
  find_beat-stamp_entry h e cache,
)

-- No two entries have one handle.
abbrev pub IsUnique : Cache → Type 0
IsUnique [] = Unit
IsUnique (x ∷ cache) = (find_beat x.handle cache ≡ none) × IsUnique cache

stamp_entry-IsUnique :
    (e : HeartbeatEntry) (cache : Cache) → IsUnique cache → IsUnique (stamp_entry e cache)
unfolding stamp_entry
stamp_entry-IsUnique e [] u = (refl, tt)
stamp_entry-IsUnique e (x ∷ cache) u = elim (Bool-cases (text_eq x.handle e.handle)) [
  | inl same ↦ rw same (
    ap (λ (h : Text). find_beat h cache) (sym ((text_eq_iff x.handle e.handle).0 same)) ∙ u.0,
    u.1,
  )
  | inr other ↦ rw other (
    ground (
      arith,
      find_beat-stamp_entry x.handle e cache,
      text_eq_iff x.handle e.handle,
      text_eq_iff e.handle x.handle,
      u.0,
    ),
    stamp_entry-IsUnique e cache u.1,
  )
]

module _ (p : HeartbeatEntry → Bool) where
  find_beat-filter :
      (h : Text) (cache : Cache)
      → IsUnique cache
      → find_beat h (filter p cache)
        ≡ elim (find_beat h cache) [ none ↦ none | some e ↦ if p e then some e else none ]
  find_beat-filter h [] u = refl
  find_beat-filter h (x ∷ cache) u = elim (Bool-cases (text_eq x.handle h)) [
    | inl same ↦
        let absent : find_beat h cache ≡ none =
          ap (λ (k : Text). find_beat k cache) (sym ((text_eq_iff x.handle h).0 same)) ∙ u.0 in
        ground (arith, find_beat-filter h cache u.1)
    | inr other ↦ ground (arith, find_beat-filter h cache u.1)
  ]

  pub filter-IsUnique : (cache : Cache) → IsUnique cache → IsUnique (filter p cache)
  filter-IsUnique [] u = tt
  filter-IsUnique (x ∷ cache) u = elim (Bool-cases (p x)) [
    | inl k ↦
        rw k (ground (arith, find_beat-filter x.handle cache u.1, u.0), filter-IsUnique cache u.1)
    | inr k ↦ rw k (filter-IsUnique cache u.1)
  ]

pub after-IsUnique : (ops : List Op) → IsUnique (after ops)
unfolding after clear drop_other_accounts
after-IsUnique [] = tt
after-IsUnique (stamps e ∷ older) = stamp_entry-IsUnique e (after older) (after-IsUnique older)
after-IsUnique (clears ∷ older) = tt
after-IsUnique (drops_others a ∷ older) =
    filter-IsUnique (λ e. text_eq e.account_id a) (after older) (after-IsUnique older)

find_beat-after : (h : Text) (ops : List Op) → find_beat h (after ops) ≡ latest_beat h ops
unfolding after latest_beat clear drop_other_accounts
find_beat-after h [] = refl
find_beat-after h (stamps e ∷ older) =
    ground (arith, find_beat-stamp_entry h e (after older), find_beat-after h older)
find_beat-after h (clears ∷ older) = refl
find_beat-after h (drops_others a ∷ older) = ground (
  arith,
  find_beat-filter (λ e. text_eq e.account_id a) h (after older) (after-IsUnique older),
  find_beat-after h older,
)

module _ (e : HeartbeatEntry) where
  In-insert_sorted :
      (x : HeartbeatEntry) (cache : Cache) → In e (insert_sorted x cache) ↔ ((x ≡ e) ⊎ In e cache)
  unfolding insert_sorted
  In-insert_sorted x [] = (λ m. m, λ m. m)
  In-insert_sorted x (y ∷ cache) = elim (Bool-cases (text_lt x.handle y.handle)) [
    | inl k ↦ rw k (λ m. m, λ m. m)
    | inr k ↦
        let (there, back) = In-insert_sorted x cache in
        rw k (
          λ m. elim m [
            | inl same ↦ inr (inl same)
            | inr n ↦ elim (there n) [ inl same ↦ inl same | inr r ↦ inr (inr r) ]
          ],
          λ m. elim m [
            | inl same ↦ inr (back (inl same))
            | inr (inl same) ↦ inl same
            | inr (inr r) ↦ inr (back (inr r))
          ],
        )
  ]

  pub In-sort_by_handle : (cache : Cache) → In e (sort_by_handle cache) ↔ In e cache
  unfolding sort_by_handle
  In-sort_by_handle [] = (λ m. m, λ m. m)
  In-sort_by_handle (x ∷ cache) =
      let (out, back) = In-insert_sorted x (sort_by_handle cache) in
      let (there, here) = In-sort_by_handle cache in
      (
        λ m. elim (out m) [ inl same ↦ inl same | inr n ↦ inr (there n) ],
        λ m. elim m [ inl same ↦ back (inl same) | inr n ↦ back (inr (here n)) ],
      )

  In-find_beat : (cache : Cache) → IsUnique cache → In e cache ↔ (find_beat e.handle cache ≡ some e)
  In-find_beat [] u = (λ m. absurd m, λ k. absurd (ground arith))
  In-find_beat (x ∷ cache) u =
      let (there, back) = In-find_beat cache u.1 in
      elim (Bool-cases (text_eq x.handle e.handle)) [
        | inl same ↦
            let absent : find_beat e.handle cache ≡ none =
              ap (λ (k : Text). find_beat k cache) (sym ((text_eq_iff x.handle e.handle).0 same))
              ∙ u.0 in
            (
              λ m. elim m [
                | inl k ↦ rw same (ap some k)
                | inr n ↦ absurd (ground (arith, there n))
              ],
              λ k. inl (ground arith),
            )
        | inr other ↦ (
          λ m. elim m [
            | inl k ↦ absurd (
                ground
                  (arith, text_eq_iff x.handle e.handle, ap (λ (z : HeartbeatEntry). z.handle) k))
            | inr n ↦ rw other (there n)
          ],
          λ k. inr (back (ground arith)),
        )
      ]

  abbrev own : Text → Option HeartbeatEntry → Option HeartbeatEntry
  own account none = none
  own account (some d) = if text_eq d.account_id account then some d else none

  own_iff :
      (account : Text) (o : Option HeartbeatEntry)
      → (own account o ≡ some e) ↔ ((o ≡ some e) × (e.account_id ≡ account))
  own_iff account none = (λ k. absurd (ground arith), λ (k, a). absurd (ground arith))
  own_iff account (some d) = (
    λ k.
        let same : d ≡ e = ground arith in
        let mine : d.account_id ≡ account = ground (arith, text_eq_iff d.account_id account) in
        (ap some same, subst (λ (x : HeartbeatEntry). x.account_id ≡ account) same mine),
    λ (k, a).
        let same : d ≡ e = cc (k) in
        let mine =
          (text_eq_iff d.account_id account).1
            (ap (λ (x : HeartbeatEntry). x.account_id) same ∙ a) in
        rw mine k,
  )

  kept_iff :
      (account : Text) (ops : List Op)
      → In e (filter (λ x. text_eq x.account_id account) (after ops))
        ↔ ((latest_beat e.handle ops ≡ some e) × (e.account_id ≡ account))
  kept_iff account ops =
      let p : HeartbeatEntry → Bool = λ x. text_eq x.account_id account in
      let (out, back) =
        In-find_beat (filter p (after ops)) (filter-IsUnique p (after ops) (after-IsUnique ops)) in
      let found : find_beat e.handle (filter p (after ops))
          ≡ own account (latest_beat e.handle ops) =
        ground (
          arith,
          find_beat-filter p e.handle (after ops) (after-IsUnique ops),
          find_beat-after e.handle ops,
        ) in
      let (mine, yours) = own_iff account (latest_beat e.handle ops) in
      (λ m. mine (sym found ∙ out m), λ q. back (found ∙ yours q))

  pub snapshot_account_iff :
      (account : Text) (ops : List Op)
      → In e (snapshot_account account (after ops))
        ↔ ((account ≢ []) × (latest_beat e.handle ops ≡ some e) × (e.account_id ≡ account))
  unfolding snapshot_account
  snapshot_account_iff account ops =
      let (out, back) =
        In-sort_by_handle (filter (λ x. text_eq x.account_id account) (after ops)) in
      let (kept, keep) = kept_iff account ops in
      elim (Bool-cases (text_eq account [])) [
        | inl k ↦ (λ m. absurd (rw k at m), λ (h, g, a). absurd (h ((text_eq_iff account []).0 k)))
        | inr k ↦ (
          λ m.
              let (b, a) = kept (out (rw k at m)) in
              (λ same. ground (arith, (text_eq_iff account []).1 same), b, a),
          λ (h, b, a). rw k (back (keep (b, a))),
        )
      ]

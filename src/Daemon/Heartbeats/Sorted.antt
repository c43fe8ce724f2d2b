-- ===== src/Daemon/Heartbeats/Sorted.antt =====
-- The rows that `ppz who` shows stand in the order of their handles.
use ppz.Base.{
  ◌≡◌, ◌≢◌, ◌↔◌, inl, inr, refl, true, false, none, some, List, [], ◌∷◌, filter, In, All, Text,
  text_eq, arith, Bool-cases,
}
use ppz.Daemon.Heartbeats.{
  HeartbeatEntry, Cache, text_lt, insert_sorted, sort_by_handle, snapshot_account,
}
use ppz.Daemon.Heartbeats.Cache.{
  Op, after, latest_beat, snapshot_account_iff, find_beat, IsUnique, after-IsUnique,
  filter-IsUnique,
}

text_lt_trans : (a b c : Text) → text_lt a b ≡ true → text_lt b c ≡ true → text_lt a c ≡ true
unfolding text_lt
text_lt_trans [] [] c h k = ground arith
text_lt_trans [] (y ∷ b) [] h k = ground arith
text_lt_trans [] (y ∷ b) (z ∷ c) h k = refl
text_lt_trans (x ∷ a) [] c h k = ground arith
text_lt_trans (x ∷ a) (y ∷ b) [] h k = ground arith
text_lt_trans (x ∷ a) (y ∷ b) (z ∷ c) h k = ground (arith, text_lt_trans a b c)

text_lt_total : (a b : Text) → text_lt a b ≡ false → text_eq b a ≡ false → text_lt b a ≡ true
unfolding text_lt text_eq
text_lt_total [] [] h k = ground arith
text_lt_total [] (y ∷ b) h k = ground arith
text_lt_total (x ∷ a) [] h k = refl
text_lt_total (x ∷ a) (y ∷ b) h k = ground (arith, text_lt_total a b)

-- Every entry has a smaller handle than all that come after it.
abbrev pub IsSorted : Cache → Type 0
IsSorted [] = Unit
IsSorted (x ∷ cache) = All (λ y. text_lt x.handle y.handle ≡ true) cache × IsSorted cache

module _ (P : HeartbeatEntry → Type 0) where
  All-insert_sorted :
      (e : HeartbeatEntry) (cache : Cache) → P e → All P cache → All P (insert_sorted e cache)
  unfolding insert_sorted
  All-insert_sorted e [] p h = (p, tt)
  All-insert_sorted e (x ∷ cache) p h = elim (Bool-cases (text_lt e.handle x.handle)) [
    | inl k ↦ rw k (p, h)
    | inr k ↦ rw k (h.0, All-insert_sorted e cache p h.1)
  ]

  All-sort_by_handle : (cache : Cache) → All P cache → All P (sort_by_handle cache)
  unfolding sort_by_handle
  All-sort_by_handle [] h = tt
  All-sort_by_handle (x ∷ cache) h =
      All-insert_sorted x (sort_by_handle cache) h.0 (All-sort_by_handle cache h.1)

below_all :
    (a : Text) (x : HeartbeatEntry) (cache : Cache)
    → text_lt a x.handle ≡ true
    → All (λ y. text_lt x.handle y.handle ≡ true) cache
    → All (λ y. text_lt a y.handle ≡ true) cache
below_all a x [] k h = tt
below_all a x (y ∷ cache) k h = (text_lt_trans a x.handle y.handle k h.0, below_all a x cache k h.1)

insert_sorted-IsSorted :
    (e : HeartbeatEntry) (cache : Cache)
    → All (λ y. text_eq y.handle e.handle ≡ false) cache
    → IsSorted cache
    → IsSorted (insert_sorted e cache)
unfolding insert_sorted
insert_sorted-IsSorted e [] apart s = (tt, tt)
insert_sorted-IsSorted e (x ∷ cache) apart s = elim (Bool-cases (text_lt e.handle x.handle)) [
  | inl k ↦ rw k ((k, below_all e.handle x cache k s.0), s)
  | inr k ↦ rw k (
    All-insert_sorted (λ y. text_lt x.handle y.handle ≡ true) e cache
        (text_lt_total e.handle x.handle k apart.0) s.0,
    insert_sorted-IsSorted e cache apart.1 s.1,
  )
]

apart_of_absent :
    (h : Text) (cache : Cache)
    → find_beat h cache ≡ none
    → All (λ y. text_eq y.handle h ≡ false) cache
apart_of_absent h [] k = tt
apart_of_absent h (y ∷ cache) k = elim (Bool-cases (text_eq y.handle h)) [
  | inl same ↦ absurd (ground arith)
  | inr other ↦ (other, apart_of_absent h cache (ground arith))
]

sort_by_handle-IsSorted : (cache : Cache) → IsUnique cache → IsSorted (sort_by_handle cache)
unfolding sort_by_handle
sort_by_handle-IsSorted [] u = tt
sort_by_handle-IsSorted (x ∷ cache) u =
    insert_sorted-IsSorted x (sort_by_handle cache)
      (All-sort_by_handle (λ y. text_eq y.handle x.handle ≡ false) cache
        (apart_of_absent x.handle cache u.0))
      (sort_by_handle-IsSorted cache u.1)

snapshot_account-IsSorted :
    (account : Text) (ops : List Op) → IsSorted (snapshot_account account (after ops))
unfolding snapshot_account
snapshot_account-IsSorted account ops = elim (Bool-cases (text_eq account [])) [
  | inl k ↦ rw k tt
  | inr k ↦ rw k (
      sort_by_handle-IsSorted (filter (λ e. text_eq e.account_id account) (after ops))
        (filter-IsUnique (λ e. text_eq e.account_id account) (after ops) (after-IsUnique ops)))
]

-- After any sequence of stamps, clearings and drops of other accounts, the snapshot of an account
-- is in strictly ascending order of the handles, and for each entry, it holds the entry exactly
-- when the account is not empty, the entry carries the account, and it is the latest stamp of its
-- handle since the last clearing, where no later drop of other accounts kept another account than
-- the entry's.
pub snapshot_account-latest_beat :
    (account : Text) (ops : List Op) (e : HeartbeatEntry)
    → IsSorted (snapshot_account account (after ops))
      × (In e (snapshot_account account (after ops))
          ↔ ((account ≢ []) × (latest_beat e.handle ops ≡ some e) × (e.account_id ≡ account)))
snapshot_account-latest_beat account ops e =
    (snapshot_account-IsSorted account ops, snapshot_account_iff e account ops)

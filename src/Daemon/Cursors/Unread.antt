-- ===== src/Daemon/Cursors/Unread.antt =====
-- The count of unread messages against the messages that the stream still holds.
use ppz.Base.{
  ℕ, zero, suc, ◌+◌, ◌-◌, ◌≤◌, ◌≡◌, List, [], ◌∷◌, if◌then◌else◌, ltb, length, filter, arith,
}
use ppz.Daemon.Cursors.{Entry, effective_cursor, unread}

-- The sequences of a stream that holds `n` messages from `first` on.
unfoldable pub held : ℕ → ℕ → List ℕ
held first zero = []
held first (suc n) = first ∷ held (first + 1) n

length-filter-held :
    (c first n : ℕ)
    → length (filter (ltb c) (held first n))
      ≡ (if ltb c first then n else if ltb c (first + n) then first + n - 1 - c else 0)
unfolding held
length-filter-held c first zero = ground arith
length-filter-held c first (suc n) = ground (arith, length-filter-held c (first + 1) n)

-- For a stream that holds n messages in a row from a sequence of at least 1 on, the unread count
-- of the listing is the number of those messages above the effective cursor.
pub unread-length-held :
    (e : Entry) (created first n : ℕ)
    → 1 ≤ first
    → unread e created (first + n - 1) n
      ≡ length (filter (ltb (effective_cursor e created (first + n - 1))) (held first n))
unfolding unread
unread-length-held e created first n h =
    rw (length-filter-held (effective_cursor e created (first + n - 1)) first n) (ground arith)

-- ===== src/Daemon/Read/Rounds.antt =====
-- Any number of reads of one pipe by one session.
use ppz.Base.{
  ℕ, zero, suc, ◌+◌, ◌-◌, ◌≤◌, ◌≡◌, inl, refl, sym, ap, ap₂, ◌∙◌, subst, Bool, true, ◌&&◌, List, [],
  ◌∷◌, ◌++◌, if◌then◌else◌, nat_eq, ltb, length, take, drop, append-take-drop, drop-drop, arith,
  Text, Time,
}
use ppz.Daemon.Cursors.{Entry, Dir, get_entry, advance, unread, effective_cursor}
use ppz.Daemon.Cursors.Watermark.{next_entry, get_entry-advance}
use ppz.Daemon.Read.{
  Message, Request, World, Page, Outcome, nats_unreachable, hung_up, stalled, page, read_retained,
  moves_cursor, move_cursor, read_pipe,
}
use ppz.Daemon.Read.Pages.{IsPlain, info, consumer, IsAt, read-Delivers}

-- One read: the request, the last sequence that the stream then has, and what the surroundings
-- answer.
pub record Round : Type 0 where
  pub req : Request
  pub last : ℕ
  pub now : Time
  pub world : World

-- What reached the client.
abbrev pub delivered_of : Outcome → List Message
delivered_of (page p) = p.delivered
delivered_of _ = []

-- The reads are plain, and the stream only grows from one to the next, up to `last`; it has all
-- before `pos`.
abbrev pub Grows : ℕ → ℕ → List Round → Type 0
Grows last pos [] = pos ≤ last + 1
Grows last pos (r ∷ more) = (pos ≤ r.last + 1) × IsPlain r.req × Grows last (r.last + 1) more

Grows-from :
    (last a b : ℕ) (rounds : List Round) → b ≤ a → Grows last a rounds → Grows last b rounds
Grows-from last a b [] h g = omega arith
Grows-from last a b (r ∷ more) h g = (omega (arith, g.0), g.1, g.2)

module _ (first created : ℕ) (ms : List Message) (session key : Text) where
  -- The messages of all reads in a row, whether every cursor was saved, and the files after them.
  unfoldable pub reads : List Round → Dir → List Message × Bool × Dir
  reads [] dir = ([], true, dir)
  reads (r ∷ more) dir =
      let (out, saved, left) =
        read_pipe r.req (info first created ms r.last) (consumer first created ms) r.now r.world
          session key dir in
      let (rest, ok, end) = reads more left in (delivered_of out ++ rest, saved && ok, end)

  next_entry-IsAt :
      (pos k : ℕ) (e : Entry)
      → 1 ≤ first
      → 1 ≤ k
      → IsAt first created ms pos e
      → IsAt first created ms (pos + k) (next_entry (pos + k - 1) created e)
  next_entry-IsAt pos k e f h at = ground arith

  moves_cursor_lem :
      (req : Request) (p : Page) → IsPlain req → moves_cursor req p ≡ ltb 0 p.last_seq_seen
  unfolding moves_cursor
  moves_cursor_lem req p plain = ground (arith, plain.not_all, plain.advances)

  IsAt-here :
      (pos : ℕ) (e : Entry) → IsAt first created ms pos e → IsAt first created ms (pos + 0) e
  IsAt-here pos e at = subst (λ i. IsAt first created ms i e) (omega arith) at

  page-IsAt :
      (world : World) (pos k seen : ℕ) (dir : Dir)
      → 1 ≤ first
      → seen ≡ (if nat_eq k 0 then 0 else pos + k - 1)
      → IsAt first created ms pos (get_entry dir session key)
      → (if ltb 0 seen then advance world.disk session key seen created dir else (true, dir)).0
        ≡ true
      → IsAt first created ms (pos + k) (
          get_entry
            (if ltb 0 seen then advance world.disk session key seen created dir else (true, dir)).1
            session
            key)
  page-IsAt world pos zero seen dir f e at ok = rw e (IsAt-here pos (get_entry dir session key) at)
  page-IsAt world pos (suc k) seen dir f e at ok =
      let s : seen ≡ pos + suc k - 1 = ground (arith, e) in
      let moved : ltb 0 seen ≡ true = ground arith in
      let saved : (advance world.disk session key seen created dir).0 ≡ true =
        ground (arith, moved) in
      rw (moved, get_entry-advance world.disk session key seen created dir saved, s)
        (next_entry-IsAt pos (suc k) (get_entry dir session key) f (omega arith) at)

  move_cursor-IsAt :
      (r : Round) (pos : ℕ) (dir : Dir) (out : Outcome)
      → read_retained r.req
          (info first created ms r.last)
          (consumer first created ms)
          r.now
          r.world
          (get_entry dir session key)
        ≡ out
      → 1 ≤ first
      → IsPlain r.req
      → pos ≤ r.last + 1
      → IsAt first created ms pos (get_entry dir session key)
      → (move_cursor r.req (info first created ms r.last) r.world session key dir out).0 ≡ true
      → (k : ℕ) × (delivered_of out ≡ take k (drop (pos - first) ms))
        × (k ≤ length (drop (pos - first) ms))
        × (pos + k ≤ r.last + 1)
        × IsAt first created ms (pos + k) (
            get_entry
              (move_cursor r.req (info first created ms r.last) r.world session key dir out).1
              session
              key)
  unfolding move_cursor
  move_cursor-IsAt r pos dir (page p) e f plain le at ok =
      let (k, same, in_, seen, lim, head) =
        read-Delivers first created ms r.req r.last pos r.now r.world (get_entry dir session key) p
          plain le f at e in
      (
        k,
        same,
        in_,
        lim,
        rw (moves_cursor_lem r.req p plain) (
            page-IsAt r.world pos k p.last_seq_seen dir f seen at
              (rw (moves_cursor_lem r.req p plain) at ok)),
      )
  move_cursor-IsAt r pos dir nats_unreachable e f plain le at ok =
      (0, refl, omega arith, omega arith, IsAt-here pos (get_entry dir session key) at)
  move_cursor-IsAt r pos dir hung_up e f plain le at ok =
      (0, refl, omega arith, omega arith, IsAt-here pos (get_entry dir session key) at)
  move_cursor-IsAt r pos dir stalled e f plain le at ok =
      (0, refl, omega arith, omega arith, IsAt-here pos (get_entry dir session key) at)

  abbrev outcome_of : Round → Dir → Outcome × Bool × Dir
  outcome_of r dir =
      read_pipe r.req (info first created ms r.last) (consumer first created ms) r.now r.world
        session key dir

  read-IsAt :
      (r : Round) (pos : ℕ) (dir : Dir)
      → 1 ≤ first
      → IsPlain r.req
      → pos ≤ r.last + 1
      → IsAt first created ms pos (get_entry dir session key)
      → (outcome_of r dir).1 ≡ true
      → (k : ℕ) × (delivered_of (outcome_of r dir).0 ≡ take k (drop (pos - first) ms))
        × (k ≤ length (drop (pos - first) ms))
        × (pos + k ≤ r.last + 1)
        × IsAt first created ms (pos + k) (get_entry (outcome_of r dir).2 session key)
  unfolding read_pipe
  read-IsAt r pos dir f plain le at ok =
      move_cursor-IsAt r pos dir
        (read_retained r.req (info first created ms r.last) (consumer first created ms) r.now
          r.world (get_entry dir session key))
        refl f plain le at ok

  IsAt-le : (pos : ℕ) (e : Entry) → IsAt first created ms pos e → first ≤ pos
  IsAt-le pos e at = ground arith

  drop_further :
      (pos k : ℕ) → first ≤ pos → drop (pos + k - first) ms ≡ drop k (drop (pos - first) ms)
  drop_further pos k h =
      ap (λ (i : ℕ). drop i ms) (omega arith) ∙ sym (drop-drop (pos - first) k ms)

  reads-IsAt :
      (rounds : List Round) (last pos : ℕ) (dir : Dir)
      → 1 ≤ first
      → Grows last pos rounds
      → IsAt first created ms pos (get_entry dir session key)
      → (reads rounds dir).1 ≡ true
      → (n : ℕ) × ((reads rounds dir).0 ≡ take n (drop (pos - first) ms))
        × (pos + n ≤ last + 1)
        × IsAt first created ms (pos + n) (get_entry (reads rounds dir).2 session key)
  unfolding reads
  reads-IsAt [] last pos dir f g at ok =
      (0, refl, omega arith, IsAt-here pos (get_entry dir session key) at)
  reads-IsAt (r ∷ more) last pos dir f g at ok =
      let (k, same, in_, lim, at') = read-IsAt r pos dir f g.1 g.0 at (ground arith) in
      let (n, rest, top, end) =
        reads-IsAt more last (pos + k) (outcome_of r dir).2 f
          (Grows-from last (r.last + 1) (pos + k) more lim g.2) at' (ground arith) in
      let further = drop_further pos k (IsAt-le pos (get_entry dir session key) at) in
      (
        k + n,
        ap₂ (λ (a b : List Message). a ++ b) same (rest ∙ ap (take n) further)
            ∙ append-take-drop k n (drop (pos - first) ms),
        omega arith,
        subst
            (λ i.
              IsAt first created ms i (get_entry (reads more (outcome_of r dir).2).2 session key))
            (omega arith) end,
      )

  unread_at :
      (pos last : ℕ) (e : Entry)
      → 1 ≤ first
      → IsAt first created ms pos e
      → pos ≤ last + 1
      → unread e created last (last + 1 - first) ≡ last + 1 - pos
  unfolding unread effective_cursor
  unread_at pos last e f at h = ground arith

  -- Any number of plain reads of a pipe by a session that has not read it, with any head limits,
  -- fetches that fail or break off, and clients that go away: if the stream holds all its
  -- messages from a first sequence of at least 1 on, all of them parse, it only grows between the
  -- reads, and every cursor that is to be saved is saved, then what the answered reads delivered
  -- one after the other is the first n messages of the stream in order, and the session's unread
  -- count is what is left after them.
  pub reads_in_order :
      (rounds : List Round) (last : ℕ) (dir : Dir)
      → 1 ≤ first
      → Grows last first rounds
      → (get_entry dir session key).seq ≡ 0
      → (reads rounds dir).1 ≡ true
      → (n : ℕ) × ((reads rounds dir).0 ≡ take n ms)
        × (unread (get_entry (reads rounds dir).2 session key) created last (last + 1 - first)
            ≡ last + 1 - (first + n))
  reads_in_order rounds last dir f g fresh ok =
      let none_before : first - first ≡ 0 = omega arith in
      let (n, same, top, end) = reads-IsAt rounds last first dir f g (inl (refl, fresh)) ok in
      (
        n,
        same ∙ ap (λ (i : ℕ). take n (drop i ms)) none_before,
        unread_at (first + n) last (get_entry (reads rounds dir).2 session key) f end top,
      )

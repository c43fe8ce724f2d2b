-- ===== src/Daemon/Cursors/Watermark.antt =====
-- What a session's file says after a run of `Advance` calls.
use ppz.Base.{
  ℕ, ◌≡◌, ◌≢◌, ◌⊎◌, inl, inr, refl, Bool, true, ◌&&◌, some, List, [], ◌∷◌, if◌then◌else◌, nat_eq,
  leb, Text, text_eq, text_eq_iff, arith, ap, sym, ◌∙◌, text_eq_refl, Option-cases, All,
}
use ppz.Daemon.Cursors.{
  Entry, never_read, Stored, marshal, unmarshal, Dir, session, find_entry, put_entry, load_locked,
  get_entry, Disk, save_locked, advance, effective_cursor,
}

unmarshal-marshal : (e : Entry) → unmarshal (marshal e) ≡ e
unfolding unmarshal marshal
unmarshal-marshal e = ground arith

find_entry-put_entry :
    (key : Text) (v : Entry) (k : Text) (m : List (Text × Stored))
    → find_entry k (put_entry key v m) ≡ (if text_eq key k then v else find_entry k m)
unfolding find_entry put_entry
find_entry-put_entry key v k [] = ground (arith, unmarshal-marshal v)
find_entry-put_entry key v k ((j, e) ∷ m) = ground (
  arith,
  unmarshal-marshal v,
  text_eq_iff key k,
  text_eq_iff j key,
  text_eq_iff j k,
  find_entry-put_entry key v k m,
)

-- The entry that a successful call leaves, from the one before it.
abbrev pub next_entry : ℕ → ℕ → Entry → Entry
next_entry seq created cur =
    if nat_eq seq 0
    then cur
    else if nat_eq created cur.created && leb seq cur.seq
    then cur
    else record { seq = seq; created = created }

load_locked-save_locked :
    (disk : Disk) (s : Text) (m : List (Text × Stored)) (dir : Dir)
    → (save_locked disk s m dir).0 ≡ true
    → load_locked (save_locked disk s m dir).1 s ≡ some m
unfolding load_locked save_locked
load_locked-save_locked disk s m dir h = ground (arith, text_eq_refl s)

get_entry_loaded :
    (dir : Dir) (s key : Text) (m : List (Text × Stored))
    → load_locked dir (session s) ≡ some m
    → get_entry dir s key ≡ find_entry key m
unfolding get_entry
get_entry_loaded dir s key m h = ground (arith, h)

module _ (disk : Disk) (s key : Text) (seq created : ℕ) (dir : Dir) where
  abbrev after : Bool × Dir
  after = advance disk s key seq created dir

  saved_entry :
      (m : List (Text × Stored)) (v : Entry)
      → (save_locked disk (session s) (put_entry key v m) dir).0 ≡ true
      → get_entry (save_locked disk (session s) (put_entry key v m) dir).1 s key ≡ v
  saved_entry m v h =
      get_entry_loaded _ s key _ (load_locked-save_locked disk (session s) _ dir h)
      ∙ (find_entry-put_entry key v key m ∙ rw (text_eq_refl key))

  advance_loaded :
      (m : List (Text × Stored))
      → load_locked dir (session s) ≡ some m
      → after.0 ≡ true
      → get_entry after.1 s key ≡ next_entry seq created (find_entry key m)
  unfolding advance
  advance_loaded m e h = ground (
    arith,
    e,
    get_entry_loaded dir s key m e,
    saved_entry m (record { seq = seq; created = created }),
  )

  -- A call that succeeds sets the entry that it names.
  pub get_entry-advance :
      after.0 ≡ true → get_entry after.1 s key ≡ next_entry seq created (get_entry dir s key)
  unfolding advance
  get_entry-advance h = elim (Option-cases (load_locked dir (session s))) [
    | inl bad ↦ ground (arith, bad)
    | inr (m, e) ↦
        advance_loaded m e h ∙ ap (next_entry seq created) (sym (get_entry_loaded dir s key m e))
  ]

pub record Call : Type 0 where
  pub disk : Disk
  pub seq : ℕ
  pub created : ℕ

-- A run of calls, the latest first, and whether all of them succeeded.
unfoldable pub advances : Text → Text → List Call → Dir → Bool × Dir
advances s key [] dir = (true, dir)
advances s key (c ∷ older) dir =
    let (ok, before) = advances s key older dir in
    let (saved, left) = advance c.disk s key c.seq c.created before in (ok && saved, left)

abbrev max : ℕ → ℕ → ℕ
max a b = if leb a b then b else a

-- The highest sequence that the latest calls read of the stream created at `c`, back to the last call
-- for another stream.
pub furthest : ℕ → List Call → ℕ
furthest c [] = 0
furthest c (x ∷ older) =
    if nat_eq x.seq 0
    then furthest c older
    else if nat_eq x.created c
    then max x.seq (furthest c older)
    else 0

unfoldable pub latest : List Call → Entry
unfolding furthest
latest [] = never_read
latest (x ∷ older) =
    if nat_eq x.seq 0
    then latest older
    else record { seq = max x.seq (furthest x.created older); created = x.created }

furthest-latest :
    (c : ℕ) (calls : List Call)
    → furthest c calls ≡ (if nat_eq (latest calls).created c then (latest calls).seq else 0)
unfolding furthest latest
furthest-latest c [] = ground arith
furthest-latest c (x ∷ older) = ground (arith, furthest-latest c older)

next_entry-latest :
    (x : Call) (older : List Call) → next_entry x.seq x.created (latest older) ≡ latest (x ∷ older)
unfolding latest
next_entry-latest x older = ground (arith, furthest-latest x.created older)

module _ (s key : Text) (dir : Dir) (fresh : get_entry dir s key ≡ never_read) where
  get_entry-advances :
      (calls : List Call)
      → (advances s key calls dir).0 ≡ true
      → get_entry (advances s key calls dir).1 s key ≡ latest calls
  unfolding advances latest
  get_entry-advances [] h = fresh
  get_entry-advances (c ∷ older) h =
      get_entry-advance c.disk s key c.seq c.created (advances s key older dir).1 (ground arith)
      ∙ (ap (next_entry c.seq c.created) (get_entry-advances older (ground arith))
          ∙ next_entry-latest c older)

  abbrev pub Known : Call → Type 0
  Known x = x.created ≢ 0

  latest-Known :
      (calls : List Call)
      → All Known calls
      → ((latest calls).seq ≡ 0) ⊎ ((latest calls).created ≢ 0)
  unfolding latest
  latest-Known [] h = inl refl
  latest-Known (x ∷ older) h = ground (arith, latest-Known older h.1, h.0)

  -- After a run of `Advance` calls that all succeed, on an entry that was never read and with
  -- known times of creation, the effective cursor for a stream of a known time of creation is the
  -- highest sequence that the latest calls, back to the last one for another stream, read of it,
  -- or 0 where the stream does not reach that far.
  pub effective_cursor-advances :
      (calls : List Call) (c last_seq : ℕ)
      → (advances s key calls dir).0 ≡ true
      → All Known calls
      → c ≢ 0
      → effective_cursor (get_entry (advances s key calls dir).1 s key) c last_seq
        ≡ (if leb (furthest c calls) last_seq then furthest c calls else 0)
  unfolding effective_cursor
  effective_cursor-advances calls c last_seq h known k =
      rw (get_entry-advances calls h)
        (ground (arith, furthest-latest c calls, latest-Known calls known))

-- ===== src/Daemon/Cursors.antt =====
-- internal/daemon/cursors.go, and the count of unread messages in list_snapshot.go: how far a session
-- has read each pipe.
pub mod Watermark
pub mod Unread
mod Tests
use ppz.Base.{
  ℕ, ◌+◌, ◌-◌, ◌≡◌, Bool, true, false, ◌&&◌, not, Option, none, some, List, [], ◌∷◌, ◌++◌,
  if◌then◌else◌, nat_eq, ltb, leb, Text, text_eq, utf8, Time, zero_time,
}

-- `cursorEntry`. A time of creation is an int64 in two's complement, and 0 stands for an unknown one.
pub record Entry : Type 0 where
  pub seq : ℕ
  pub created : ℕ

-- The value of a map at a key that is not there.
abbrev pub never_read : Entry
never_read = record { seq = 0; created = 0 }

-- The JSON of one entry of a session's file: the bare number of older daemons, or an object, whose
-- `created` is left out where it is 0.
pub data Stored : Type 0 where
  number : ℕ → Stored
  object : ℕ → Option ℕ → Stored

unfoldable pub unmarshal : Stored → Entry
unmarshal (number n) = record { seq = n; created = 0 }
unmarshal (object n none) = record { seq = n; created = 0 }
unmarshal (object n (some t)) = record { seq = n; created = t }

unfoldable pub marshal : Entry → Stored
marshal e = object e.seq (if nat_eq e.created 0 then none else some e.created)

-- A session's file. One that does not parse is read as far as it parsed.
pub data File : Type 0 where
  missing unreadable : File
  holds : List (Text × Stored) → File

-- `<home>/cursors`, by session.
abbrev pub Dir : Type 0
Dir = Text → File

unfoldable pub session : Text → Text
unfolding text_eq utf8
session s = if text_eq s [] then utf8 "default" else s

unfoldable pub find_entry : Text → List (Text × Stored) → Entry
unfolding unmarshal
find_entry key [] = never_read
find_entry key ((k, e) ∷ m) = if text_eq k key then unmarshal e else find_entry key m

unfoldable pub put_entry : Text → Entry → List (Text × Stored) → List (Text × Stored)
unfolding marshal
put_entry key v [] = (key, marshal v) ∷ []
put_entry key v ((k, e) ∷ m) =
    if text_eq k key then (k, marshal v) ∷ m else (k, e) ∷ put_entry key v m

-- `none` is an error other than that there is no file.
unfoldable pub load_locked : Dir → Text → Option (List (Text × Stored))
load_locked dir s = elim (dir s) [ missing ↦ some [] | unreadable ↦ none | holds m ↦ some m ]

unfoldable pub get_entry : Dir → Text → Text → Entry
unfolding load_locked find_entry session
get_entry dir s key = elim (load_locked dir (session s)) [
  | none ↦ never_read
  | some m ↦ find_entry key m
]

-- What the file system answers to a save: the directory, the temporary file and the rename.
pub record Disk : Type 0 where
  pub made_dir : Bool
  pub wrote : Bool
  pub renamed : Bool

abbrev pub saves : Disk → Bool
saves disk = disk.made_dir && (disk.wrote && disk.renamed)

-- `true` is success. The rename puts the whole file in place, so that no failure leaves a part of it.
unfoldable pub save_locked : Disk → Text → List (Text × Stored) → Dir → Bool × Dir
unfolding text_eq
save_locked disk s m dir =
    if saves disk then (true, λ t. if text_eq t s then holds m else dir t) else (false, dir)

unfoldable pub advance : Disk → Text → Text → ℕ → ℕ → Dir → Bool × Dir
unfolding load_locked find_entry put_entry save_locked session
advance disk s key seq created dir =
    if nat_eq seq 0 then (true, dir) else elim (load_locked dir (session s)) [
      | none ↦ (false, dir)
      | some m ↦
          let cur = find_entry key m in
          if nat_eq created cur.created && leb seq cur.seq
          then (true, dir)
          else save_locked disk (session s)
              (put_entry key (record { seq = seq; created = created }) m) dir
    ]

unfoldable pub effective_cursor : Entry → ℕ → ℕ → ℕ
effective_cursor e created last_seq =
    if nat_eq e.seq 0
    then 0
    else if not (nat_eq e.created 0) && (not (nat_eq created 0) && not (nat_eq e.created created))
    then 0
    else if ltb last_seq e.seq
    then 0
    else e.seq

-- The stamp of an instant after 1970, `zero_time` apart from it by 62135596800 seconds.
abbrev unix_epoch : Time
unix_epoch = zero_time + 62135596800000000000

-- What `ppz ls` shows as unread: `last_seq` and `total` are what the stream reports.
unfoldable pub unread : Entry → ℕ → ℕ → ℕ → ℕ
unfolding effective_cursor
unread e created last_seq total =
    let cursor = effective_cursor e created last_seq in
    if ltb cursor last_seq
    then (if ltb (last_seq - cursor) total then last_seq - cursor else total)
    else 0

unfoldable pub cursor_key : Text → Text → Text → Text
unfolding utf8
cursor_key account handle channel = account ++ (utf8 "." ++ (handle ++ (utf8 "." ++ channel)))

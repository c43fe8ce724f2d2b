-- ===== src/Daemon/Cursors/Tests.antt =====
-- Cursors at concrete input.
use ppz.Base.{
  ◌+◌, ◌-◌, length, filter, ltb, ◌≡◌, refl, true, List, [], ◌∷◌, if◌then◌else◌, leb, arith,
}
use ppz.Daemon.Cursors.{
  never_read, Dir, missing, Disk, get_entry, load_locked, advance, effective_cursor, unread,
}
use ppz.Daemon.Cursors.Unread.{held, unread-length-held}
use ppz.Daemon.Cursors.Watermark.{Call, advances, furthest, effective_cursor-advances}

abbrev sound_disk : Disk
sound_disk = record { made_dir = true; wrote = true; renamed = true }

-- Two reads of a stream, then two of the stream that took its place.
abbrev calls : List Call
calls =
    record { disk = sound_disk; seq = 2; created = 8 }
    ∷ record { disk = sound_disk; seq = 3; created = 8 }
    ∷ record { disk = sound_disk; seq = 9; created = 6 }
    ∷ record { disk = sound_disk; seq = 4; created = 6 }
    ∷ []

abbrev empty_dir : Dir
empty_dir s = missing

fresh : get_entry empty_dir [] [] ≡ never_read
unfolding get_entry load_locked
fresh = refl

all_saved : (advances [] [] calls empty_dir).0 ≡ true
unfolding advances advance
all_saved = refl

effective_cursor-advances_example :
    effective_cursor (get_entry (advances [] [] calls empty_dir).1 [] []) 8 5
    ≡ (if leb (furthest 8 calls) 5 then furthest 8 calls else 0)
effective_cursor-advances_example =
    effective_cursor-advances [] [] empty_dir fresh calls 8 5 all_saved
      (ground arith, (ground arith, (ground arith, (ground arith, tt)))) (ground arith)

-- Three of the ten messages that the stream still holds, up to 14, are after 11.
three_left : unread (record { seq = 11; created = 6 }) 6 14 10 ≡ 3
unfolding unread
three_left = refl

unread-length-held_example :
    unread (record { seq = 11; created = 6 }) 6 (5 + 10 - 1) 10
    ≡ length (
        filter
          (ltb (effective_cursor (record { seq = 11; created = 6 }) 6 (5 + 10 - 1)))
          (held 5 10))
unread-length-held_example =
    unread-length-held (record { seq = 11; created = 6 }) 6 5 10 (omega arith)

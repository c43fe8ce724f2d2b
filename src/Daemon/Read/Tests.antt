-- ===== src/Daemon/Read/Tests.antt =====
-- Reads at concrete input.
use ppz.Base.{ℕ, ◌+◌, ◌-◌, ◌^◌, ◌≡◌, refl, true, false, none, some, List, [], ◌∷◌, take, arith}
use ppz.Daemon.Cursors.{Dir, missing, Disk, get_entry, load_locked, unread, effective_cursor}
use ppz.Daemon.Read.{
  Message, Request, Fetch, batch, failed, nothing_drained, drain, Drain, visit_batch, want,
  read_pipe,
}
use ppz.Daemon.Read.Batches.{numbered}
use ppz.Daemon.Read.Ends.{drain_total}
use ppz.Daemon.Read.Pages.{IsPlain}
use ppz.Daemon.Read.Rounds.{Round, reads, reads_in_order}

abbrev message : ℕ → Message
message n = record {
  id = n ∷ [];
  sender = [];
  subject = [];
  payload = n ∷ n ∷ [];
  created_at = 2 ^ 63 + n;
  in_reply_to = [];
  ack_requested = false;
  schedule_id = [];
}

abbrev three : List Message
three = message 1 ∷ message 2 ∷ message 3 ∷ []

-- `ppz read` at most two messages at once.
abbrev two_at_once : Request
two_at_once = record {
  all = false;
  no_advance = false;
  seed_since_unix_ms = 0;
  since_ms = 0;
  head_limit = 2;
  skip = 0;
  limit = 0;
}

abbrev sound_disk : Disk
sound_disk = record { made_dir = true; wrote = true; renamed = true }

abbrev round : List Fetch → Round
round fetches = record {
  req = two_at_once;
  last = 7;
  now = 2 ^ 64;
  world = record { consumer = true; fetches = fetches; client = true; disk = sound_disk };
}

-- A fetch that fails, a batch of one with an error, and a batch of two.
abbrev rounds : List Round
rounds = round (failed ∷ []) ∷ round (batch 1 true ∷ []) ∷ round (batch 9 false ∷ []) ∷ []

abbrev empty_dir : Dir
empty_dir s = missing

fresh : (get_entry empty_dir [] []).seq ≡ 0
unfolding get_entry load_locked
fresh = refl

all_saved : (reads 5 9 three [] [] rounds empty_dir).1 ≡ true
unfolding reads read_pipe drain visit_batch want effective_cursor get_entry
all_saved = refl

-- The second read delivers the first message and the third the two others.
all_delivered : (reads 5 9 three [] [] rounds empty_dir).0 ≡ three
unfolding reads read_pipe drain visit_batch want effective_cursor get_entry
all_delivered = refl

plain : IsPlain two_at_once
plain = record {
  not_all = refl;
  advances = refl;
  no_seed = refl;
  no_since = refl;
  no_skip = refl;
  no_limit = refl;
}

reads_in_order_example :
    (n : ℕ) × ((reads 5 9 three [] [] rounds empty_dir).0 ≡ take n three)
    × (unread (get_entry (reads 5 9 three [] [] rounds empty_dir).2 [] []) 9 7 (7 + 1 - 5)
        ≡ 7 + 1 - (5 + n))
reads_in_order_example =
    reads_in_order 5 9 three [] [] rounds 7 empty_dir (omega arith)
      (omega arith, plain, (omega arith, plain, (omega arith, plain, omega arith))) fresh all_saved

drain_total_example :
    (r : Drain) × (drain two_at_once none
        (batch 1 false ∷ failed ∷ [])
        (numbered 5 three)
        2
        nothing_drained
      ≡ some r)
drain_total_example =
    drain_total two_at_once none (batch 1 false ∷ failed ∷ []) (numbered 5 three) 2 nothing_drained
      (omega arith)

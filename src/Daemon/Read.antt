-- ===== src/Daemon/Read.antt =====
-- internal/daemon/read.go: what a read of a pipe delivers, and how far it moves the cursor.
pub mod Batches
pub mod Drains
pub mod Ends
pub mod Pages
pub mod Rounds
mod Tests
use ppz.Base.{
  ℕ, zero, suc, ◌+◌, ◌-◌, ◌*◌, ◌%◌, ◌^◌, ◌≡◌, Bool, true, false, ◌&&◌, ◌||◌, not, Option, none,
  some, List, [], ◌∷◌, ◌++◌, if◌then◌else◌, nat_eq, ltb, leb, length, take, drop, Text, Time, add,
  millisecond,
}
use ppz.Daemon.Cursors.{Entry, effective_cursor, Dir, get_entry, Disk, advance}

-- The fields of an `envelope.Message` that a read passes on.
pub record Message : Type 0 where
  pub id : Text
  pub sender : Text
  pub subject : Text
  pub payload : Text
  pub created_at : Time
  pub in_reply_to : Text
  pub ack_requested : Bool
  pub schedule_id : Text

-- What a consumer hands over: the sequence, where the metadata parses, and the envelope, where it
-- does.
pub record Delivery : Type 0 where
  pub seq : Option ℕ
  pub envelope : Option Message

pub record Request : Type 0 where
  pub all : Bool
  pub no_advance : Bool
  pub seed_since_unix_ms : ℕ
  pub since_ms : ℕ
  pub head_limit : ℕ
  pub skip : ℕ
  pub limit : ℕ

-- What the stream reports of itself.
pub record Info : Type 0 where
  pub first_seq : ℕ
  pub last_seq : ℕ
  pub msgs : ℕ
  pub created : ℕ

-- Where the drain starts, and whether delivery is by time instead.
pub record Start : Type 0 where
  pub start_seq : ℕ
  pub by_time : Bool

unfoldable pub read_start : Request → Info → Entry → Start
read_start req info entry =
    let cursor = effective_cursor entry info.created info.last_seq in
    if not req.all && ltb 0 info.msgs
    then (if nat_eq cursor 0 && ltb 0 req.seed_since_unix_ms
        then record { start_seq = info.last_seq + 1; by_time = true }
        else if ltb info.first_seq (cursor + 1)
        then record { start_seq = cursor + 1; by_time = false }
        else record { start_seq = info.first_seq; by_time = false })
    else record { start_seq = info.first_seq; by_time = false }

-- The variables of the drain. `last_seq_seen` is 0 before anything was delivered.
pub record Drain : Type 0 where
  pub retained : List Message
  pub last_seq_seen : ℕ
  pub drained : ℕ

-- `sinceCutoff`; `none` is the zero time.
unfoldable pub since_cutoff : Request → Time → Option Time
since_cutoff req now =
    if ltb 0 req.since_ms
    then some (add now ((2 ^ 64 - req.since_ms * millisecond % 2 ^ 64) % 2 ^ 64))
    else none

unfoldable pub passes : Option Time → Message → Bool
passes none env = true
passes (some cutoff) env = leb cutoff env.created_at

unfoldable pub is_full : Request → List Message → Bool
is_full req retained = ltb 0 req.head_limit && leb req.head_limit (length retained)

module _ (req : Request) (cutoff : Option Time) where
  unfoldable pub keep : Delivery → ℕ → Drain → Drain
  unfolding passes
  keep msg seq d = elim msg.envelope [
    | none ↦ record d { drained = d.drained + 1 }
    | some env ↦
        if passes cutoff env
        then record {
          retained = d.retained ++ env ∷ [];
          last_seq_seen = seq;
          drained = d.drained + 1;
        }
        else record d { drained = d.drained + 1 }
  ]

  -- Whether the message was kept, which is when the head limit is looked at.
  unfoldable pub keeps : Delivery → Bool
  unfolding passes
  keeps msg = elim msg.envelope [ none ↦ false | some env ↦ passes cutoff env ]

  -- One message of a batch, and whether the loop over the stream ends with it.
  unfoldable pub visit_msg : Delivery → Drain → Drain × Bool
  unfolding keep keeps is_full
  visit_msg msg d = elim msg.seq [
    | none ↦ (record d { drained = d.drained + 1 }, false)
    | some seq ↦ let d' = keep msg seq d in (d', keeps msg && is_full req d'.retained)
  ]

  unfoldable pub visit_batch : List Delivery → Drain → Drain × Bool
  unfolding visit_msg
  visit_batch [] d = (d, false)
  visit_batch (msg ∷ msgs) d =
      let (d', stop) = visit_msg msg d in
      let rest = visit_batch msgs d' in if stop then (d', true) else rest

-- What a fetch brings: a failure, or at most so many messages, and whether the batch then reports an
-- error.
pub data Fetch : Type 0 where
  failed : Fetch
  batch : ℕ → Bool → Fetch

abbrev pub min : ℕ → ℕ → ℕ
min a b = if ltb b a then b else a

-- The number of messages that a fetch asks for; 0 ends the drain.
unfoldable pub want : Request → ℕ → Drain → ℕ
want req expected d =
    let left = expected - d.drained in
    if ltb 0 req.head_limit then min left (req.head_limit - length d.retained) else left

module _ (req : Request) (cutoff : Option Time) where
  -- The drain on the messages that the consumer still holds; `none` only when there is no answer left
  -- to a fetch.
  unfoldable pub drain : List Fetch → List Delivery → ℕ → Drain → Option Drain
  drain [] pending expected d =
      if ltb d.drained expected && ltb 0 (want req expected d) then none else some d
  drain (a ∷ answers) pending expected d =
      if ltb d.drained expected && ltb 0 (want req expected d)
      then elim a [
        | failed ↦ some d
        | batch n err ↦
            let got = take (min (want req expected d) n) pending in
            let (d', stop) = visit_batch req cutoff got d in
            let more = drain answers (drop (length got) pending) expected d' in
            if stop || (err || nat_eq (length got) 0) then some d' else more
      ]
      else some d

-- What the surroundings answer to a read: the server to the consumer and the fetches, and the client
-- to what is written.
pub record World : Type 0 where
  pub consumer : Bool
  pub fetches : List Fetch
  pub client : Bool
  pub disk : Disk

pub record Page : Type 0 where
  pub delivered : List Message
  pub more_unread : ℕ
  pub last_seq_seen : ℕ
  pub follow_from : ℕ

-- How a read ends: an error for the client, a client that is gone, or a page. `stalled` is a model
-- without an answer to a fetch.
pub data Outcome : Type 0 where
  nats_unreachable hung_up stalled : Outcome
  page : Page → Outcome

unfoldable pub skip_and_limit : Request → List Message → List Message
skip_and_limit req retained =
    let rest =
      if ltb 0 req.skip && ltb req.skip (length retained)
      then drop req.skip retained
      else if leb (length retained) req.skip
      then []
      else retained in
    if ltb 0 req.limit && ltb req.limit (length rest)
    then drop (length rest - req.limit) rest
    else rest

unfoldable pub more_unread : Request → Info → Drain → ℕ
unfolding is_full
more_unread req info d =
    if is_full req d.retained && ltb d.last_seq_seen info.last_seq
    then info.last_seq - d.last_seq_seen
    else 0

abbrev pub nothing_drained : Drain
nothing_drained = record { retained = []; last_seq_seen = 0; drained = 0 }

unfoldable pub finish : Request → World → ℕ → ℕ → Drain → Outcome
unfolding skip_and_limit
finish req world start_seq more d =
    if world.client
    then page (record {
      delivered = skip_and_limit req d.retained;
      more_unread = more;
      last_seq_seen = d.last_seq_seen;
      follow_from = if leb start_seq (d.last_seq_seen + 1) then d.last_seq_seen + 1 else start_seq;
    })
    else hung_up

-- A read of what the stream holds. `messages` is what a consumer delivers from a sequence on.
unfoldable pub read_retained : Request → Info → (ℕ → List Delivery) → Time → World → Entry → Outcome
unfolding read_start since_cutoff more_unread finish
read_retained req info messages now world entry =
    let from = (read_start req info entry).start_seq in
    if ltb 0 info.msgs && leb from info.last_seq
    then (if world.consumer
        then elim (drain req (since_cutoff req now) world.fetches (messages from)
            (info.last_seq - from + 1) nothing_drained) [
              | none ↦ stalled
              | some d ↦ finish req world from (more_unread req info d) d
            ]
        else nats_unreachable)
    else finish req world from 0 nothing_drained

unfoldable pub moves_cursor : Request → Page → Bool
moves_cursor req p = not req.no_advance && (not req.all && ltb 0 p.last_seq_seen)

-- What a read that ended so does to the cursor, and whether that was saved. `handleRead` ignores a
-- cursor that cannot be saved.
unfoldable pub move_cursor : Request → Info → World → Text → Text → Dir → Outcome → Bool × Dir
unfolding moves_cursor advance
move_cursor req info world session key dir (page p) =
    if moves_cursor req p
    then advance world.disk session key p.last_seq_seen info.created dir
    else (true, dir)
move_cursor req info world session key dir _ = (true, dir)

-- The read with its cursor.
unfoldable pub read_pipe :
    Request → Info → (ℕ → List Delivery) → Time → World → Text → Text → Dir → Outcome × Bool × Dir
unfolding read_retained move_cursor
read_pipe req info messages now world session key dir =
    let out = read_retained req info messages now world (get_entry dir session key) in
    let (saved, left) = move_cursor req info world session key dir out in (out, saved, left)

-- ===== src/Daemon/Read/Pages.antt =====
-- One read of a pipe whose messages all parse, without the filters of `reread`.
use ppz.Base.{
  ℕ, ◌+◌, ◌-◌, ◌≤◌, ◌<◌, ◌≡◌, ◌⊎◌, inl, inr, sym, ◌∙◌, false, Option, none, some, List, [], ◌∷◌,
  if◌then◌else◌, nat_eq, ltb, length, take, drop, arith, Bool-cases, Option-cases, Time,
}
use ppz.Daemon.Cursors.{Entry, effective_cursor}
use ppz.Daemon.Read.{
  Message, Delivery, Request, Info, Drain, nothing_drained, since_cutoff, read_start, drain, World,
  Page, Outcome, page, finish, more_unread, skip_and_limit, read_retained,
}
use ppz.Daemon.Read.Batches.{numbered, Fits, InLimit}
use ppz.Daemon.Read.Drains.{Drained, drain-Drained}

-- A read of what is new, from the CLI's `ppz read`.
pub record IsPlain (req : Request) : Type 0 where
  pub not_all : req.all ≡ false
  pub advances : req.no_advance ≡ false
  pub no_seed : req.seed_since_unix_ms ≡ 0
  pub no_since : req.since_ms ≡ 0
  pub no_skip : req.skip ≡ 0
  pub no_limit : req.limit ≡ 0

skip_and_limit_lem :
    (req : Request)
    → IsPlain req
    → (retained : List Message) → skip_and_limit req retained ≡ retained
unfolding skip_and_limit
skip_and_limit_lem req p [] = ground (arith, p.no_skip, p.no_limit)
skip_and_limit_lem req p (m ∷ ms) = ground (arith, p.no_skip, p.no_limit)

since_cutoff_lem : (req : Request) (now : Time) → IsPlain req → since_cutoff req now ≡ none
unfolding since_cutoff
since_cutoff_lem req now p = ground (arith, p.no_since)

finish-page :
    (req : Request) (world : World) (from more : ℕ) (d : Drain) (p : Page)
    → IsPlain req
    → finish req world from more d ≡ page p
    → (p.delivered ≡ d.retained) × (p.last_seq_seen ≡ d.last_seq_seen)
unfolding finish
finish-page req world from more d p plain h =
    ground (arith, skip_and_limit_lem req plain d.retained)

module _ (first created : ℕ) (ms : List Message) where
  -- A stream that has kept every message, up to `last`.
  abbrev pub info : ℕ → Info
  info last = record {
    first_seq = first;
    last_seq = last;
    msgs = last + 1 - first;
    created = created;
  }

  -- A consumer from a sequence on.
  abbrev pub consumer : ℕ → List Delivery
  consumer s = numbered s (drop (s - first) ms)

  -- The entry of a session that has read what comes before `pos`.
  abbrev pub IsAt : ℕ → Entry → Type 0
  IsAt pos e =
      ((pos ≡ first) × (e.seq ≡ 0)) ⊎ ((pos ≡ e.seq + 1) × (e.created ≡ created) × (first ≤ e.seq))

  start_at :
      (req : Request) (last pos : ℕ) (e : Entry)
      → IsPlain req
      → 1 ≤ first
      → IsAt pos e
      → pos ≤ last + 1
      → (read_start req (info last) e).start_seq ≡ pos
  unfolding read_start effective_cursor
  start_at req last pos e plain h at lim = ground (arith, plain.not_all, plain.no_seed)

  -- What a read that ends with a page has done, for a session at `pos`.
  abbrev pub Delivers : Request → ℕ → ℕ → Page → Type 0
  Delivers req last pos p =
      (k : ℕ) × (p.delivered ≡ take k (drop (pos - first) ms))
      × (k ≤ length (drop (pos - first) ms))
      × (p.last_seq_seen ≡ (if nat_eq k 0 then 0 else pos + k - 1))
      × (pos + k ≤ last + 1)
      × InLimit req [] k

  Drained-Delivers :
      (req : Request) (last pos : ℕ) (d : Drain) (p : Page)
      → pos ≤ last
      → Drained req pos (drop (pos - first) ms) (last - pos + 1) nothing_drained d
      → (p.delivered ≡ d.retained) × (p.last_seq_seen ≡ d.last_seq_seen)
      → Delivers req last pos p
  Drained-Delivers req last pos d p le (k, t, head, lim) (e, s) =
      (k, e ∙ t.kept, t.within, s ∙ t.seen, omega arith, head)

  module _ (req : Request) (last pos : ℕ) (now : Time) (world : World) (e : Entry) (p : Page)
      (plain : IsPlain req) (le : pos ≤ last + 1) where
    abbrev drained : Option Drain
    drained =
        drain req none world.fetches (numbered pos (drop (pos - first) ms)) (last - pos + 1)
          nothing_drained

    read_fetched :
        (read_start req (info last) e).start_seq ≡ pos
        → pos ≤ last
        → 1 ≤ first
        → first ≤ pos
        → read_retained req (info last) consumer now world e ≡ (
            if world.consumer
            then elim drained [
              | none ↦ Outcome.stalled
              | some d ↦ finish req world pos (more_unread req (info last) d) d
            ]
            else Outcome.nats_unreachable)
    unfolding read_retained
    read_fetched at h f g = ground (arith, at, since_cutoff_lem req now plain)

    read_caught_up :
        (read_start req (info last) e).start_seq ≡ pos
        → last < pos
        → read_retained req (info last) consumer now world e
          ≡ finish req world pos 0 nothing_drained
    unfolding read_retained
    read_caught_up at h = ground (arith, at)

    nil-Fits : Fits req []
    nil-Fits = ground arith

    fetched-Delivers :
        pos ≤ last
        → (if world.consumer
            then elim drained [
              | none ↦ Outcome.stalled
              | some d ↦ finish req world pos (more_unread req (info last) d) d
            ]
            else Outcome.nats_unreachable)
          ≡ page p
        → Delivers req last pos p
    fetched-Delivers g h = elim (Bool-cases world.consumer) [
      | inr gone ↦ absurd (ground (arith, gone))
      | inl there ↦ elim (Option-cases drained) [
        | inl out ↦ absurd (ground (arith, there, out))
        | inr (d, e) ↦
            Drained-Delivers req last pos d p g
              (drain-Drained req world.fetches pos _ _ nothing_drained d nil-Fits e)
              (finish-page req world pos (more_unread req (info last) d) d p plain
                (ground (arith, there, e)))
      ]
    ]

    pub read-Delivers :
        1 ≤ first
        → IsAt pos e
        → read_retained req (info last) consumer now world e ≡ page p
        → Delivers req last pos p
    read-Delivers f at h = elim (Bool-cases (ltb last pos)) [
      | inl up ↦
          let (same, seen) =
            finish-page req world pos 0 nothing_drained p plain
              (sym (read_caught_up (start_at req last pos e plain f at le) (ground arith)) ∙ h) in
          (0, same, omega arith, seen, omega arith, ground arith)
      | inr more ↦ fetched-Delivers (ground arith) (
          sym (read_fetched (start_at req last pos e plain f at le) (ground arith) f (ground arith))
          ∙ h)
    ]

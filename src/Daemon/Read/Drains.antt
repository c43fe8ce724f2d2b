-- ===== src/Daemon/Read/Drains.antt =====
-- What the fetches of one read leave of a pipe whose messages all parse, without the filters of
-- `reread`.
use ppz.Base.{
  ℕ, ◌+◌, ◌-◌, ◌≤◌, ◌≡◌, ◌⊎◌, inl, inr, sym, ap, subst, ◌∙◌, Bool, true, false, ◌&&◌, ◌||◌, Option,
  none, some, List, [], ◌∷◌, if◌then◌else◌, nat_eq, ltb, length, take, drop, length-append,
  length-take_le, arith, Bool-cases,
}
use ppz.Daemon.Read.{
  Message, Delivery, Request, Drain, visit_batch, min, want, drain, Fetch, failed, batch,
}
use ppz.Daemon.Read.Ends.{drain_failed, drain_batch}
use ppz.Daemon.Read.Batches.{
  numbered, Took, take-numbered, drop-numbered, length-numbered, length-take, Took-take,
  Took-nothing, Took-trans, Fits, InLimit, visit_batch-Took,
}

module _ (req : Request) where
  -- Whether the drain fetches again.
  abbrev fetches : ℕ → Drain → Bool
  fetches expected d = ltb d.drained expected && ltb 0 (want req expected d)

  module _ (n : ℕ) (err : Bool) (answers : List Fetch) (first : ℕ) (ms : List Message)
      (expected : ℕ) (d : Drain) where
    abbrev got : List Message
    got = take (min (want req expected d) n) ms

    abbrev seen : Drain × Bool
    seen = visit_batch req none (numbered first got) d

    drain_lem :
        fetches expected d ≡ true
        → drain req none (batch n err ∷ answers) (numbered first ms) expected d ≡ (
            if seen.1 || (err || nat_eq (length got) 0)
            then some seen.0
            else drain req none answers
                (numbered (first + length got) (drop (length got) ms))
                expected
                seen.0)
    drain_lem h =
        drain_batch req none n err answers (numbered first ms) expected d
        ∙ rw (
          h,
          take-numbered (min (want req expected d) n) first ms,
          length-numbered first got,
          drop-numbered (length got) first ms,
        )

    drain_step :
        fetches expected d ≡ true
        → Fits req d.retained
        → (k : ℕ) × Took first ms k d seen.0
          × (seen.1 ≡ false → (k ≡ length got) × Fits req seen.0.retained)
          × ((length got ≡ 0) ⊎ (1 ≤ k))
          × InLimit req d.retained k
          × (k ≤ want req expected d)
    drain_step h f =
        let (k, t, all, some_, head) = visit_batch-Took req first got d f in
        (
          k,
          Took-take first _ ms k d seen.0 t,
          all,
          some_,
          head,
          ground (arith, t.within, length-take (min (want req expected d) n) ms),
        )

  drain_stop :
      (answers : List Fetch) (pending : List Delivery) (expected : ℕ) (d : Drain)
      → fetches expected d ≡ false
      → drain req none answers pending expected d ≡ some d
  unfolding drain
  drain_stop [] pending expected d h = ground (arith, h)
  drain_stop (a ∷ answers) pending expected d h = ground (arith, h)

  drain_out :
      (pending : List Delivery) (expected : ℕ) (d : Drain)
      → fetches expected d ≡ true
      → drain req none [] pending expected d ≡ none
  unfolding drain
  drain_out pending expected d h = ground (arith, h)

  want-le : (expected : ℕ) (d : Drain) → want req expected d ≤ expected - d.drained
  unfolding want
  want-le expected d = ground arith

  -- `r` is what a drain left of `d`.
  abbrev pub Drained : ℕ → List Message → ℕ → Drain → Drain → Type 0
  Drained first ms expected d r =
      (k : ℕ) × Took first ms k d r × InLimit req d.retained k × (k ≤ expected - d.drained)

  Drained-then :
      (first : ℕ) (ms : List Message) (expected : ℕ) (d m r : Drain) (j : ℕ)
      → Took first ms j d m
      → j ≤ expected - d.drained
      → Drained (first + j) (drop j ms) expected m r
      → Drained first ms expected d r
  Drained-then first ms expected d m r j t lim (k, t2, head2, lim2) =
      let size : length m.retained ≡ length d.retained + j =
        ap length t.kept
        ∙ (length-append d.retained (take j ms)
            ∙ ap (λ (i : ℕ). length d.retained + i) (length-take_le j ms t.within)) in
      (j + k, Took-trans first ms j k d m r t t2, ground (arith, size), omega (arith, t.counted))

  Drained-stop :
      (first : ℕ) (ms : List Message) (expected : ℕ) (d r : Drain)
      → Fits req d.retained
      → ◌≡◌ {A = Option Drain} (some d) (some r)
      → Drained first ms expected d r
  Drained-stop first ms expected d r f e =
      (0, subst (Took first ms 0 d) (cc) (Took-nothing first ms d), ground arith, omega arith)

  module _ (n : ℕ) (err : Bool) (answers : List Fetch) (first : ℕ) (ms : List Message)
      (expected : ℕ) (d r : Drain) (f : Fits req d.retained) (go : fetches expected d ≡ true)
      (h : drain req none (batch n err ∷ answers) (numbered first ms) expected d ≡ some r) where
    abbrev now : Drain × Bool
    now = seen n err answers first ms expected d

    abbrev size : ℕ
    size = length (got n err answers first ms expected d)

    Drained-last : (now.1 || (err || nat_eq size 0)) ≡ true → Drained first ms expected d r
    Drained-last e =
        let (k, t, all, some_, head, lim) = drain_step n err answers first ms expected d go f in
        let last : now.0 ≡ r = cc (drain_lem n err answers first ms expected d go, e, h) in
        (k, subst (Took first ms k d) last t, head, omega (arith, lim, want-le expected d))

    Drained-more :
        (now.1 || (err || nat_eq size 0)) ≡ false
        → (Fits req now.0.retained
            → drain req none answers (numbered (first + size) (drop size ms)) expected now.0
              ≡ some r
            → Drained (first + size) (drop size ms) expected now.0 r)
        → Drained first ms expected d r
    Drained-more e rest =
        let (k, t, all, some_, head, lim) = drain_step n err answers first ms expected d go f in
        let (same, fits) = all (ground arith) in
        let whole : Took first ms size d now.0 = subst (λ j. Took first ms j d now.0) same t in
        let left : drain req none answers (numbered (first + size) (drop size ms)) expected now.0
            ≡ some r =
          cc (drain_lem n err answers first ms expected d go, e, h) in
        Drained-then first ms expected d now.0 r size whole (omega (arith, lim, want-le expected d))
          (rest fits left)

  pub drain-Drained :
      (answers : List Fetch) (first : ℕ) (ms : List Message) (expected : ℕ) (d r : Drain)
      → Fits req d.retained
      → drain req none answers (numbered first ms) expected d ≡ some r
      → Drained first ms expected d r
  drain-Drained [] first ms expected d r f h = elim (Bool-cases (fetches expected d)) [
    | inl go ↦ absurd (cc (drain_out (numbered first ms) expected d go))
    | inr end ↦
        Drained-stop first ms expected d r f
          (sym (drain_stop [] (numbered first ms) expected d end) ∙ h)
  ]
  drain-Drained (failed ∷ answers) first ms expected d r f h =
      Drained-stop first ms expected d r f
        (sym (drain_failed req none answers (numbered first ms) expected d) ∙ h)
  drain-Drained (batch n err ∷ answers) first ms expected d r f h =
      elim (Bool-cases (fetches expected d)) [
        | inl go ↦
            elim (Bool-cases (
              (now n err answers first ms expected d r f go h).1
              || (err || nat_eq (size n err answers first ms expected d r f go h) 0))) [
                | inl e ↦ Drained-last n err answers first ms expected d r f go h e
                | inr e ↦
                    Drained-more n err answers first ms expected d r f go h e
                      (drain-Drained answers _ _ expected _ r)
              ]
        | inr end ↦
            Drained-stop first ms expected d r f
              (sym (drain_stop (batch n err ∷ answers) (numbered first ms) expected d end) ∙ h)
      ]

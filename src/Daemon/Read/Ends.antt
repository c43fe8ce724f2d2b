-- ===== src/Daemon/Read/Ends.antt =====
-- The drain of a read ends, whatever the consumer delivers.
use ppz.Base.{
  ℕ, ◌+◌, ◌≤◌, ◌≡◌, refl, sym, ap, ◌∙◌, inl, inr, Bool, true, false, ◌&&◌, ◌||◌, Option, some, List,
  [], ◌∷◌, if◌then◌else◌, ltb, nat_eq, length, take, drop, Time, arith, Bool-cases,
}
use ppz.Daemon.Read.{
  Delivery, Request, Drain, visit_msg, visit_batch, min, want, drain, Fetch, failed, batch,
}

module _ (req : Request) (cutoff : Option Time) where
  visit_msg-drained :
      (msg : Delivery) (d : Drain) → (visit_msg req cutoff msg d).0.drained ≡ d.drained + 1
  unfolding visit_msg
  visit_msg-drained msg d = ground arith

  visit_batch_lem :
      (msg : Delivery) (msgs : List Delivery) (d : Drain)
      → visit_batch req cutoff (msg ∷ msgs) d ≡ (
          if (visit_msg req cutoff msg d).1
          then ((visit_msg req cutoff msg d).0, true)
          else visit_batch req cutoff msgs (visit_msg req cutoff msg d).0)
  unfolding visit_batch
  visit_batch_lem msg msgs d = refl

  visit_batch_nil : (d : Drain) → (visit_batch req cutoff [] d).0.drained ≡ d.drained + 0
  unfolding visit_batch
  visit_batch_nil d = omega arith

  visit_batch-drained :
      (msgs : List Delivery) (d : Drain)
      → (visit_batch req cutoff msgs d).1 ≡ false
      → (visit_batch req cutoff msgs d).0.drained ≡ d.drained + length msgs
  visit_batch-drained [] d h = visit_batch_nil d
  visit_batch-drained (msg ∷ msgs) d h = elim (Bool-cases (visit_msg req cutoff msg d).1) [
    | inl e ↦
        let stops : visit_batch req cutoff (msg ∷ msgs) d ≡ ((visit_msg req cutoff msg d).0, true) =
          visit_batch_lem msg msgs d ∙ rw e in
        absurd (ground (arith, ap (λ v. v.1) stops))
    | inr e ↦
        let d' = (visit_msg req cutoff msg d).0 in
        let same : visit_batch req cutoff (msg ∷ msgs) d ≡ visit_batch req cutoff msgs d' =
          visit_batch_lem msg msgs d ∙ rw e in
        ap (λ v. v.0.drained) same
        ∙ (visit_batch-drained msgs d' (sym (ap (λ v. v.1) same) ∙ h)
            ∙ omega (arith, visit_msg-drained msg d))
  ]

  drain_none :
      (pending : List Delivery) (expected : ℕ) (d : Drain)
      → expected ≤ d.drained
      → drain req cutoff [] pending expected d ≡ some d
  unfolding drain
  drain_none pending expected d h = ground arith

  pub drain_failed :
      (answers : List Fetch) (pending : List Delivery) (expected : ℕ) (d : Drain)
      → drain req cutoff (failed ∷ answers) pending expected d ≡ some d
  unfolding drain
  drain_failed answers pending expected d = ground arith

  pub drain_batch :
      (n : ℕ) (err : Bool) (answers : List Fetch) (pending : List Delivery) (expected : ℕ)
      (d : Drain)
      → drain req cutoff (batch n err ∷ answers) pending expected d ≡ (
          if ltb d.drained expected && ltb 0 (want req expected d)
          then (if (visit_batch req cutoff (take (min (want req expected d) n) pending) d).1
                || (err || nat_eq (length (take (min (want req expected d) n) pending)) 0)
              then some (visit_batch req cutoff (take (min (want req expected d) n) pending) d).0
              else drain req cutoff answers
                  (drop (length (take (min (want req expected d) n) pending)) pending)
                  expected
                  (visit_batch req cutoff (take (min (want req expected d) n) pending) d).0)
          else some d)
  unfolding drain
  drain_batch n err answers pending expected d = ground arith

  -- Whatever the consumer delivers and whatever filters and limits the request has, the drain
  -- ends after at most as many fetches as messages are still expected.
  pub drain_total :
      (answers : List Fetch) (pending : List Delivery) (expected : ℕ) (d : Drain)
      → expected ≤ d.drained + length answers
      → (r : Drain) × (drain req cutoff answers pending expected d ≡ some r)
  drain_total [] pending expected d h = (d, drain_none pending expected d (omega arith))
  drain_total (failed ∷ answers) pending expected d h = (d, drain_failed answers pending expected d)
  drain_total (batch n err ∷ answers) pending expected d h =
      let got = take (min (want req expected d) n) pending in
      let v = visit_batch req cutoff got d in
      elim (Bool-cases (ltb d.drained expected && ltb 0 (want req expected d))) [
        | inr end ↦ (d, drain_batch n err answers pending expected d ∙ rw end)
        | inl go ↦ elim (Bool-cases (v.1 || (err || nat_eq (length got) 0))) [
          | inl e ↦ (v.0, drain_batch n err answers pending expected d ∙ rw (go, e))
          | inr e ↦
              let (r, more) =
                drain_total answers (drop (length got) pending) expected v.0
                  (ground (arith, visit_batch-drained got d)) in
              (r, drain_batch n err answers pending expected d ∙ (rw (go, e) more))
        ]
      ]

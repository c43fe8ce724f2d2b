-- ===== src/Daemon/Read/Batches.antt =====
-- What a batch leaves of a pipe whose messages all parse, without the filters of `reread`.
use ppz.Base.{
  ℕ, zero, suc, ◌+◌, ◌-◌, ◌≤◌, ◌<◌, ◌≡◌, ◌⊎◌, inl, inr, refl, sym, ap, ◌∙◌, true, false, none, some,
  List, [], ◌∷◌, ◌++◌, if◌then◌else◌, nat_eq, ltb, leb, length, length-append, take, drop,
  append-take-drop, length-drop, arith, Bool-cases,
}
use mathlib.Core.List.{append-nil, append_assoc}
use native.Mathlib.Nat.{add-zero}
use ppz.Daemon.Read.{Message, Delivery, Request, Drain, visit_batch, is_full}

-- The deliveries of messages with the sequences from `first` on.
abbrev pub numbered : ℕ → List Message → List Delivery
numbered first [] = []
numbered first (m ∷ ms) = record { seq = some first; envelope = some m } ∷ numbered (first + 1) ms

-- `d'` is `d` after the first `k` messages of `ms`, which have the sequences from `first` on.
pub record Took (first : ℕ) (ms : List Message) (k : ℕ) (d d' : Drain) : Type 0 where
  pub within : k ≤ length ms
  pub kept : d'.retained ≡ d.retained ++ take k ms
  pub seen : d'.last_seq_seen ≡ (if nat_eq k 0 then d.last_seq_seen else first + k - 1)
  pub counted : d'.drained ≡ d.drained + k

pub Took-nothing : (first : ℕ) (ms : List Message) (d : Drain) → Took first ms 0 d d
Took-nothing first ms d = record {
  within = omega arith;
  kept = sym (append-nil d.retained);
  seen = refl;
  counted = omega arith;
}

pub Took-trans :
    (first : ℕ) (ms : List Message) (j k : ℕ) (a b c : Drain)
    → Took first ms j a b
    → Took (first + j) (drop j ms) k b c
    → Took first ms (j + k) a c
Took-trans first ms j k a b c p q = record {
  within = omega (arith, p.within, q.within, length-drop j ms);
  kept =
      q.kept
      ∙ (ap (λ (l : List Message). l ++ take k (drop j ms)) p.kept
          ∙ (append_assoc a.retained (take j ms) (take k (drop j ms))
              ∙ ap (λ (l : List Message). a.retained ++ l) (append-take-drop j k ms)));
  seen = ground (arith, p.seen, q.seen);
  counted = omega (arith, p.counted, q.counted);
}

pub take-numbered :
    (n first : ℕ) (ms : List Message) → take n (numbered first ms) ≡ numbered first (take n ms)
take-numbered zero first ms = refl
take-numbered (suc n) first [] = refl
take-numbered (suc n) first (m ∷ ms) = rw (take-numbered n (first + 1) ms)

pub drop-numbered :
    (n first : ℕ) (ms : List Message)
    → drop n (numbered first ms) ≡ numbered (first + n) (drop n ms)
drop-numbered zero first ms = rw add-zero
drop-numbered (suc n) first [] = refl
drop-numbered (suc n) first (m ∷ ms) =
    drop-numbered n (first + 1) ms ∙ ap (λ (i : ℕ). numbered i (drop n ms)) (omega arith)

pub length-numbered : (first : ℕ) (ms : List Message) → length (numbered first ms) ≡ length ms
length-numbered first [] = refl
length-numbered first (m ∷ ms) = ap suc (length-numbered (first + 1) ms)

take-take : (k n : ℕ) (ms : List Message) → k ≤ length (take n ms) → take k (take n ms) ≡ take k ms
take-take zero n ms h = refl
take-take (suc k) zero ms h = absurd (omega arith)
take-take (suc k) (suc n) [] h = refl
take-take (suc k) (suc n) (m ∷ ms) h = ap (λ l. m ∷ l) (take-take k n ms (omega arith))

pub length-take :
    (n : ℕ) (ms : List Message) → length (take n ms) ≡ (if leb n (length ms) then n else length ms)
length-take zero ms = ground arith
length-take (suc n) [] = ground arith
length-take (suc n) (m ∷ ms) = ground (arith, length-take n ms)

pub Took-take :
    (first n : ℕ) (ms : List Message) (k : ℕ) (d d' : Drain)
    → Took first (take n ms) k d d'
    → Took first ms k d d'
Took-take first n ms k d d' t = record {
  within = ground (arith, t.within, length-take n ms);
  kept = t.kept ∙ ap (λ (l : List Message). d.retained ++ l) (take-take k n ms t.within);
  seen = t.seen;
  counted = t.counted;
}

module _ (req : Request) where
  abbrev keep_one : ℕ → Message → Drain → Drain
  keep_one first m d = record {
    retained = d.retained ++ m ∷ [];
    last_seq_seen = first;
    drained = d.drained + 1;
  }

  visit_batch_lem :
      (first : ℕ) (m : Message) (ms : List Message) (d : Drain)
      → visit_batch req none (numbered first (m ∷ ms)) d ≡ (
          if is_full req (d.retained ++ m ∷ [])
          then (keep_one first m d, true)
          else visit_batch req none (numbered (first + 1) ms) (keep_one first m d))
  unfolding visit_batch is_full
  visit_batch_lem first m ms d = refl

  Took-one :
      (first : ℕ) (m : Message) (ms : List Message) (d : Drain)
      → Took first (m ∷ ms) 1 d (keep_one first m d)
  Took-one first m ms d = record {
    within = omega arith;
    kept = refl;
    seen = omega arith;
    counted = refl;
  }

  -- The head limit is not passed.
  abbrev pub Fits : List Message → Type 0
  Fits retained = (ltb 0 req.head_limit ≡ false) ⊎ (length retained < req.head_limit)

  is_full-Fits :
      (d : Drain) (m : Message)
      → Fits d.retained
      → is_full req (d.retained ++ m ∷ []) ≡ false
      → Fits (d.retained ++ m ∷ [])
  unfolding is_full
  is_full-Fits d m f h = ground (arith, length-append d.retained (m ∷ []))

  -- What a loop leaves after `k` messages: the head limit is kept.
  abbrev pub InLimit : List Message → ℕ → Type 0
  InLimit retained k = (ltb 0 req.head_limit ≡ false) ⊎ (length retained + k ≤ req.head_limit)

  -- A batch of messages that all parse is taken from the front: at least one, if there is one, and
  -- all, unless the head limit is met.
  pub visit_batch-Took :
      (first : ℕ) (ms : List Message) (d : Drain)
      → Fits d.retained
      → (k : ℕ) × Took first ms k d (visit_batch req none (numbered first ms) d).0
        × ((visit_batch req none (numbered first ms) d).1 ≡ false
            → (k ≡ length ms) × Fits (visit_batch req none (numbered first ms) d).0.retained)
        × ((length ms ≡ 0) ⊎ (1 ≤ k))
        × InLimit d.retained k
  unfolding visit_batch
  visit_batch-Took first [] d f =
      (0, Took-nothing first [] d, λ h. (refl, f), inl refl, ground arith)
  visit_batch-Took first (m ∷ ms) d f = elim (Bool-cases (is_full req (d.retained ++ m ∷ []))) [
    | inl e ↦
        rw (visit_batch_lem first m ms d, e)
          (1, Took-one first m ms d, λ h. absurd (cc), inr (omega arith), ground arith)
    | inr e ↦
        let (k, t, all, some_, head) =
          visit_batch-Took (first + 1) ms (keep_one first m d) (is_full-Fits d m f e) in
        rw (visit_batch_lem first m ms d, e)
          (
            1 + k,
            Took-trans first (m ∷ ms) 1 k d (keep_one first m d) _ (Took-one first m ms d) t,
            λ h. (omega (arith, (all h).0), (all h).1),
            inr (omega arith),
            ground (arith, length-append d.retained (m ∷ [])),
          )
  ]

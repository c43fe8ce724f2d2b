-- ===== src/Daemon/Watches/Owned.antt =====
-- No watch is without a subscription, and no subscription without an owner.
use ppz.Base.{ℕ, ◌≡◌, ◌⊎◌, ◌↔◌, inl, inr, refl, subst, true, false, some, arith}
use ppz.Daemon.Watches.{idle, Registry}
use ppz.Daemon.Watches.Steps.{
  Step, arms, removes, unsubscribes, swaps, swaps_nil, subscribes, fails, installs, finishes,
  new_watch_registry, Reach, here, step,
}
use ppz.Daemon.Watches.Sound.{
  Awaits, IsSound, remove-IsSound, unsubscribe-IsSound, arm_watch-IsSound,
}
use ppz.Daemon.Watches.Rearming.{
  swap_nc-IsSound, swap_nil-IsSound, subscribe-IsSound, warn-IsSound, swap_sub-IsSound,
  finish_rearm-IsSound,
}

Step-IsSound : {s t : Registry} → Step s t → IsSound s → IsSound t
Step-IsSound {s} (arms e i g) v = arm_watch-IsSound e s i g v
Step-IsSound {s} (removes e) v = remove-IsSound e s v
Step-IsSound {s} (unsubscribes t h) v = unsubscribe-IsSound t s h v
Step-IsSound {s} (swaps nc entries i o all) v = swap_nc-IsSound nc entries s i o all v
Step-IsSound {s} (swaps_nil i) v = swap_nil-IsSound s i v
Step-IsSound {s} (subscribes nc e more n i) v = subscribe-IsSound nc e more s n i v
Step-IsSound {s} (fails e more i) v = warn-IsSound e more s i v
Step-IsSound {s} (installs e t more i) v = swap_sub-IsSound e t more s i v
Step-IsSound {s} (finishes i) v = finish_rearm-IsSound s i v

new-IsSound : IsSound new_watch_registry
new-IsSound = record {
  unregistered = λ d h. refl;
  armed = λ d h. absurd (ground arith);
  held_old = λ d t h. absurd (ground arith);
  held_kept = λ d t h. ground arith;
  held_once = λ d c t h k. ground arith;
  held_closed = λ d t h. absurd (ground arith);
  hand_old = λ t h. absurd (ground arith);
  hand_live = λ t h. ground arith;
  hand_kept = λ t h. ground arith;
  hand_free = λ d t h k. ground arith;
  hand_conn = λ t h. ground arith;
  live_old = λ t h. absurd (ground arith);
  dropped_old = λ t h. absurd (ground arith);
  owned = λ t h. absurd (ground arith);
  current = λ t h. absurd (ground arith);
  settled = λ h. refl;
  apart = λ c h k. ground arith;
  nc_open = λ c h. refl;
  renewed = λ e t h. absurd (ground arith);
}

Reach-IsSound : {s : Registry} → Reach s → IsSound s
Reach-IsSound here = new-IsSound
Reach-IsSound (step r st) = Step-IsSound st (Reach-IsSound r)

module _ {s : Registry} (r : Reach s) where
  -- At every moment of any interleaving of arming, exits, swaps to a connection that was not
  -- closed before or to none, and pending unsubscribes, a registered watch has a subscription.
  -- Unless a swap to no connection came or a `rearmAll` failed to subscribe for the watch since
  -- it was armed or last renewed, that subscription is neither unsubscribed nor on a connection
  -- that a swap closed, and it is on the current connection or `rearmAll` has still to come to
  -- it.
  pub watch_live :
      (e : ℕ)
      → s.registered e ≡ true
      → (t : ℕ) × (s.sub e ≡ some t)
        × ((s.missed e ≡ true)
            ⊎ ((s.live t ≡ true) × ((s.nc ≡ some (s.conn t)) ⊎ Awaits s.rearm e)))
  watch_live e h = let v = Reach-IsSound r in let (t, k) = v.armed e h in (t, k, v.renewed e t k)

  -- When no swap runs, a registered watch that the last one did not leave behind has a live
  -- subscription on the current connection.
  pub watch_rearmed :
      (e : ℕ)
      → s.rearm ≡ idle
      → s.registered e ≡ true
      → s.missed e ≡ false
      → (t : ℕ) × (s.sub e ≡ some t) × (s.live t ≡ true) × (s.nc ≡ some (s.conn t))
  watch_rearmed e i h w =
      let (t, k, new) = watch_live e h in
      elim new [
        | inl bad ↦ absurd (ground arith)
        | inr (l, inl c) ↦ (t, k, l, c)
        | inr (l, inr left) ↦ absurd (subst (λ a. Awaits a e) i left)
      ]

  -- After any interleaving of arming, exits, swaps to a connection that was not closed before or
  -- to none, and pending unsubscribes, when no swap runs, a subscription that no thread is about
  -- to unsubscribe is live, which is neither unsubscribed nor on a connection that a swap closed,
  -- exactly when it is the subscription of a registered watch and on the current connection.
  pub no_leak :
      (t : ℕ)
      → s.rearm ≡ idle
      → s.dropping t ≡ false
      → (s.live t ≡ true)
        ↔ ((e : ℕ) × (s.registered e ≡ true) × (s.sub e ≡ some t) × (s.nc ≡ some (s.conn t)))
  no_leak t i d =
      let v = Reach-IsSound r in
      (
        λ l.
            let on : s.nc ≡ some (s.conn t) = elim (v.current t l) [
              | inl c ↦ c
              | inr c ↦ absurd (ground (arith, c, v.settled i))
            ] in
            elim (v.owned t l) [
              | inl (e, k) ↦ (e, ground (arith, v.unregistered e, k), k, on)
              | inr (inl k) ↦ absurd (ground arith)
              | inr (inr k) ↦ absurd (ground (arith, i, k))
            ],
        λ (e, g, k, on). elim (v.held_closed e t k) [
          | inl l ↦ l
          | inr c ↦ absurd (ground (arith, c, v.nc_open (s.conn t) on))
        ],
      )

-- ===== src/Daemon/Watches/Tests.antt =====
-- Watches at concrete input.
use ppz.Base.{ℕ, ◌≡◌, ◌⊎◌, ◌↔◌, refl, true, false, some, [], ◌∷◌, In, arith}
use ppz.Daemon.Watches.{
  idle, Registry, arm_on, arm_watch, remove, warn, swap_nc, swap_nil, subscribe, swap_sub,
  finish_rearm,
}
use ppz.Daemon.Watches.Steps.{
  arms, removes, swaps, subscribes, installs, finishes, new_watch_registry, Reach, here, step,
}
use ppz.Daemon.Watches.Sound.{Awaits}
use ppz.Daemon.Watches.Owned.{watch_live, no_leak}

-- Two handlers wait; the connection is replaced, and the second handler exits while its entry is being
-- renewed.
abbrev connected : Registry
connected = finish_rearm (swap_nc 7 [] new_watch_registry)

abbrev waiting : Registry
waiting = arm_watch 1 (arm_watch 0 connected)

abbrev renewing : Registry
renewing =
    subscribe 8 1 []
      (swap_sub 0 2 (1 ∷ []) (subscribe 8 0 (1 ∷ []) (swap_nc 8 (0 ∷ 1 ∷ []) waiting)))

abbrev renewed : Registry
renewed = finish_rearm (swap_sub 1 3 [] (remove 1 renewing))

-- The user logs out, and in again, on a connection on which nothing can be subscribed.
abbrev logged_out : Registry
logged_out = finish_rearm (swap_nil renewed)

abbrev left_behind : Registry
left_behind = finish_rearm (warn 0 [] (swap_nc 9 (0 ∷ []) logged_out))

none_listed : (e : ℕ) → (new_watch_registry.registered e ≡ true) ↔ In e []
none_listed e = (λ h. absurd (ground arith), λ h. absurd h)

connected_reached : Reach connected
unfolding swap_nc finish_rearm
connected_reached = step (step here (swaps 7 [] refl refl none_listed)) (finishes refl)

both_listed : (e : ℕ) → (waiting.registered e ≡ true) ↔ In e (0 ∷ 1 ∷ [])
unfolding arm_watch arm_on swap_nc finish_rearm
both_listed e = (λ h. ground arith, λ h. ground arith)

waiting_reached : Reach waiting
unfolding arm_watch arm_on swap_nc finish_rearm
waiting_reached = step (step connected_reached (arms 0 refl refl)) (arms 1 refl refl)

renewing_reached : Reach renewing
unfolding arm_watch arm_on swap_nc subscribe swap_sub finish_rearm
renewing_reached =
    step
      (step
        (step (step waiting_reached (swaps 8 (0 ∷ 1 ∷ []) refl refl both_listed))
          (subscribes 8 0 (1 ∷ []) refl refl))
        (installs 0 2 (1 ∷ []) refl))
      (subscribes 8 1 [] refl refl)

renewed_reached : Reach renewed
unfolding arm_watch arm_on swap_nc subscribe swap_sub remove finish_rearm
renewed_reached =
    step (step (step renewing_reached (removes 1)) (installs 1 3 [] refl)) (finishes refl)

renewing_registered : renewing.registered 1 ≡ true
unfolding arm_watch arm_on swap_nc subscribe swap_sub finish_rearm
renewing_registered = refl

renewed_idle : renewed.rearm ≡ idle
unfolding finish_rearm
renewed_idle = refl

-- The first subscription was replaced, and the second and fourth are left over from the entry that
-- went: all three are about to be unsubscribed, and the third is not.
kept : renewed.dropping 2 ≡ false
unfolding arm_watch arm_on swap_nc subscribe swap_sub remove finish_rearm
kept = refl

-- The watch is still registered, on a connection that is closed.
stranded :
    (left_behind.registered 0 ≡ true) × (left_behind.live 2 ≡ false) × (left_behind.missed 0 ≡ true)
unfolding arm_watch arm_on swap_nc swap_nil subscribe swap_sub remove warn finish_rearm
stranded = (refl, refl, refl)

watch_live_example :
    (t : ℕ) × (renewing.sub 1 ≡ some t)
    × ((renewing.missed 1 ≡ true)
        ⊎ ((renewing.live t ≡ true)
            × ((renewing.nc ≡ some (renewing.conn t)) ⊎ Awaits renewing.rearm 1)))
watch_live_example = watch_live renewing_reached 1 renewing_registered

no_leak_example : (renewed.live 2 ≡ true) ↔ (
    (e : ℕ) × (renewed.registered e ≡ true)
    × (renewed.sub e ≡ some 2)
    × (renewed.nc ≡ some (renewed.conn 2)))
no_leak_example = no_leak renewed_reached 2 renewed_idle kept

-- ===== src/Daemon/Watches/Steps.antt =====
-- What may happen to the registry, one step at a time.
use ppz.Base.{ℕ, ◌≡◌, ◌↔◌, true, false, some, none, List, [], ◌∷◌, In}
use ppz.Daemon.Watches.{
  idle, at, subscribed, Registry, arm_watch, remove, unsubscribe, swap_nc, swap_nil, subscribe,
  warn, swap_sub, finish_rearm,
}

-- `armWatch` and `swapNCLocked` hold the lock of the connection, so that neither comes in the middle of
-- a `rearmAll`; `remove` may. An entry is armed once, before it is registered.
pub data Step (s : Registry) : Registry → Type 0 where
  arms : (e : ℕ) → s.rearm ≡ idle → s.registered e ≡ false → Step s (arm_watch e s)
  removes : (e : ℕ) → Step s (remove e s)
  unsubscribes : (t : ℕ) → s.dropping t ≡ true → Step s (unsubscribe t s)
  swaps :
      (nc : ℕ) (entries : List ℕ)
      → s.rearm ≡ idle
      → s.closed nc ≡ false
      → ((e : ℕ) → (s.registered e ≡ true) ↔ In e entries)
      → Step s (swap_nc nc entries s)
  swaps_nil : s.rearm ≡ idle → Step s (swap_nil s)
  subscribes :
      (nc e : ℕ) (more : List ℕ)
      → s.nc ≡ some nc
      → s.rearm ≡ at (e ∷ more)
      → Step s (subscribe nc e more s)
  fails : (e : ℕ) (more : List ℕ) → s.rearm ≡ at (e ∷ more) → Step s (warn e more s)
  installs :
      (e t : ℕ) (more : List ℕ) → s.rearm ≡ subscribed e t more → Step s (swap_sub e t more s)
  finishes : s.rearm ≡ at [] → Step s (finish_rearm s)

-- A registry as `newWatchRegistry` makes it, in a daemon without a connection.
abbrev pub new_watch_registry : Registry
new_watch_registry = record {
  registered = λ e. false;
  sub = λ e. none;
  live = λ t. false;
  conn = λ t. 0;
  next_sub = 0;
  nc = none;
  closing = none;
  closed = λ c. false;
  dropping = λ t. false;
  missed = λ e. false;
  rearm = idle;
}

pub data Reach : Registry → Type 0 where
  here : Reach new_watch_registry
  step : {s t : Registry} → Reach s → Step s t → Reach t

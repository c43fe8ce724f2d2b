-- ===== src/Daemon/Watches.antt =====
-- internal/daemon/watch_registry.go, and swapNCLocked of daemon.go: the subscriptions that waiting
-- handlers hold while the daemon replaces its connection. Each call under the registry's lock is one
-- step, and the steps of `rearmAll` and of the handlers that exit come in any order.
pub mod Steps
pub mod Sound
pub mod Rearming
pub mod Owned
mod Tests
use ppz.Base.{
  ℕ, ◌+◌, ◌≡◌, Bool, true, false, not, ◌&&◌, ◌||◌, Option, none, some, List, [], ◌∷◌, if◌then◌else◌,
  nat_eq,
}

-- Where `rearmAll` stands: not running, at the rest of its list, or with a new subscription to install
-- for the entry at the head of it.
pub data Rearm : Type 0 where
  idle : Rearm
  at : List ℕ → Rearm
  subscribed : ℕ → ℕ → List ℕ → Rearm

-- An entry, a subscription and a connection are known by a number.
pub record Registry : Type 0 where
  pub registered : ℕ → Bool
  pub sub : ℕ → Option ℕ
  -- Subscriptions that are neither unsubscribed nor on a connection that is closed.
  pub live : ℕ → Bool
  pub conn : ℕ → ℕ
  pub next_sub : ℕ
  pub nc : Option ℕ
  -- The connection that `swapNCLocked` is about to close, and those that are closed.
  pub closing : Option ℕ
  pub closed : ℕ → Bool
  -- Subscriptions that a thread has taken out of an entry and is about to unsubscribe.
  pub dropping : ℕ → Bool
  -- Entries that the last swap left behind: their Subscribe failed, or there was no new connection.
  pub missed : ℕ → Bool
  pub rearm : Rearm

abbrev pub is_some : Option ℕ → ℕ → Bool
is_some none n = false
is_some (some m) n = nat_eq m n

module _ {A : Type 0} where
  abbrev pub update : (ℕ → A) → ℕ → A → ℕ → A
  update f k v n = if nat_eq n k then v else f n

abbrev pub drop_sub : Option ℕ → (ℕ → Bool) → ℕ → Bool
drop_sub none f = f
drop_sub (some s) f = update f s true

-- A new subscription on a connection, for a new entry.
unfoldable pub arm_on : ℕ → ℕ → Registry → Registry
arm_on nc e s = record s {
  registered = update s.registered e true;
  sub = update s.sub e (some s.next_sub);
  live = update s.live s.next_sub true;
  conn = update s.conn s.next_sub nc;
  next_sub = s.next_sub + 1;
  missed = update s.missed e false;
}

-- `armWatch` under the lock of the connection: subscribe, and `add` the entry. Without a connection it
-- is an error that changes nothing, and so is a Subscribe that fails.
unfoldable pub arm_watch : ℕ → Registry → Registry
arm_watch e s = elim s.nc [ none ↦ s | some nc ↦ arm_on nc e s ]

-- The part of `remove` under the lock.
unfoldable pub remove : ℕ → Registry → Registry
remove e s = record s {
  registered = update s.registered e false;
  sub = update s.sub e none;
  dropping = drop_sub (s.sub e) s.dropping;
}

-- `Unsubscribe`, outside the lock.
unfoldable pub unsubscribe : ℕ → Registry → Registry
unsubscribe t s = record s { live = update s.live t false; dropping = update s.dropping t false }

-- `swapNCLocked` installs a connection and calls `rearmAll`, which copies the entries. The connection
-- before it is closed afterwards, unless it is the same.
unfoldable pub swap_nc : ℕ → List ℕ → Registry → Registry
swap_nc nc entries s = record s {
  nc = some nc;
  closing = if is_some s.nc nc then none else s.nc;
  rearm = at entries;
}

-- A swap to no connection, for which `rearmAll` does nothing.
unfoldable pub swap_nil : Registry → Registry
swap_nil s = record s { nc = none; closing = s.nc; missed = λ e. true; rearm = at [] }

-- The subscription of one entry on the new connection.
unfoldable pub subscribe : ℕ → ℕ → List ℕ → Registry → Registry
subscribe nc e more s = record s {
  live = update s.live s.next_sub true;
  conn = update s.conn s.next_sub nc;
  next_sub = s.next_sub + 1;
  rearm = subscribed e s.next_sub more;
}

-- It failed: the entry keeps the subscription that it has.
unfoldable pub warn : ℕ → List ℕ → Registry → Registry
warn e more s = record s { missed = update s.missed e true; rearm = at more }

-- What `swapSub` returns, or else the new subscription.
abbrev pub old_or : ℕ → Option ℕ → Option ℕ
old_or t none = some t
old_or t (some old) = some old

-- `swapSub` under the lock, and which subscription `rearmAll` then unsubscribes: the old one, or the
-- new one where there is no old one.
unfoldable pub swap_sub : ℕ → ℕ → List ℕ → Registry → Registry
swap_sub e t more s =
    if s.registered e
    then record s {
      sub = update s.sub e (some t);
      dropping = drop_sub (old_or t (s.sub e)) s.dropping;
      missed = update s.missed e false;
      rearm = at more;
    }
    else record s { dropping = update s.dropping t true; rearm = at more }

-- `rearmAll` returns, and `swapNCLocked` closes the connection before: its subscriptions are dead.
unfoldable pub finish_rearm : Registry → Registry
finish_rearm s = record s {
  live = λ t. s.live t && not (is_some s.closing (s.conn t));
  closed = λ c. s.closed c || is_some s.closing c;
  closing = none;
  rearm = idle;
}

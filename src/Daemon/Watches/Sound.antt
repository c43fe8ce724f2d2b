-- ===== src/Daemon/Watches/Sound.antt =====
-- The invariant of the registry, and that the calls of the handlers keep it.
use ppz.Base.{
  ℕ, ◌<◌, Option-cases, ap, sym, subst, ◌≡◌, ◌≢◌, ◌⊎◌, inl, inr, Bool, true, false, Option, none,
  some, In, nat_eq, arith, Bool-cases,
}
use ppz.Daemon.Watches.{
  Rearm, idle, at, subscribed, Registry, arm_on, arm_watch, remove, unsubscribe,
}

-- The subscription that `rearmAll` has in hand.
abbrev pub in_hand : Rearm → ℕ → Bool
in_hand idle t = false
in_hand (at more) t = false
in_hand (subscribed e u more) t = nat_eq u t

-- The entries whose subscription is still to be replaced.
abbrev pub Awaits : Rearm → ℕ → Type 0
Awaits idle e = ⊥
Awaits (at more) e = In e more
Awaits (subscribed a t more) e = (a ≡ e) ⊎ In e more

-- What holds between two steps.
pub record IsSound (s : Registry) : Type 0 where
  pub unregistered : (e : ℕ) → s.registered e ≡ false → s.sub e ≡ none
  pub armed : (e : ℕ) → s.registered e ≡ true → (t : ℕ) × (s.sub e ≡ some t)
  pub held_old : (e t : ℕ) → s.sub e ≡ some t → t < s.next_sub
  pub held_kept : (e t : ℕ) → s.sub e ≡ some t → s.dropping t ≡ false
  pub held_once : (e d t : ℕ) → s.sub e ≡ some t → s.sub d ≡ some t → e ≡ d
  pub held_closed : (e t : ℕ) → s.sub e ≡ some t → (s.live t ≡ true) ⊎ (s.closed (s.conn t) ≡ true)
  pub hand_old : (t : ℕ) → in_hand s.rearm t ≡ true → t < s.next_sub
  pub hand_live : (t : ℕ) → in_hand s.rearm t ≡ true → s.live t ≡ true
  pub hand_kept : (t : ℕ) → in_hand s.rearm t ≡ true → s.dropping t ≡ false
  pub hand_free : (e t : ℕ) → in_hand s.rearm t ≡ true → s.sub e ≢ some t
  pub hand_conn : (t : ℕ) → in_hand s.rearm t ≡ true → s.nc ≡ some (s.conn t)
  pub live_old : (t : ℕ) → s.live t ≡ true → t < s.next_sub
  pub dropped_old : (t : ℕ) → s.dropping t ≡ true → t < s.next_sub
  pub owned :
      (t : ℕ)
      → s.live t ≡ true
      → ((e : ℕ) × (s.sub e ≡ some t)) ⊎ ((s.dropping t ≡ true) ⊎ (in_hand s.rearm t ≡ true))
  pub current : (t : ℕ) → s.live t ≡ true → (s.nc ≡ some (s.conn t)) ⊎ (s.closing ≡ some (s.conn t))
  pub settled : s.rearm ≡ idle → s.closing ≡ none
  pub apart : (c : ℕ) → s.closing ≡ some c → s.nc ≢ some c
  pub nc_open : (c : ℕ) → s.nc ≡ some c → s.closed c ≡ false
  pub renewed :
      (e t : ℕ)
      → s.sub e ≡ some t
      → (s.missed e ≡ true) ⊎ ((s.live t ≡ true) × ((s.nc ≡ some (s.conn t)) ⊎ Awaits s.rearm e))

pub remove-IsSound : (e : ℕ) (s : Registry) → IsSound s → IsSound (remove e s)
unfolding remove
remove-IsSound e s v = record {
  unregistered = λ d h. ground (arith, v.unregistered d);
  armed = λ d h. let (t, k) = v.armed d (ground arith) in (t, ground (arith, k));
  held_old = λ d t h. ground (arith, v.held_old d t);
  held_kept = λ d t h. ground (arith, v.held_kept d t, v.held_once e d t);
  held_once = λ d c t h k. ground (arith, v.held_once d c t);
  held_closed = λ d t h. v.held_closed d t (ground arith);
  hand_old = v.hand_old;
  hand_live = v.hand_live;
  hand_kept = λ t h. ground (arith, v.hand_kept t h, v.hand_free e t h);
  hand_free = λ d t h k. v.hand_free d t h (ground arith);
  hand_conn = v.hand_conn;
  live_old = v.live_old;
  dropped_old = λ t h. ground (arith, v.dropped_old t, v.held_old e t);
  owned = λ t h. elim (v.owned t h) [
    | inl (d, k) ↦ elim (Bool-cases (nat_eq d e)) [
      | inl same ↦ inr (inl (ground (arith, k)))
      | inr other ↦ inl (d, ground (arith, k))
    ]
    | inr (inl k) ↦ inr (inl (ground (arith, k)))
    | inr (inr k) ↦ inr (inr k)
  ];
  current = v.current;
  settled = v.settled;
  apart = v.apart;
  nc_open = v.nc_open;
  renewed = λ d t h. v.renewed d t (ground arith);
}

pub unsubscribe-IsSound :
    (u : ℕ) (s : Registry) → s.dropping u ≡ true → IsSound s → IsSound (unsubscribe u s)
unfolding unsubscribe
unsubscribe-IsSound u s g v = record {
  unregistered = v.unregistered;
  armed = v.armed;
  held_old = v.held_old;
  held_kept = λ d t h. ground (arith, v.held_kept d t h);
  held_once = v.held_once;
  held_closed = λ d t h. elim (v.held_closed d t h) [
    | inl k ↦ inl (ground (arith, v.held_kept d t h))
    | inr k ↦ inr k
  ];
  hand_old = v.hand_old;
  hand_live = λ t h. ground (arith, v.hand_live t h, v.hand_kept t h);
  hand_kept = λ t h. ground (arith, v.hand_kept t h);
  hand_free = v.hand_free;
  hand_conn = v.hand_conn;
  live_old = λ t h. v.live_old t (ground arith);
  dropped_old = λ t h. v.dropped_old t (ground arith);
  owned = λ t h. elim (v.owned t (ground arith)) [
    | inl k ↦ inl k
    | inr (inl k) ↦ inr (inl (ground (arith, k)))
    | inr (inr k) ↦ inr (inr k)
  ];
  current = λ t h. v.current t (ground arith);
  settled = v.settled;
  apart = v.apart;
  nc_open = v.nc_open;
  renewed = λ d t h. elim (v.renewed d t h) [
    | inl k ↦ inl k
    | inr (l, k) ↦ inr (ground (arith, l, v.held_kept d t h), k)
  ];
}

arm_on-IsSound :
    (nc e : ℕ) (s : Registry)
    → s.nc ≡ some nc
    → s.rearm ≡ idle
    → s.registered e ≡ false
    → IsSound s
    → IsSound (arm_on nc e s)
unfolding arm_on
arm_on-IsSound nc e s c i g v = record {
  unregistered = λ d h. ground (arith, v.unregistered d);
  armed = λ d h. elim (Bool-cases (nat_eq d e)) [
    | inl same ↦ (s.next_sub, ground arith)
    | inr other ↦ let (t, k) = v.armed d (ground arith) in (t, ground (arith, k))
  ];
  held_old = λ d t h. ground (arith, v.held_old d t);
  held_kept = λ d t h. ground (arith, v.held_kept d t, v.dropped_old t);
  held_once = λ d b t h k. ground (arith, v.held_once d b t, v.held_old d t, v.held_old b t);
  held_closed = λ d t h. elim (Bool-cases (nat_eq t s.next_sub)) [
    | inl same ↦ inl (ground arith)
    | inr other ↦ elim (v.held_closed d t (ground arith)) [
      | inl k ↦ inl (ground (arith, k))
      | inr k ↦ inr (ground (arith, k))
    ]
  ];
  hand_old = λ t h. ground (arith, i);
  hand_live = λ t h. ground (arith, i);
  hand_kept = λ t h. ground (arith, i);
  hand_free = λ d t h k. ground (arith, i);
  hand_conn = λ t h. ground (arith, i);
  live_old = λ t h. ground (arith, v.live_old t);
  dropped_old = λ t h. ground (arith, v.dropped_old t h);
  owned = λ t h. elim (Bool-cases (nat_eq t s.next_sub)) [
    | inl same ↦ inl (e, ground arith)
    | inr other ↦ elim (v.owned t (ground arith)) [
      | inl (d, k) ↦ inl (d, ground (arith, k, v.unregistered e g))
      | inr k ↦ inr k
    ]
  ];
  current = λ t h. elim (Bool-cases (nat_eq t s.next_sub)) [
    | inl same ↦ inl (rw same c)
    | inr other ↦ rw other (v.current t (ground arith))
  ];
  settled = v.settled;
  apart = v.apart;
  nc_open = v.nc_open;
  renewed = λ d t h. elim (Bool-cases (nat_eq t s.next_sub)) [
    | inl same ↦ inr (ground arith, inl (rw same c))
    | inr other ↦ elim (v.renewed d t (ground arith)) [
      | inl k ↦ inl (ground (arith, k))
      | inr (l, k) ↦ inr (ground (arith, l), rw other k)
    ]
  ];
}

-- `armWatch`, as far as the connection decides it.
pub arm_watch_on :
    (e : ℕ) (s : Registry) (nc : Option ℕ)
    → s.nc ≡ nc
    → arm_watch e s ≡ elim nc [ none ↦ s | some n ↦ arm_on n e s ]
unfolding arm_watch
arm_watch_on e s nc h = ap (λ (o : Option ℕ). elim o [ none ↦ s | some n ↦ arm_on n e s ]) h

pub arm_watch-IsSound :
    (e : ℕ) (s : Registry)
    → s.rearm ≡ idle
    → s.registered e ≡ false
    → IsSound s
    → IsSound (arm_watch e s)
arm_watch-IsSound e s i g v = elim (Option-cases s.nc) [
  | inl off ↦ subst IsSound (sym (arm_watch_on e s none off)) v
  | inr (nc, on) ↦
      subst IsSound (sym (arm_watch_on e s (some nc) on)) (arm_on-IsSound nc e s on i g v)
]

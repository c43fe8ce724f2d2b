-- ===== src/Daemon/Watches/Rearming.antt =====
-- The steps of `rearmAll` keep the invariant of the registry.
use ppz.Base.{
  some, refl, ℕ, ◌≡◌, ◌⊎◌, ◌↔◌, inl, inr, subst, true, false, List, [], ◌∷◌, In, nat_eq, arith,
  Bool-cases,
}
use ppz.Daemon.Watches.{
  idle, at, subscribed, Registry, is_some, swap_nc, swap_nil, subscribe, warn, swap_sub,
  finish_rearm,
}
use ppz.Daemon.Watches.Sound.{in_hand, Awaits, IsSound}

pub swap_nc-IsSound :
    (nc : ℕ) (entries : List ℕ) (s : Registry)
    → s.rearm ≡ idle
    → s.closed nc ≡ false
    → ((e : ℕ) → (s.registered e ≡ true) ↔ In e entries)
    → IsSound s
    → IsSound (swap_nc nc entries s)
unfolding swap_nc
swap_nc-IsSound nc entries s i o all v = record {
  unregistered = v.unregistered;
  armed = v.armed;
  held_old = v.held_old;
  held_kept = v.held_kept;
  held_once = v.held_once;
  held_closed = v.held_closed;
  hand_old = λ t h. ground arith;
  hand_live = λ t h. ground arith;
  hand_kept = λ t h. ground arith;
  hand_free = λ e t h k. ground arith;
  hand_conn = λ t h. ground arith;
  live_old = v.live_old;
  dropped_old = v.dropped_old;
  owned = λ t h. elim (v.owned t h) [
    | inl k ↦ inl k
    | inr (inl k) ↦ inr (inl k)
    | inr (inr k) ↦ absurd (ground (arith, i, k))
  ];
  current = λ t h.
      let before = on_nc t h in
      elim (Bool-cases (is_some s.nc nc)) [
        | inl same ↦ inl (ground (arith, before))
        | inr other ↦ inr (rw other before)
      ];
  settled = λ h. absurd (ground arith);
  apart = λ c h k. ground arith;
  nc_open = λ c h. ground (arith, o);
  renewed = λ e t h. elim (v.renewed e t h) [
    | inl k ↦ inl k
    | inr (l, k) ↦ inr (l, inr ((all e).0 (ground (arith, v.unregistered e))))
  ];
}
  where
    on_nc : (t : ℕ) → s.live t ≡ true → s.nc ≡ some (s.conn t)
    on_nc t h = elim (v.current t h) [ inl k ↦ k | inr k ↦ absurd (ground (arith, k, v.settled i)) ]

pub swap_nil-IsSound : (s : Registry) → s.rearm ≡ idle → IsSound s → IsSound (swap_nil s)
unfolding swap_nil
swap_nil-IsSound s i v = record {
  unregistered = v.unregistered;
  armed = v.armed;
  held_old = v.held_old;
  held_kept = v.held_kept;
  held_once = v.held_once;
  held_closed = v.held_closed;
  hand_old = λ t h. ground arith;
  hand_live = λ t h. ground arith;
  hand_kept = λ t h. ground arith;
  hand_free = λ e t h k. ground arith;
  hand_conn = λ t h. ground arith;
  live_old = v.live_old;
  dropped_old = v.dropped_old;
  owned = λ t h. elim (v.owned t h) [
    | inl k ↦ inl k
    | inr (inl k) ↦ inr (inl k)
    | inr (inr k) ↦ absurd (ground (arith, i, k))
  ];
  current = λ t h. elim (v.current t h) [
    | inl k ↦ inr k
    | inr k ↦ absurd (ground (arith, k, v.settled i))
  ];
  settled = λ h. absurd (ground arith);
  apart = λ c h k. ground arith;
  nc_open = λ c h. ground arith;
  renewed = λ e t h. inl refl;
}

pub subscribe-IsSound :
    (nc e : ℕ) (more : List ℕ) (s : Registry)
    → s.nc ≡ some nc
    → s.rearm ≡ at (e ∷ more)
    → IsSound s
    → IsSound (subscribe nc e more s)
unfolding subscribe
subscribe-IsSound nc e more s n i v = record {
  unregistered = v.unregistered;
  armed = v.armed;
  held_old = λ d t h. ground (arith, v.held_old d t h);
  held_kept = v.held_kept;
  held_once = v.held_once;
  held_closed = λ d t h. elim (v.held_closed d t h) [
    | inl k ↦ inl (ground (arith, k))
    | inr k ↦ inr (ground (arith, k, v.held_old d t h))
  ];
  hand_old = λ t h. ground arith;
  hand_live = λ t h. ground arith;
  hand_kept = λ t h. ground (arith, v.dropped_old t);
  hand_free = λ d t h k. ground (arith, v.held_old d t k);
  hand_conn = λ t h. ground (arith, n);
  live_old = λ t h. ground (arith, v.live_old t);
  dropped_old = λ t h. ground (arith, v.dropped_old t h);
  owned = λ t h. elim (Bool-cases (nat_eq t s.next_sub)) [
    | inl same ↦ inr (inr (ground arith))
    | inr other ↦ elim (v.owned t (ground arith)) [
      | inl k ↦ inl k
      | inr (inl k) ↦ inr (inl k)
      | inr (inr k) ↦ absurd (ground (arith, i, k))
    ]
  ];
  current = λ t h. elim (Bool-cases (nat_eq t s.next_sub)) [
    | inl same ↦ inl (rw same n)
    | inr other ↦ rw other (v.current t (ground arith))
  ];
  settled = λ h. absurd (ground arith);
  apart = v.apart;
  nc_open = v.nc_open;
  renewed = λ d t h. elim (v.renewed d t h) [
    | inl k ↦ inl k
    | inr (l, k) ↦
        let older : nat_eq t s.next_sub ≡ false = ground (arith, v.held_old d t h) in
        inr (
          ground (arith, l),
          elim k [ inl c ↦ inl (rw older c) | inr w ↦ inr (subst (λ r. Awaits r d) i w) ],
        )
  ];
}

pub warn-IsSound :
    (e : ℕ) (more : List ℕ) (s : Registry)
    → s.rearm ≡ at (e ∷ more)
    → IsSound s
    → IsSound (warn e more s)
unfolding warn
warn-IsSound e more s i v = record {
  unregistered = v.unregistered;
  armed = v.armed;
  held_old = v.held_old;
  held_kept = v.held_kept;
  held_once = v.held_once;
  held_closed = v.held_closed;
  hand_old = λ t h. ground arith;
  hand_live = λ t h. ground arith;
  hand_kept = λ t h. ground arith;
  hand_free = λ d t h k. ground arith;
  hand_conn = λ t h. ground arith;
  live_old = v.live_old;
  dropped_old = v.dropped_old;
  owned = λ t h. elim (v.owned t h) [
    | inl k ↦ inl k
    | inr (inl k) ↦ inr (inl k)
    | inr (inr k) ↦ absurd (ground (arith, i, k))
  ];
  current = v.current;
  settled = λ h. absurd (ground arith);
  apart = v.apart;
  nc_open = v.nc_open;
  renewed = λ d t h. elim (v.renewed d t h) [
    | inl k ↦ inl (ground (arith, k))
    | inr (l, inl c) ↦ inr (l, inl c)
    | inr (l, inr w) ↦
        let left : (e ≡ d) ⊎ In d more = subst (λ r. Awaits r d) i w in
        elim left [ inl same ↦ inl (ground arith) | inr m ↦ inr (l, inr m) ]
  ];
}

module _ (e t : ℕ) (more : List ℕ) (s : Registry) (i : s.rearm ≡ subscribed e t more)
    (v : IsSound s) where
  hand_at : in_hand s.rearm t ≡ true
  hand_at = ground (arith, i)

  swap_sub_removed : s.registered e ≡ false → IsSound (swap_sub e t more s)
  unfolding swap_sub
  swap_sub_removed g = rw g (record {
    unregistered = v.unregistered;
    armed = v.armed;
    held_old = v.held_old;
    held_kept = λ d u h. ground (arith, v.held_kept d u h, v.hand_free d t hand_at);
    held_once = v.held_once;
    held_closed = v.held_closed;
    hand_old = λ u h. ground arith;
    hand_live = λ u h. ground arith;
    hand_kept = λ u h. ground arith;
    hand_free = λ d u h k. ground arith;
    hand_conn = λ u h. ground arith;
    live_old = v.live_old;
    dropped_old = λ u h. ground (arith, v.dropped_old u, v.hand_old t hand_at);
    owned = λ u h. elim (v.owned u h) [
      | inl k ↦ inl k
      | inr (inl k) ↦ inr (inl (ground (arith, k)))
      | inr (inr k) ↦ inr (inl (ground (arith, i, k)))
    ];
    current = v.current;
    settled = λ h. absurd (ground arith);
    apart = v.apart;
    nc_open = v.nc_open;
    renewed = λ d u h. elim (v.renewed d u h) [
      | inl k ↦ inl k
      | inr (l, inl c) ↦ inr (l, inl c)
      | inr (l, inr w) ↦
          let left : (e ≡ d) ⊎ In d more = subst (λ r. Awaits r d) i w in
          elim left [
            | inl same ↦ absurd (ground (arith, v.unregistered e g))
            | inr m ↦ inr (l, inr m)
          ]
    ];
  })

  swap_sub_installed : s.registered e ≡ true → IsSound (swap_sub e t more s)
  unfolding swap_sub
  swap_sub_installed g =
      let (old, o) = v.armed e g in
      rw (g, o)
        (record {
          unregistered = λ d h. ground (arith, v.unregistered d);
          armed = λ d h. elim (Bool-cases (nat_eq d e)) [
            | inl same ↦ (t, ground arith)
            | inr other ↦ let (u, k) = v.armed d h in (u, ground (arith, k))
          ];
          held_old = λ d u h. ground (arith, v.held_old d u, v.hand_old t hand_at);
          held_kept = λ d u h. ground (
            arith,
            v.held_kept d u,
            v.hand_kept t hand_at,
            v.held_once e d u,
            v.hand_free e old,
            hand_at,
          );
          held_once = λ d c u h k.
              ground (arith, v.held_once d c u, v.hand_free d t hand_at, v.hand_free c t hand_at);
          held_closed = λ d u h. elim (Bool-cases (nat_eq d e)) [
            | inl same ↦ inl (ground (arith, v.hand_live t hand_at))
            | inr other ↦ v.held_closed d u (ground arith)
          ];
          hand_old = λ u h. ground arith;
          hand_live = λ u h. ground arith;
          hand_kept = λ u h. ground arith;
          hand_free = λ d u h k. ground arith;
          hand_conn = λ u h. ground arith;
          live_old = v.live_old;
          dropped_old = λ u h. ground (arith, v.dropped_old u, v.held_old e old o);
          owned = λ u h. elim (v.owned u h) [
            | inl (d, k) ↦ elim (Bool-cases (nat_eq d e)) [
              | inl same ↦ inr (inl (ground (arith, k, o)))
              | inr other ↦ inl (d, ground (arith, k))
            ]
            | inr (inl k) ↦ inr (inl (ground (arith, k)))
            | inr (inr k) ↦ inl (e, ground (arith, i, k))
          ];
          current = v.current;
          settled = λ h. absurd (ground arith);
          apart = v.apart;
          nc_open = v.nc_open;
          renewed = λ d u h. elim (Bool-cases (nat_eq d e)) [
            | inl same ↦
                let one : t ≡ u = ground arith in
                inr (
                  subst (λ x. s.live x ≡ true) one (v.hand_live t hand_at),
                  inl (subst (λ x. s.nc ≡ some (s.conn x)) one (v.hand_conn t hand_at)),
                )
            | inr other ↦ elim (v.renewed d u (ground arith)) [
              | inl k ↦ inl (ground (arith, k))
              | inr (l, inl c) ↦ inr (l, inl c)
              | inr (l, inr w) ↦
                  let left : (e ≡ d) ⊎ In d more = subst (λ r. Awaits r d) i w in
                  elim left [ inl same ↦ absurd (ground arith) | inr m ↦ inr (l, inr m) ]
            ]
          ];
        })

  pub swap_sub-IsSound : IsSound (swap_sub e t more s)
  swap_sub-IsSound = elim (Bool-cases (s.registered e)) [
    | inl g ↦ swap_sub_installed g
    | inr g ↦ swap_sub_removed g
  ]

pub finish_rearm-IsSound : (s : Registry) → s.rearm ≡ at [] → IsSound s → IsSound (finish_rearm s)
unfolding finish_rearm
finish_rearm-IsSound s i v = record {
  unregistered = v.unregistered;
  armed = v.armed;
  held_old = v.held_old;
  held_kept = v.held_kept;
  held_once = v.held_once;
  held_closed = λ e t h. ground (arith, v.held_closed e t h);
  hand_old = λ t h. ground arith;
  hand_live = λ t h. ground arith;
  hand_kept = λ t h. ground arith;
  hand_free = λ e t h k. ground arith;
  hand_conn = λ t h. ground arith;
  live_old = λ t h. v.live_old t (ground arith);
  dropped_old = v.dropped_old;
  owned = λ t h. elim (v.owned t (ground arith)) [
    | inl k ↦ inl k
    | inr (inl k) ↦ inr (inl k)
    | inr (inr k) ↦ absurd (ground (arith, i, k))
  ];
  current = λ t h. elim (v.current t (ground arith)) [
    | inl k ↦ inl k
    | inr k ↦ absurd (ground (arith, k))
  ];
  settled = λ h. refl;
  apart = λ c h k. ground arith;
  nc_open = λ c h. ground (arith, v.nc_open c h, v.apart c);
  renewed = λ e t h. elim (v.renewed e t h) [
    | inl k ↦ inl k
    | inr (l, inl c) ↦ inr (ground (arith, l, c, v.apart (s.conn t)), inl c)
    | inr (l, inr w) ↦ absurd (subst (λ r. Awaits r e) i w)
  ];
}

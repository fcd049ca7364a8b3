-- ===== src/RateLimit/Limiter/Owes.antt =====
-- What a limiter has taken on top of what its readings of the clock alone would have made of it. `R`
-- tells the times that a call reads.
use bt_api_base.Prelude.{
  ℕ, ◌+◌, ◌-◌, ◌<◌, ◌≡◌, ◌≢◌, refl, sym, ◌∙◌, ◌⊎◌, inl, inr, true, false, List, [], ◌∷◌, ◌++◌, All,
  All-append, All-map, arith, ap, leb, ◌==◌, ==_iff, nat_key, Bool-cases,
}
use mathlib.Core.Bool.{false≢true}
use bt_api_base.RateLimit.Sliding
use bt_api_base.RateLimit.Sliding.{SlidingWindow, Request, prune, pop_if}
use bt_api_base.RateLimit.Sliding.Exact.{pop_if-prune-append}
use bt_api_base.RateLimit.Fixed
use bt_api_base.RateLimit.Fixed.{FixedWindow, start_of, roll, try_charge}
use bt_api_base.RateLimit.Limiter.{Limiter, sliding, fixed, acquire_one, release_one}

-- What the passing of time does to a limiter that is read at time `t`.
unfoldable pub age : ℕ → Limiter → Limiter
age t (sliding l) = sliding (record l { requests = prune l.interval t l.requests })
age t (fixed l) = fixed (roll l t)

unfoldable pub age_all : List ℕ → Limiter → Limiter
unfolding age
age_all [] l = l
age_all (t ∷ ts) l = age_all ts (age t l)

age_all-append : (ts us : List ℕ) (l : Limiter) → age_all (ts ++ us) l ≡ age_all us (age_all ts l)
unfolding age_all
age_all-append [] us l = refl
age_all-append (t ∷ ts) us l = age_all-append ts us (age t l)

prune-append :
    (i t s w : ℕ) (xs : List Request)
    → (prune i t (xs ++ (s, w) ∷ []) ≡ prune i t xs ++ (s, w) ∷ [])
      ⊎ ((s + i < t) × (prune i t (xs ++ (s, w) ∷ []) ≡ []) × (prune i t xs ≡ []))
unfolding prune
prune-append i t s w [] = ground arith
prune-append i t s w (b ∷ xs) = ground (arith, prune-append i t s w xs)

roll_same :
    (l : FixedWindow) (t : ℕ) → (start_of l.interval t == l.window_start) ≡ true → roll l t ≡ l
unfolding roll
roll_same l t h = rw (roll, h) refl

roll_new :
    (l : FixedWindow) (t : ℕ)
    → (start_of l.interval t == l.window_start) ≡ false
    → roll l t ≡ record l { window_start = start_of l.interval t; window_count = 0 }
unfolding roll
roll_new l t h = rw (roll, h) refl

roll_start : (l : FixedWindow) (t : ℕ) → (roll l t).window_start ≡ start_of (roll l t).interval t
roll_start l t = elim (Bool-cases (start_of l.interval t == l.window_start)) [
  | inl here ↦
      rw (roll_same l t here) (sym ((==_iff (start_of l.interval t) l.window_start).0 here))
  | inr other ↦ rw (roll_new l t other) refl
]

refused-age :
    (now w : ℕ) (l : Limiter)
    → (acquire_one l now w).1 ≡ false
    → (acquire_one l now w).0 ≡ age now l
unfolding age acquire_one Sliding.acquire Fixed.acquire try_charge
refused-age now w (sliding l) h = ground arith
refused-age now w (fixed l) h = ground arith

module _ (R : ℕ → Type 0) where
  -- One deque has a request of weight `w` at a time that was read more than another, as its last; or
  -- the request has expired at a time read later, and with it all that is older.
  abbrev pub EntryOver : ℕ → ℕ → List Request → List Request → Type 0
  EntryOver i w xs ys =
      ((t : ℕ) × R t × (xs ≡ ys ++ (t, w) ∷ []))
      ⊎ ((t : ℕ) × (s : ℕ) × R t × R s × (t + i < s) × (xs ≡ []) × (ys ≡ []))

  -- A window's count has a part of weight `w` more than another, charged at a time that was read in
  -- that window; or a time of another window was read since, which has set both to zero.
  abbrev pub CountOver : ℕ → ℕ → ℕ → ℕ → ℕ → Type 0
  CountOver i start w a b =
      ((t : ℕ) × R t × (start_of i t ≡ start) × (a ≡ b + w))
      ⊎ ((t : ℕ) × (s : ℕ) × R t × R s × (start_of i t ≢ start_of i s) × (a ≡ 0) × (b ≡ 0))

  -- `l` is `m` with one request of weight `w` on top.
  abbrev pub Over : ℕ → Limiter → Limiter → Type 0
  Over w (sliding l) (sliding m) =
      (l.interval ≡ m.interval) × (l.limit ≡ m.limit) × EntryOver m.interval w l.requests m.requests
  Over w (fixed l) (fixed m) =
      (l.interval ≡ m.interval)
      × (l.limit ≡ m.limit)
      × (l.window_start ≡ m.window_start)
      × CountOver m.interval m.window_start w l.window_count m.window_count
  Over w _ _ = ⊥

  -- `l` is what times that were read made of `base`, with requests of these weights on top, the
  -- newest first.
  abbrev pub Owes : Limiter → List ℕ → Limiter → Type 0
  Owes base [] l = (ts : List ℕ) × All R ts × (l ≡ age_all ts base)
  Owes base (w ∷ ws) l = (m : Limiter) × Over w l m × Owes base ws m

  entry_over :
      (i t w s : ℕ) (xs ys : List Request)
      → R s
      → R t
      → xs ≡ ys ++ (s, w) ∷ []
      → (prune i t (ys ++ (s, w) ∷ []) ≡ prune i t ys ++ (s, w) ∷ [])
        ⊎ ((s + i < t) × (prune i t (ys ++ (s, w) ∷ []) ≡ []) × (prune i t ys ≡ []))
      → EntryOver i w (prune i t xs) (prune i t ys)
  entry_over i t w s xs ys rs rt e (inl kept) = inl (s, rs, ap (prune i t) e ∙ kept)
  entry_over i t w s xs ys rs rt e (inr (late, gone, all)) =
      inr (s, t, rs, rt, late, ap (prune i t) e ∙ gone, all)

  prune-EntryOver :
      (i t w : ℕ) (xs ys : List Request)
      → R t
      → EntryOver i w xs ys
      → EntryOver i w (prune i t xs) (prune i t ys)
  unfolding prune
  prune-EntryOver i t w xs ys rt (inl (s, rs, e)) =
      entry_over i t w s xs ys rs rt e (prune-append i t s w ys)
  prune-EntryOver i t w xs ys rt (inr (s, u, rs, ru, late, e, f)) =
      inr (s, u, rs, ru, late, ap (prune i t) e, ap (prune i t) f)

  CountOver-new :
      (i start t w a b : ℕ)
      → R t
      → (start_of i t == start) ≡ false
      → CountOver i start w a b
      → CountOver i (start_of i t) w 0 0
  CountOver-new i start t w a b rt other (inl (s, rs, here, e)) = inr (
    s,
    t,
    rs,
    rt,
    (λ q. false≢true (sym other ∙ (==_iff (start_of i t) start).1 (sym q ∙ here))),
    refl,
    refl,
  )
  CountOver-new i start t w a b rt other (inr (s, u, rs, ru, ne, e, f)) =
      inr (s, u, rs, ru, ne, refl, refl)

  -- A roll of two windows that agree on all but their counts.
  roll-Over :
      (t w : ℕ) (l m : FixedWindow)
      → R t
      → Over w (fixed l) (fixed m)
      → Over w (fixed (roll l t)) (fixed (roll m t))
  roll-Over t w l m rt (i, c, b, over) =
      let e : (start_of l.interval t == l.window_start)
          ≡ (start_of m.interval t == m.window_start) =
        ap (λ x. start_of x t == l.window_start) i ∙ ap (λ x. start_of m.interval t == x) b in
      elim (Bool-cases (start_of m.interval t == m.window_start)) [
        | inl here ↦ rw (roll_same l t (e ∙ here), roll_same m t here) (i, c, b, over)
        | inr other ↦
            rw (roll_new l t (e ∙ other), roll_new m t other)
              (
                i,
                c,
                ap (λ x. start_of x t) i,
                CountOver-new m.interval m.window_start t w l.window_count m.window_count rt other
                    over,
              )
      ]

  age-Over : (t w : ℕ) (l m : Limiter) → R t → Over w l m → Over w (age t l) (age t m)
  unfolding age
  age-Over t w (sliding l) (sliding m) rt (i, c, d) =
      (i, c, rw i (prune-EntryOver m.interval t w l.requests m.requests rt d))
  age-Over t w (fixed l) (fixed m) rt h = roll-Over t w l m rt h
  age-Over t w (sliding l) (fixed m) rt h = absurd h
  age-Over t w (fixed l) (sliding m) rt h = absurd h

  -- A reading keeps what is owed.
  pub age-Owes :
      (t : ℕ) (base : Limiter) (ws : List ℕ) (l : Limiter)
      → R t
      → Owes base ws l
      → Owes base ws (age t l)
  unfolding age age_all
  age-Owes t base [] l rt (ts, rs, e) = (
    ts ++ t ∷ [],
    All-append R ts (t ∷ []) rs (rt, tt),
    ap (age t) e ∙ sym (age_all-append ts (t ∷ []) base),
  )
  age-Owes t base (w ∷ ws) l rt (m, over, h) =
      (age t m, age-Over t w l m rt over, age-Owes t base ws m rt h)

  granted-Over :
      (now w : ℕ) (l : Limiter)
      → R now
      → (acquire_one l now w).1 ≡ true
      → Over w (acquire_one l now w).0 (age now l)
  unfolding age acquire_one Sliding.acquire Fixed.acquire try_charge
  granted-Over now w (sliding l) r h = (ground arith, ground arith, inl (now, r, ground arith))
  granted-Over now w (fixed l) r h =
      elim (Bool-cases (leb ((roll l now).window_count + w) (roll l now).limit)) [
        | inl fits ↦
            rw (acquire_one, fits) (refl, refl, refl, inl (now, r, sym (roll_start l now), refl))
        | inr full ↦ absurd (false≢true (rw (acquire_one, full) at h))
      ]

  pub acquire_one-Owes :
      (now w : ℕ) (base : Limiter) (ws : List ℕ) (l : Limiter)
      → R now
      → Owes base ws l
      → (acquire_one l now w).1 ≡ true
      → Owes base (w ∷ ws) (acquire_one l now w).0
  acquire_one-Owes now w base ws l r h g =
      (age now l, granted-Over now w l r g, age-Owes now base ws l r h)

  pub refused-Owes :
      (now w : ℕ) (base : Limiter) (ws : List ℕ) (l : Limiter)
      → R now
      → Owes base ws l
      → (acquire_one l now w).1 ≡ false
      → Owes base ws (acquire_one l now w).0
  refused-Owes now w base ws l r h f = rw (refused-age now w l f) (age-Owes now base ws l r h)

  pop-EntryOver :
      (w i now : ℕ) (xs ys : List Request)
      → EntryOver i w xs ys
      → pop_if w (prune i now xs) ≡ prune i now ys
  pop-EntryOver w i now xs ys (inl (s, r, e)) = rw e (pop_if-prune-append w i now ys s)
  pop-EntryOver w i now xs ys (inr (s, t, r, r', late, e, f)) = unfold pop_if prune in rw (e, f)

  subtracted : (i start w a b : ℕ) → CountOver i start w a b → a - w ≡ b
  subtracted i start w a b (inl (t, r, here, e)) = omega (arith, e)
  subtracted i start w a b (inr (t, s, r, r', ne, e, f)) = omega (arith, e, f)

  -- Without the newest request, the limiter is the one below it, read again or not.
  release_one-Over :
      (now w : ℕ) (l m : Limiter)
      → Over w l m
      → (release_one l now w ≡ age now m) ⊎ (release_one l now w ≡ m)
  unfolding age release_one Sliding.release Fixed.release
  release_one-Over now w (sliding l) (sliding m) h =
      inl (ground (arith, h.0, h.1, pop-EntryOver w m.interval now l.requests m.requests h.2))
  release_one-Over now w (fixed l) (fixed m) (i, c, b, over) =
      let e = subtracted m.interval m.window_start w l.window_count m.window_count over in
      inr (ground (arith, i, c, b, e))
  release_one-Over now w (sliding l) (fixed m) h = absurd h
  release_one-Over now w (fixed l) (sliding m) h = absurd h

  -- A release of the newest weight settles it.
  pub release_one-Owes :
      (now w : ℕ) (base : Limiter) (ws : List ℕ) (l : Limiter)
      → R now
      → Owes base (w ∷ ws) l
      → Owes base ws (release_one l now w)
  release_one-Owes now w base ws l r (m, over, h) = elim (release_one-Over now w l m over) [
    | inl aged ↦ rw aged (age-Owes now base ws m r h)
    | inr same ↦ rw same h
  ]

  -- What was read before the weights were taken counts as read too.
  pub Owes-trans :
      (base l : Limiter) (ws : List ℕ) (m : Limiter) → Owes base [] l → Owes l ws m → Owes base ws m
  Owes-trans base l [] m (ts, r, e) (us, r', f) =
      (ts ++ us, All-append R ts us r r', rw (age_all-append, ← e) f)
  Owes-trans base l (w ∷ ws) m h (k, over, o) = (k, over, Owes-trans base l ws k h o)

module _ (R S : ℕ → Type 0) (wider : (t : ℕ) → R t → S t) where
  Over-map : (w : ℕ) (l m : Limiter) → Over R w l m → Over S w l m
  Over-map w (sliding l) (sliding m) (i, c, inl (t, r, e)) = (i, c, inl (t, wider t r, e))
  Over-map w (sliding l) (sliding m) (i, c, inr (t, s, r, r', late, e, f)) =
      (i, c, inr (t, s, wider t r, wider s r', late, e, f))
  Over-map w (fixed l) (fixed m) (i, c, b, inl (t, r, e, f)) = (i, c, b, inl (t, wider t r, e, f))
  Over-map w (fixed l) (fixed m) (i, c, b, inr (t, s, r, r', ne, e, f)) =
      (i, c, b, inr (t, s, wider t r, wider s r', ne, e, f))
  Over-map w (sliding l) (fixed m) h = absurd h
  Over-map w (fixed l) (sliding m) h = absurd h

  pub Owes-map : (base : Limiter) (ws : List ℕ) (l : Limiter) → Owes R base ws l → Owes S base ws l
  Owes-map base [] l (ts, r, e) = (ts, All-map R S wider ts r, e)
  Owes-map base (w ∷ ws) l (m, over, h) = (m, Over-map w l m over, Owes-map base ws m h)

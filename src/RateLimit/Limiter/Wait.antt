-- ===== src/RateLimit/Limiter/Wait.antt =====
-- `wait_and_acquire`, and the loop of `async_acquire`, which differs in how it sleeps only.
use bt_api_base.Prelude.{
  ℕ, zero, suc, ◌+◌, ◌-◌, ◌<◌, ◌≤◌, String, ◌≡◌, ◌≢◌, refl, inl, inr, Bool, true, false, Option,
  none, some, List, [], ◌∷◌, arith, string_key, if◌then◌else◌, Bool-cases, ltb, ap, select,
}
use bt_api_base.Prelude.Dict.{lookup}
use bt_api_base.RateLimit.Limiter.{
  RateLimitRule, RateLimiter, Limiter, Limiters, Taken, wait_time, match, get_matched_rules,
  acquire, demands,
}
use bt_api_base.RateLimit.Limiter.Atomic.{Charged, takings, OwesIf}
use bt_api_base.RateLimit.Limiter.Acquire.{
  acquire_atomic, call_takings, Charged-refl, Charged-trans, Charged-map, IsReading, reads_of,
}

-- `max(a, b)`, which keeps the first where they are equal.
abbrev larger : ℕ → ℕ → ℕ
larger a b = if ltb a b then b else a

unfoldable pub max_wait : (ℕ → ℕ) → Limiters → List RateLimitRule → ℕ → ℕ → ℕ
max_wait clock d [] n longest = longest
max_wait clock d (r ∷ rules) n longest = elim (lookup r.name d) [
  | none ↦ max_wait clock d rules n longest
  | some l ↦ max_wait clock d rules (suc n) (larger longest (wait_time l (clock n)))
]

unfoldable pub get_max_wait_time : (ℕ → ℕ) → (String → String → Bool) → RateLimiter → String → ℕ
unfolding max_wait
get_max_wait_time clock fnmatch l path =
    max_wait clock l.limiters (get_matched_rules fnmatch l path) 0 0

-- The world around a waiting call: in round `i` the limiters read the clock `readings i` while they
-- acquire and `waits i` while they tell how long to wait, `monotonic i` is the time at the end of
-- the round, and `short` is the wait of 0.05 s that stands in for zero.
pub record World : Type 0 where
  pub readings : ℕ → ℕ → ℕ
  pub waits : ℕ → ℕ → ℕ
  pub start : ℕ
  pub monotonic : ℕ → ℕ
  pub short : ℕ

module _ (world : World) (fnmatch : String → String → Bool) (method path : String)
    (weight : ℕ) where
  unfoldable pub effective_wait : ℕ → RateLimiter → ℕ
  effective_wait i l =
      let wait = get_max_wait_time (world.waits i) fnmatch l path in
      if ltb 0 wait then wait else world.short

  -- `monotonic() - start + effective_wait > timeout`; no timeout never runs out.
  unfoldable pub gives_up : Option ℕ → ℕ → RateLimiter → Bool
  unfolding effective_wait
  gives_up none i l = false
  gives_up (some timeout) i l = ltb timeout (world.monotonic i - world.start + effective_wait i l)

  -- The loop from round `i` on, for at most `fuel` rounds; `none` means that it still waits.
  unfoldable pub wait_and_acquire : ℕ → ℕ → Option ℕ → RateLimiter → RateLimiter × Option Bool
  wait_and_acquire zero i timeout l = (l, none)
  wait_and_acquire (suc fuel) i timeout l =
      let (l', granted) = acquire (world.readings i) fnmatch l method path weight in
      let rest = wait_and_acquire fuel (suc i) timeout l' in
      if granted then (l', some true) else if gives_up timeout i l' then (l', some false) else rest

module _ (R : ℕ → Type 0) where
  takings-Charged :
      (a b : Limiters) (todo taken : Taken)
      → Charged R a [] b
      → takings b todo taken ≡ takings a todo taken
  unfolding takings
  takings-Charged a b [] taken h = refl
  takings-Charged a b ((name, w) ∷ todo) taken h =
      same (lookup name a) (lookup name b) (h name) refl refl (takings-Charged a b todo taken h)
        (takings-Charged a b todo ((name, w) ∷ taken) h)
    where
      same :
          (x y : Option Limiter)
          → OwesIf R x [] y
          → lookup name a ≡ x
          → lookup name b ≡ y
          → takings b todo taken ≡ takings a todo taken
          → takings b todo ((name, w) ∷ taken) ≡ takings a todo ((name, w) ∷ taken)
          → takings b ((name, w) ∷ todo) taken ≡ takings a ((name, w) ∷ todo) taken
      same none none o e f skip take = rw (e, takings) (rw (f, takings) skip)
      same (some x) (some y) o e f skip take = rw (e, takings) (rw (f, takings) take)
      same none (some y) o e f skip take = absurd o
      same (some x) none o e f skip take = absurd o

-- What a waiting call has taken, by its result.
abbrev pub waited : Option Bool → Taken → Taken
waited (some true) taken = taken
waited _ taken = []

matched_same :
    (fnmatch : String → String → Bool) (l l' : RateLimiter) (path : String)
    → l'.rules ≡ l.rules
    → get_matched_rules fnmatch l' path ≡ get_matched_rules fnmatch l path
unfolding get_matched_rules
matched_same fnmatch l l' path e =
    ap (λ (rules : List RateLimitRule). select (λ rule. match fnmatch rule path) rules) e

-- A refused call does not change what the next one asks for.
call_takings_same :
    (R : ℕ → Type 0) (fnmatch : String → String → Bool) (l l' : RateLimiter) (method path : String)
    (weight : ℕ)
    → Charged R l.limiters [] l'.limiters
    → l'.rules ≡ l.rules
    → call_takings fnmatch l' method path weight ≡ call_takings fnmatch l method path weight
call_takings_same R fnmatch l l' method path weight h e = rw (matched_same fnmatch l l' path e) (
    takings-Charged R l.limiters l'.limiters
      (demands (get_matched_rules fnmatch l path) method path weight) [] h)

module _ (world : World) (fnmatch : String → String → Bool) (method path : String)
    (weight : ℕ) where
  abbrev round : ℕ → RateLimiter → RateLimiter × Bool
  round i l = acquire (world.readings i) fnmatch l method path weight

  wait_granted :
      (fuel i : ℕ) (timeout : Option ℕ) (l : RateLimiter)
      → (round i l).1 ≡ true
      → wait_and_acquire world fnmatch method path weight (suc fuel) i timeout l
        ≡ ((round i l).0, some true)
  unfolding wait_and_acquire
  wait_granted fuel i timeout l g = rw g

  wait_stopped :
      (fuel i : ℕ) (timeout : Option ℕ) (l : RateLimiter)
      → (round i l).1 ≡ false
      → gives_up world fnmatch method path weight timeout i (round i l).0 ≡ true
      → wait_and_acquire world fnmatch method path weight (suc fuel) i timeout l
        ≡ ((round i l).0, some false)
  unfolding wait_and_acquire
  wait_stopped fuel i timeout l r s = rw (r, s)

  wait_more :
      (fuel i : ℕ) (timeout : Option ℕ) (l : RateLimiter)
      → (round i l).1 ≡ false
      → gives_up world fnmatch method path weight timeout i (round i l).0 ≡ false
      → wait_and_acquire world fnmatch method path weight (suc fuel) i timeout l
        ≡ wait_and_acquire world fnmatch method path weight fuel (suc i) timeout (round i l).0
  unfolding wait_and_acquire
  wait_more fuel i timeout l r s = rw (r, s)

  -- The times at which rounds `i` up to, but not including, `j` read the clock to acquire, each at
  -- most `bound` times.
  abbrev pub IsRoundReading : ℕ → ℕ → ℕ → ℕ → Type 0
  IsRoundReading bound i j t = (k : ℕ) × (i ≤ k) × (k < j) × IsReading (world.readings k) bound t

  IsRoundReading-one :
      (l : RateLimiter) (taken : Taken) (d : Limiters) (bound i j : ℕ)
      → i < j
      → Charged (IsReading (world.readings i) bound) l.limiters taken d
      → Charged (IsRoundReading bound i j) l.limiters taken d
  IsRoundReading-one l taken d bound i j h =
      Charged-map (IsReading (world.readings i) bound) (IsRoundReading bound i j)
        (λ t r. (i, omega arith, h, r)) l.limiters taken d

  IsRoundReading-later :
      (l : RateLimiter) (taken : Taken) (d : Limiters) (bound i j : ℕ)
      → Charged (IsRoundReading bound (suc i) j) l.limiters taken d
      → Charged (IsRoundReading bound i j) l.limiters taken d
  IsRoundReading-later l taken d bound i j =
      Charged-map (IsRoundReading bound (suc i) j) (IsRoundReading bound i j)
        (λ t (k, above, below, r). (k, omega (arith, above), below, r)) l.limiters taken d

  -- However many rounds it takes, a waiting call that returns true has left every limiter as the
  -- readings of the clock in its rounds, at most two for each matched rule and round, have left it,
  -- with the weights of the matched rules of its name on top, once, each at the time of such a
  -- reading; one that gives up, or still waits, leaves every limiter as such readings have left it,
  -- with nothing on top and nothing else lost.
  pub wait_atomic :
      (fuel i : ℕ) (timeout : Option ℕ) (l : RateLimiter)
      → let (l', result) = wait_and_acquire world fnmatch method path weight fuel i timeout l in
        Charged
          (IsRoundReading (reads_of fnmatch l path) i (i + fuel))
          l.limiters
          (waited result (call_takings fnmatch l method path weight))
          l'.limiters
  wait_atomic zero i timeout l =
      unfold wait_and_acquire in
      Charged-refl (IsRoundReading (reads_of fnmatch l path) i (i + 0)) l.limiters
  wait_atomic (suc fuel) i timeout l = elim (Bool-cases (round i l).1) [
    | inl g ↦ rw (wait_granted fuel i timeout l g) (rw g at once)
    | inr r ↦
        elim (Bool-cases (gives_up world fnmatch method path weight timeout i (round i l).0)) [
          | inl s ↦ rw (wait_stopped fuel i timeout l r s) (rw r at once)
          | inr m ↦
              rw (wait_more fuel i timeout l r m)
                (later (rw r at once) (wait_atomic fuel (suc i) timeout (round i l).0))
        ]
  ]
    where
      once :
          Charged
            (IsRoundReading (reads_of fnmatch l path) i (i + suc fuel))
            l.limiters
            (if (round i l).1 then call_takings fnmatch l method path weight else [])
            (round i l).0.limiters
      once =
          IsRoundReading-one l _ _ (reads_of fnmatch l path) i (i + suc fuel) (omega arith)
            (acquire_atomic (world.readings i) fnmatch l method path weight).0

      later :
          Charged
            (IsRoundReading (reads_of fnmatch l path) i (i + suc fuel))
            l.limiters
            []
            (round i l).0.limiters
          → (let (l', result) =
                wait_and_acquire world fnmatch method path weight fuel
                  (suc i)
                  timeout
                  (round i l).0 in
              Charged
                (IsRoundReading (reads_of fnmatch (round i l).0 path) (suc i) (suc i + fuel))
                (round i l).0.limiters
                (waited result (call_takings fnmatch (round i l).0 method path weight))
                l'.limiters)
          → (let (l', result) =
                wait_and_acquire world fnmatch method path weight fuel
                  (suc i)
                  timeout
                  (round i l).0 in
              Charged
                (IsRoundReading (reads_of fnmatch l path) i (i + suc fuel))
                l.limiters
                (waited result (call_takings fnmatch l method path weight))
                l'.limiters)
      later h k =
          let rules = (acquire_atomic (world.readings i) fnmatch l method path weight).1 in
          let there : suc i + fuel ≡ i + suc fuel = omega arith in
          Charged-trans (IsRoundReading (reads_of fnmatch l path) i (i + suc fuel)) l.limiters
            (round i l).0.limiters _ _ h
            (IsRoundReading-later (round i l).0 _ _ (reads_of fnmatch l path) i (i + suc fuel) (
              rw
                (
                  call_takings_same (IsRoundReading (reads_of fnmatch l path) i (i + suc fuel))
                      fnmatch l (round i l).0 method path weight h rules,
                  matched_same fnmatch l (round i l).0 path rules,
                  there,
                )
                at k))

  gives_up_late :
      (t i : ℕ) (l : RateLimiter)
      → t < world.monotonic i - world.start
      → gives_up world fnmatch method path weight (some t) i l ≡ true
  unfolding gives_up
  gives_up_late t i l h = ground arith

  -- One round either ends the call or goes on to the next.
  wait_round :
      (fuel i t : ℕ) (l : RateLimiter)
      → (gives_up world fnmatch method path weight (some t) i (round i l).0 ≡ false
          → (wait_and_acquire world fnmatch method path weight fuel
              (suc i)
              (some t)
              (round i l).0).1
            ≢ none)
      → (wait_and_acquire world fnmatch method path weight (suc fuel) i (some t) l).1 ≢ none
  wait_round fuel i t l next = elim (Bool-cases (round i l).1) [
    | inl g ↦ rw (wait_granted fuel i (some t) l g) (λ e. cc)
    | inr r ↦
        elim (Bool-cases (gives_up world fnmatch method path weight (some t) i (round i l).0)) [
          | inl s ↦ rw (wait_stopped fuel i (some t) l r s) (λ e. cc)
          | inr m ↦ rw (wait_more fuel i (some t) l r m) (next m)
        ]
  ]

  -- A waiting call with a timeout returns once the clock has passed the timeout at the end of one of
  -- its rounds: that many rounds are enough fuel, whatever the limiters do.
  pub wait_returns :
      (more i t : ℕ) (l : RateLimiter)
      → t < world.monotonic (i + more) - world.start
      → (wait_and_acquire world fnmatch method path weight (suc more) i (some t) l).1 ≢ none
  wait_returns zero i t l h =
      let here : i + 0 ≡ i = omega arith in wait_round 0 i t l (λ m. absurd (late (rw here at h) m))
    where
      late :
          t < world.monotonic i - world.start
          → gives_up world fnmatch method path weight (some t) i (round i l).0 ≡ false
          → ⊥
      late h m = cc (gives_up_late t i (round i l).0 h)
  wait_returns (suc more) i t l h =
      let there : i + suc more ≡ suc i + more = omega arith in
      wait_round (suc more) i t l (λ m. wait_returns more (suc i) t (round i l).0 (rw there at h))

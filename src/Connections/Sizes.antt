-- ===== src/Connections/Sizes.antt =====
-- How many connections a `ConnectionPool` holds, and which one `acquire` picks.
use bt_api_base.Prelude.{
  ℕ, zero, suc, ◌+◌, ◌-◌, ◌<◌, ◌≤◌, ◌≡◌, refl, ◌∙◌, ap, inl, inr, true, Option, none, some, List,
  [], ◌∷◌, ◌++◌, ltb, if◌then◌else◌, length, length-append, nat_key, arith, Bool-cases, ==_self,
}
use bt_api_base.Connections.{
  Connection, ConnectionPool, HealthCheck, new, passes, close, fill, start, Outcome, got,
  no_connection, take_idle, acquire, split_idle, cleanup_idle_connections,
}
use bt_api_base.Connections.Conserved.{
  times, IsConserved, Call, starts, cleans, acquires, call, run, call-IsConserved, times_absent,
}

-- The first idle connection that passes the health check.
abbrev pub first_healthy : HealthCheck → List (Connection × ℕ) → Option Connection
first_healthy check [] = none
first_healthy check ((c, _) ∷ idle) = if passes check c then some c else first_healthy check idle

abbrev pub outcome_of : Option Connection → (used max_size made : ℕ) → Option ℕ → ℕ → Outcome
outcome_of (some c) used max_size made deadline now = got c
outcome_of none used max_size made deadline now =
    if ltb used max_size then got made else no_connection deadline now

-- A round of `acquire` gives the first idle connection that is healthy; where there is none, a new
-- one while fewer than `max_size` are in use; and else an error or a wait.
pub acquire_outcome :
    (p : ConnectionPool) (check : HealthCheck) (deadline : Option ℕ) (now : ℕ)
    → (acquire p check deadline now).1
      ≡ outcome_of (first_healthy check p.pool) (length p.in_use) p.max_size p.made deadline now
unfolding acquire take_idle
acquire_outcome p check deadline now = from_idle p.pool p
  where
    from_idle :
        (idle : List (Connection × ℕ)) (q : ConnectionPool)
        → (take_idle check idle q deadline now).1
          ≡ outcome_of (first_healthy check idle) (length q.in_use) q.max_size q.made deadline now
    from_idle [] q = elim (Bool-cases (ltb (length q.in_use) q.max_size)) [
      | inl room ↦ rw room refl
      | inr full ↦ rw full refl
    ]
    from_idle ((c, t) ∷ idle) q = elim (Bool-cases (passes check c)) [
      | inl good ↦ rw good refl
      | inr bad ↦ rw bad (from_idle idle (close c q))
    ]

fill_sizes :
    (n now : ℕ) (p : ConnectionPool)
    → (length (fill n now p).pool ≡ length p.pool + n)
      × ((fill n now p).in_use ≡ p.in_use)
      × ((fill n now p).min_size ≡ p.min_size)
unfolding fill
fill_sizes zero now p = (omega arith, refl, refl)
fill_sizes (suc n) now p =
    let (a, b, c) =
      fill_sizes n now (record p { pool = p.pool ++ (p.made, now) ∷ []; made = suc p.made }) in
    (omega (arith, a, length-append p.pool ((p.made, now) ∷ [])), b, c)

-- The clean-up leaves at least `min_size` connections idle, and does not touch those in use.
pub cleanup_sizes :
    (p : ConnectionPool) (now : ℕ)
    → (p.min_size ≤ length (cleanup_idle_connections p now).pool)
      × ((cleanup_idle_connections p now).in_use ≡ p.in_use)
      × ((cleanup_idle_connections p now).min_size ≡ p.min_size)
unfolding cleanup_idle_connections
cleanup_sizes p now =
    let (kept, closed) = split_idle p.max_idle_time now p.pool p.closed in
    let (a, b, c) =
      fill_sizes (p.min_size - length kept) now (record p { pool = kept; closed = closed }) in
    (omega (arith, a), b, c)

acquire_idle :
    (p : ConnectionPool) (deadline : Option ℕ) (now : ℕ)
    → IsConserved p
    → 0 < length p.pool
    → (length (acquire p none deadline now).0.in_use ≡ suc (length p.in_use))
      × ((acquire p none deadline now).0.min_size ≡ p.min_size)
unfolding acquire take_idle
acquire_idle p deadline now h some_idle = from_idle p.pool refl some_idle
  where
    from_idle :
        (idle : List (Connection × ℕ))
        → p.pool ≡ idle
        → 0 < length idle
        → (length (take_idle none idle p deadline now).0.in_use ≡ suc (length p.in_use))
          × ((take_idle none idle p deadline now).0.min_size ≡ p.min_size)
    from_idle [] e idle = ground arith
    from_idle ((c, t) ∷ idle) e more = (
      ground (arith, times_absent c p.in_use (unused c t idle e), length-append p.in_use (c ∷ [])),
      refl,
    )
      where
        unused :
            (c t : ℕ) (idle : List (Connection × ℕ)) → p.pool ≡ (c, t) ∷ idle → times c p.in_use ≡ 0
        unused c t idle e = ground (arith, rw e at (h c), ==_self c)

-- `n` rounds of an acquisition and a clean-up, all at one time.
abbrev pub rounds : ℕ → List (Call × ℕ)
rounds zero = []
rounds (suc n) = (acquires none none, 0) ∷ (cleans, 0) ∷ rounds n

rounds_overcommit :
    (n : ℕ) (p : ConnectionPool)
    → IsConserved p
    → 0 < p.min_size
    → 0 < length p.pool
    → length (run p (rounds n)).in_use ≡ n + length p.in_use
unfolding run call
rounds_overcommit zero p h least idle = omega arith
rounds_overcommit (suc n) p h least idle =
    let q : ConnectionPool = (acquire p none none 0).0 in
    let (more, same) = acquire_idle p none 0 h idle in
    let (enough, kept, still) = cleanup_sizes q 0 in
    let rest =
      rounds_overcommit n (cleanup_idle_connections q 0)
        (call-IsConserved q (cleans, 0) (call-IsConserved p (acquires none none, 0) h))
        (omega (arith, still, same)) (omega (arith, enough, same)) in
    rest ∙ omega (arith, ap length kept, more)

-- Whatever `max_size` is, a started pool that keeps some connections idle hands out any number of
-- them where the clean-up runs between the acquisitions: it refills the idle ones, and an idle one is
-- handed out without a look at `max_size`.
pub overcommits :
    (max_size min_size max_idle_time n : ℕ)
    → 0 < min_size
    → length (run (new max_size min_size max_idle_time) ((starts, 0) ∷ rounds n)).in_use ≡ n
unfolding run call start
overcommits max_size min_size max_idle_time n least =
    let p : ConnectionPool = new max_size min_size max_idle_time in
    let (a, b, c) = fill_sizes min_size 0 (record p { running = true }) in
    rounds_overcommit n (start p 0) (call-IsConserved p (starts, 0) (λ j. ground arith))
      (omega (arith, c)) (omega (arith, a))
    ∙ omega (arith, ap length b)

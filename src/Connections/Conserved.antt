-- ===== src/Connections/Conserved.antt =====
-- Where the connections of a `ConnectionPool` are.
use bt_api_base.Prelude.{
  ℕ, zero, suc, ◌+◌, ◌-◌, ◌<◌, ◌≡◌, refl, inl, inr, true, false, Option, List, [], ◌∷◌, ◌++◌, ltb,
  if◌then◌else◌, length, nat_key, arith, Bool-cases, ◌==◌, ==_iff, ==_self,
}
use bt_api_base.Prelude.Set
use bt_api_base.Connections.{
  Connection, ConnectionPool, HealthCheck, new, passes, close, fill, start, close_idle, close_all,
  stop, take_new, take_idle, acquire, release, split_idle, cleanup_idle_connections,
}

-- How often a connection stands in a list.
abbrev pub times : Connection → List Connection → ℕ
times j [] = 0
times j (c ∷ cs) = (if c == j then 1 else 0) + times j cs

abbrev pub times_idle : Connection → List (Connection × ℕ) → ℕ
times_idle j [] = 0
times_idle j ((c, _) ∷ cs) = (if c == j then 1 else 0) + times_idle j cs

-- Each connection that was made is idle, in use or closed, once, and no other is.
abbrev pub IsConserved : ConnectionPool → Type 0
IsConserved p =
    (j : Connection)
    → times_idle j p.pool + times j p.in_use + times j p.closed ≡ (if ltb j p.made then 1 else 0)

pub times_idle-append :
    (j c now : ℕ) (cs : List (Connection × ℕ))
    → times_idle j (cs ++ (c, now) ∷ []) ≡ times_idle j cs + (if c == j then 1 else 0)
times_idle-append j c now [] = ground arith
times_idle-append j c now ((d, _) ∷ cs) = ground (arith, times_idle-append j c now cs)

times-append :
    (j c : ℕ) (cs : List Connection)
    → times j (cs ++ c ∷ []) ≡ times j cs + (if c == j then 1 else 0)
times-append j c [] = ground arith
times-append j c (d ∷ cs) = ground (arith, times-append j c cs)

pub times_absent : (c : ℕ) (cs : List Connection) → times c cs ≡ 0 → Set.contains cs c ≡ false
times_absent c [] h = refl
times_absent c (d ∷ cs) h = ground (arith, times_absent c cs)

pub times_present : (c : ℕ) (cs : List Connection) → Set.contains cs c ≡ true → 0 < times c cs
times_present c [] h = ground arith
times_present c (d ∷ cs) h = ground (arith, times_present c cs)

-- Adding a connection that is not in use yet.
pub times-add :
    (j c : ℕ) (cs : List Connection)
    → times c cs ≡ 0
    → times j (Set.add c cs) ≡ times j cs + (if c == j then 1 else 0)
times-add j c cs h = ground (arith, times_absent c cs h, times-append j c cs)

pub times-discard :
    (j c : ℕ) (cs : List Connection)
    → times j (Set.discard c cs) ≡ (if c == j then 0 else times j cs)
times-discard j c [] = ground arith
times-discard j c (d ∷ cs) =
    ground (arith, times-discard j c cs, ==_iff d c, ==_iff c j, ==_iff d j)

fill-IsConserved : (n now : ℕ) (p : ConnectionPool) → IsConserved p → IsConserved (fill n now p)
unfolding fill
fill-IsConserved zero now p h = h
fill-IsConserved (suc n) now p h =
    fill-IsConserved n now (record p { pool = p.pool ++ (p.made, now) ∷ []; made = suc p.made })
      (λ j. ground (arith, h j, times_idle-append j p.made now p.pool, ==_iff p.made j))

take_new-IsConserved :
    (p : ConnectionPool) (deadline : Option ℕ) (now : ℕ)
    → IsConserved p
    → IsConserved (take_new p deadline now).0
take_new-IsConserved p deadline now h j =
    ground (arith, h j, h p.made, times-add j p.made p.in_use, ==_iff p.made j)

-- The pool in the middle of the inner loop, which has taken what is missing in `idle`.
take_idle-IsConserved :
    (check : HealthCheck) (idle : List (Connection × ℕ)) (p : ConnectionPool) (deadline : Option ℕ)
    (now : ℕ)
    → IsConserved (record p { pool = idle })
    → IsConserved (take_idle check idle p deadline now).0
unfolding take_idle
take_idle-IsConserved check [] p deadline now h =
    take_new-IsConserved (record p { pool = [] }) deadline now h
take_idle-IsConserved check ((c, t) ∷ idle) p deadline now h = elim (Bool-cases (passes check c)) [
  | inl good ↦
      rw good (λ j. ground (arith, h j, h c, times-add j c p.in_use, ==_iff c j, ==_self c))
  | inr bad ↦
      rw bad (take_idle-IsConserved check idle (close c p) deadline now (λ j. ground (arith, h j)))
]

acquire-IsConserved :
    (p : ConnectionPool) (check : HealthCheck) (deadline : Option ℕ) (now : ℕ)
    → IsConserved p
    → IsConserved (acquire p check deadline now).0
unfolding acquire
acquire-IsConserved p check deadline now h = take_idle-IsConserved check p.pool p deadline now h

release-IsConserved :
    (p : ConnectionPool) (c : Connection) (check : HealthCheck) (now : ℕ)
    → IsConserved p
    → IsConserved (release p c check now)
unfolding release
release-IsConserved p c check now h = elim (Bool-cases (Set.contains p.in_use c)) [
  | inr unknown ↦ rw unknown h
  | inl held ↦ elim (Bool-cases (passes check c)) [
    | inl good ↦
        rw (held, good)
          (λ j. ground (
            arith,
            h j,
            h c,
            times-discard j c p.in_use,
            times_present c p.in_use held,
            times_idle-append j c now p.pool,
            ==_iff c j,
          ))
    | inr bad ↦
        rw (held, bad)
          (λ j. ground (
            arith,
            h j,
            h c,
            times-discard j c p.in_use,
            times_present c p.in_use held,
            ==_iff c j,
          ))
  ]
]

split_idle-times :
    (max_idle now : ℕ) (idle : List (Connection × ℕ)) (closed : List Connection) (j : Connection)
    → times_idle j (split_idle max_idle now idle closed).0
        + times j (split_idle max_idle now idle closed).1
      ≡ times_idle j idle + times j closed
unfolding split_idle
split_idle-times max_idle now [] closed j = refl
split_idle-times max_idle now ((c, t) ∷ idle) closed j =
    ground (arith, split_idle-times max_idle now idle closed j)

cleanup_idle_connections-IsConserved :
    (p : ConnectionPool) (now : ℕ) → IsConserved p → IsConserved (cleanup_idle_connections p now)
unfolding cleanup_idle_connections
cleanup_idle_connections-IsConserved p now h =
    fill-IsConserved (p.min_size - length (split_idle p.max_idle_time now p.pool p.closed).0) now _
      (λ j. ground (arith, h j, split_idle-times p.max_idle_time now p.pool p.closed j))

times-close_all :
    (cs closed : List Connection) (j : Connection)
    → times j (close_all cs closed) ≡ times j cs + times j closed
unfolding close_all
times-close_all [] closed j = omega arith
times-close_all (c ∷ cs) closed j = ground (arith, times-close_all cs (c ∷ closed) j)

times-close_idle :
    (cs : List (Connection × ℕ)) (closed : List Connection) (j : Connection)
    → times j (close_idle cs closed) ≡ times_idle j cs + times j closed
unfolding close_idle
times-close_idle [] closed j = omega arith
times-close_idle ((c, _) ∷ cs) closed j = ground (arith, times-close_idle cs (c ∷ closed) j)

stop-IsConserved : (p : ConnectionPool) → IsConserved p → IsConserved (stop p)
unfolding stop
stop-IsConserved p h j = ground (
  arith,
  h j,
  times-close_all p.in_use (close_idle p.pool p.closed) j,
  times-close_idle p.pool p.closed j,
)

start-IsConserved : (p : ConnectionPool) (now : ℕ) → IsConserved p → IsConserved (start p now)
unfolding start
start-IsConserved p now h = elim (Bool-cases p.running) [
  | inl on ↦ rw on h
  | inr off ↦ rw off (fill-IsConserved p.min_size now (record p { running = true }) h)
]

-- The calls, each with its time; an acquisition is one round of its loop.
pub data Call : Type 0 where
  starts stops cleans : Call
  acquires : HealthCheck → Option ℕ → Call
  releases : Connection → HealthCheck → Call

unfoldable pub call : ConnectionPool → Call × ℕ → ConnectionPool
call p (starts, now) = start p now
call p (stops, now) = stop p
call p (cleans, now) = cleanup_idle_connections p now
call p (acquires check deadline, now) = (acquire p check deadline now).0
call p (releases c check, now) = release p c check now

unfoldable pub run : ConnectionPool → List (Call × ℕ) → ConnectionPool
run p [] = p
run p (c ∷ calls) = run (call p c) calls

pub call-IsConserved : (p : ConnectionPool) (c : Call × ℕ) → IsConserved p → IsConserved (call p c)
unfolding call
call-IsConserved p (starts, now) h = start-IsConserved p now h
call-IsConserved p (stops, now) h = stop-IsConserved p h
call-IsConserved p (cleans, now) h = cleanup_idle_connections-IsConserved p now h
call-IsConserved p (acquires check deadline, now) h = acquire-IsConserved p check deadline now h
call-IsConserved p (releases c check, now) h = release-IsConserved p c check now h

run_from-IsConserved :
    (p : ConnectionPool) (calls : List (Call × ℕ)) → IsConserved p → IsConserved (run p calls)
unfolding run
run_from-IsConserved p [] h = h
run_from-IsConserved p (c ∷ calls) h =
    run_from-IsConserved (call p c) calls (call-IsConserved p c h)

-- After any calls on a new pool, each connection that the factory has made is in exactly one of
-- three places and stands there once: idle, in use, or closed.
pub pool_run-IsConserved :
    (max_size min_size max_idle_time : ℕ) (calls : List (Call × ℕ))
    → IsConserved (run (new max_size min_size max_idle_time) calls)
pool_run-IsConserved max_size min_size max_idle_time calls =
    run_from-IsConserved (new max_size min_size max_idle_time) calls (λ j. ground arith)

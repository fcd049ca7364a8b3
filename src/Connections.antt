-- ===== src/Connections.antt =====
-- `ConnectionPool` of connection_pool.py. A connection is the number of the factory's call that made
-- it: the factory makes a new object each time, and connections are compared by identity. The health
-- check, which may be missing, is given to each call, and so is the time, in ticks. `closed` holds
-- the connections that were closed. Each method holds the lock until it returns or waits.

pub mod Conserved
pub mod Acquire
pub mod Sizes
pub mod Async
mod Tests
use bt_api_base.Prelude.{
  ℕ, zero, suc, ◌+◌, ◌-◌, Bool, true, false, not, Option, none, some, List, [], ◌∷◌, ◌++◌, map, leb,
  ltb, if◌then◌else◌, length, nat_key,
}
use bt_api_base.Prelude.Set

abbrev pub Connection : Type 0
Connection = ℕ

-- `pool` is the deque of idle connections, each with the time of its last use.
pub record ConnectionPool : Type 0 where
  pub max_size : ℕ
  pub min_size : ℕ
  pub max_idle_time : ℕ
  pub pool : List (Connection × ℕ)
  pub in_use : List Connection
  pub running : Bool
  pub made : ℕ
  pub closed : List Connection

abbrev pub new : ℕ → ℕ → ℕ → ConnectionPool
new max_size min_size max_idle_time = record {
  max_size = max_size;
  min_size = min_size;
  max_idle_time = max_idle_time;
  pool = [];
  in_use = [];
  running = false;
  made = 0;
  closed = [];
}

abbrev pub HealthCheck : Type 0
HealthCheck = Option (Connection → Bool)

-- `not (self._health_check and not self._health_check(conn))`
abbrev pub passes : HealthCheck → Connection → Bool
passes none c = true
passes (some check) c = check c

-- `_close_connection`; what `close` raises is swallowed.
abbrev pub close : Connection → ConnectionPool → ConnectionPool
close c p = record p { closed = c ∷ p.closed }

-- `n` new connections at the end of the deque: the loop of `start`, and that of the clean-up, which
-- runs while the deque is shorter than `min_size`.
unfoldable pub fill : ℕ → ℕ → ConnectionPool → ConnectionPool
fill zero now p = p
fill (suc n) now p =
    fill n now (record p { pool = p.pool ++ (p.made, now) ∷ []; made = suc p.made })

unfoldable pub start : ConnectionPool → ℕ → ConnectionPool
unfolding fill
start p now = if p.running then p else fill p.min_size now (record p { running = true })

unfoldable pub close_idle : List (Connection × ℕ) → List Connection → List Connection
close_idle [] closed = closed
close_idle ((c, _) ∷ idle) closed = close_idle idle (c ∷ closed)

unfoldable pub close_all : List Connection → List Connection → List Connection
close_all [] closed = closed
close_all (c ∷ cs) closed = close_all cs (c ∷ closed)

unfoldable pub stop : ConnectionPool → ConnectionPool
unfolding close_idle close_all
stop p = record p {
  running = false;
  pool = [];
  in_use = [];
  closed = close_all p.in_use (close_idle p.pool p.closed);
}

-- How a round of the loop of `acquire` ends: with a connection, with one of the two errors, or
-- waiting, for another round later.
pub data Outcome : Type 0 where
  got : Connection → Outcome
  exhausted timed_out waits : Outcome

abbrev pub no_connection : Option ℕ → ℕ → Outcome
no_connection none now = exhausted
no_connection (some deadline) now = if leb deadline now then timed_out else waits

-- The round once no connection is idle.
abbrev pub take_new : ConnectionPool → Option ℕ → ℕ → ConnectionPool × Outcome
take_new p deadline now =
    if ltb (length p.in_use) p.max_size
    then (record p { in_use = Set.add p.made p.in_use; made = suc p.made }, got p.made)
    else (p, no_connection deadline now)

-- The inner loop, on the idle connections that are left.
unfoldable pub take_idle :
    HealthCheck → List (Connection × ℕ) → ConnectionPool → Option ℕ → ℕ → ConnectionPool × Outcome
take_idle check [] p deadline now = take_new (record p { pool = [] }) deadline now
take_idle check ((c, _) ∷ idle) p deadline now =
    if passes check c
    then (record p { pool = idle; in_use = Set.add c p.in_use }, got c)
    else take_idle check idle (close c p) deadline now

unfoldable pub acquire : ConnectionPool → HealthCheck → Option ℕ → ℕ → ConnectionPool × Outcome
unfolding take_idle
acquire p check deadline now = take_idle check p.pool p deadline now

unfoldable pub release : ConnectionPool → Connection → HealthCheck → ℕ → ConnectionPool
release p c check now =
    let returned : ConnectionPool = record p { in_use = Set.discard c p.in_use } in
    if not (Set.contains p.in_use c)
    then p
    else if passes check c
    then record returned { pool = p.pool ++ (c, now) ∷ [] }
    else close c returned

-- The first loop of `_cleanup_idle_connections`: those that stay, and those closed.
unfoldable pub split_idle :
    ℕ → ℕ → List (Connection × ℕ) → List Connection → List (Connection × ℕ) × List Connection
split_idle max_idle now [] closed = ([], closed)
split_idle max_idle now ((c, last_used) ∷ idle) closed =
    let (kept, closed') = split_idle max_idle now idle closed in
    if ltb max_idle (now - last_used) then (kept, c ∷ closed') else ((c, last_used) ∷ kept, closed')

unfoldable pub cleanup_idle_connections : ConnectionPool → ℕ → ConnectionPool
unfolding split_idle fill
cleanup_idle_connections p now =
    let (kept, closed) = split_idle p.max_idle_time now p.pool p.closed in
    fill (p.min_size - length kept) now (record p { pool = kept; closed = closed })

unfoldable pub size : ConnectionPool → ℕ × ℕ
size p = (length p.pool, length p.in_use)

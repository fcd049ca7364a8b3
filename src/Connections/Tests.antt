-- ===== src/Connections/Tests.antt =====
-- Runs of the connection pool.
use bt_api_base.Prelude.{
  true, false, ℕ, ◌≡◌, ◌+◌, refl, not, none, some, List, [], ◌∷◌, length, arith, ◌==◌, nat_key,
}
use bt_api_base.Connections.Async
use bt_api_base.Connections.{
  ConnectionPool, HealthCheck, new, start, fill, acquire, take_idle, release, size,
}
use bt_api_base.Connections.Conserved.{
  IsConserved, Call, starts, acquires, releases, call, run, pool_run-IsConserved,
}
use bt_api_base.Connections.Acquire.{HandedOut, acquire-HandedOut}
use bt_api_base.Connections.Sizes.{rounds, overcommits}

-- The first connection breaks.
abbrev check : HealthCheck
check = some (λ c. not (c == 0))

abbrev calls : List (Call × ℕ)
calls =
    (starts, 0)
    ∷ (acquires none none, 1)
    ∷ (acquires none none, 2)
    ∷ (releases 0 none, 3)
    ∷ (releases 7 none, 4)
    ∷ []

abbrev shared : ConnectionPool
shared = run (new 2 2 300) calls

sizes : size shared ≡ (1, 1)
unfolding size run call start fill acquire take_idle release
sizes = refl

pool_run-IsConserved_example : IsConserved (run (new 2 2 300) calls)
pool_run-IsConserved_example = pool_run-IsConserved 2 2 300 calls

acquire-HandedOut_example : HandedOut 2 shared (acquire shared check none 5).0
unfolding run call start fill acquire take_idle release
acquire-HandedOut_example = acquire-HandedOut 2 2 300 calls check none 5 2 refl

overcommits_example : length (run (new 1 1 300) ((starts, 0) ∷ rounds 3)).in_use ≡ 3
overcommits_example = overcommits 1 1 300 3 (omega arith)

-- The first call opens a connection, the second one fails.
abbrev async_calls : List Async.Call
async_calls = Async.acquires true ∷ Async.acquires false ∷ Async.releases 0 5 ∷ []

async_permits_example :
    (Async.run (Async.new 3) async_calls).permits
      + length (Async.run (Async.new 3) async_calls).in_use
      + Async.failures (Async.new 3) async_calls
    ≡ 3
async_permits_example = Async.async_permits 3 async_calls

lost_permit : Async.failures (Async.new 3) async_calls ≡ 1
unfolding Async.failures Async.acquire Async.release
lost_permit = refl

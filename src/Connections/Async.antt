-- ===== src/Connections/Async.antt =====
-- `AsyncConnectionPool` of connection_pool.py, with connections named as in the other pool. The event
-- loop may switch at each wait; between taking a permit and holding the lock no state is touched, so
-- that each method is one step. Whether the factory succeeds is given to each call.
use bt_api_base.Prelude.{
  ℕ, suc, ◌+◌, ◌-◌, ◌≡◌, inl, inr, Bool, true, false, List, [], ◌∷◌, ◌++◌, ltb, if◌then◌else◌,
  length, length-append, nat_key, arith, Bool-cases, ◌==◌, ==_iff, ==_self,
}
use bt_api_base.Prelude.Set
use bt_api_base.Connections.{Connection}
use bt_api_base.Connections.Conserved.{
  times, times_idle, times-add, times_absent, times_idle-append, times-discard, times_present,
}

-- `permits` is the semaphore's value.
pub record AsyncConnectionPool : Type 0 where
  pub permits : ℕ
  pub pool : List (Connection × ℕ)
  pub in_use : List Connection
  pub made : ℕ

abbrev pub new : ℕ → AsyncConnectionPool
new max_size = record { permits = max_size; pool = []; in_use = []; made = 0 }

pub data Outcome : Type 0 where
  got : Connection → Outcome
  waits raises : Outcome

-- The body below the lock; a permit has been taken.
abbrev pub take : List (Connection × ℕ) → AsyncConnectionPool → Bool → AsyncConnectionPool × Outcome
take ((c, _) ∷ idle) p succeeds = (record p { pool = idle; in_use = Set.add c p.in_use }, got c)
take [] p true =
    (record p { pool = []; in_use = Set.add p.made p.in_use; made = suc p.made }, got p.made)
take [] p false = (record p { pool = [] }, raises)

unfoldable pub acquire : AsyncConnectionPool → Bool → AsyncConnectionPool × Outcome
acquire p succeeds =
    if p.permits == 0
    then (p, waits)
    else take p.pool (record p { permits = p.permits - 1 }) succeeds

unfoldable pub release : AsyncConnectionPool → Connection → ℕ → AsyncConnectionPool
release p c now =
    if Set.contains p.in_use c
    then record p {
      in_use = Set.discard c p.in_use;
      pool = p.pool ++ (c, now) ∷ [];
      permits = suc p.permits;
    }
    else p

pub data Call : Type 0 where
  acquires : Bool → Call
  releases : Connection → ℕ → Call

unfoldable pub call : AsyncConnectionPool → Call → AsyncConnectionPool
call p (acquires succeeds) = (acquire p succeeds).0
call p (releases c now) = release p c now

unfoldable pub run : AsyncConnectionPool → List Call → AsyncConnectionPool
run p [] = p
run p (c ∷ calls) = run (call p c) calls

-- The permit of a call is lost where the factory raises.
abbrev pub loses : Outcome → ℕ
loses (got c) = 0
loses waits = 0
loses raises = 1

-- How many calls the factory made fail.
unfoldable pub failures : AsyncConnectionPool → List Call → ℕ
failures p [] = 0
failures p (acquires succeeds ∷ calls) =
    loses (acquire p succeeds).1 + failures (acquire p succeeds).0 calls
failures p (releases c now ∷ calls) = failures (release p c now) calls

length-discard :
    (c : Connection) (cs : List Connection) → length (Set.discard c cs) + times c cs ≡ length cs
length-discard c [] = omega arith
length-discard c (d ∷ cs) = ground (arith, length-discard c cs)

-- Each connection that was made is idle or in use, once; `lost` permits are gone.
abbrev pub IsValid : ℕ → ℕ → AsyncConnectionPool → Type 0
IsValid max_size lost p =
    (p.permits + length p.in_use + lost ≡ max_size)
    × ((j : Connection) → times_idle j p.pool + times j p.in_use ≡ (if ltb j p.made then 1 else 0))

length-add :
    (c : Connection) (cs : List Connection)
    → times c cs ≡ 0
    → length (Set.add c cs) ≡ suc (length cs)
length-add c cs h = ground (arith, times_absent c cs h, length-append cs (c ∷ []))

take-IsValid :
    (max_size lost : ℕ) (idle : List (Connection × ℕ)) (p : AsyncConnectionPool) (succeeds : Bool)
    → IsValid max_size (suc lost) (record p { pool = idle })
    → IsValid max_size (lost + loses (take idle p succeeds).1) (take idle p succeeds).0
take-IsValid max_size lost ((c, t) ∷ idle) p succeeds (n, h) = (
  ground (arith, n, h c, length-add c p.in_use, ==_self c),
  λ j. ground (arith, h j, h c, times-add j c p.in_use, ==_self c, ==_iff c j),
)
take-IsValid max_size lost [] p true (n, h) = (
  ground (arith, n, h p.made, length-add p.made p.in_use),
  λ j. ground (arith, h j, h p.made, times-add j p.made p.in_use, ==_iff p.made j),
)
take-IsValid max_size lost [] p false (n, h) = (omega (arith, n), h)

acquire-IsValid :
    (max_size lost : ℕ) (p : AsyncConnectionPool) (succeeds : Bool)
    → IsValid max_size lost p
    → IsValid max_size (lost + loses (acquire p succeeds).1) (acquire p succeeds).0
unfolding acquire
acquire-IsValid max_size lost p succeeds (n, h) = elim (Bool-cases (p.permits == 0)) [
  | inl none_left ↦ rw none_left (omega (arith, n), h)
  | inr some_left ↦ rw some_left (
      take-IsValid max_size lost p.pool (record p { permits = p.permits - 1 }) succeeds
        (ground (arith, n, some_left), h))
]

release-IsValid :
    (max_size lost : ℕ) (p : AsyncConnectionPool) (c : Connection) (now : ℕ)
    → IsValid max_size lost p
    → IsValid max_size lost (release p c now)
unfolding release
release-IsValid max_size lost p c now (n, h) = elim (Bool-cases (Set.contains p.in_use c)) [
  | inl held ↦ rw held (
    ground (arith, n, h c, times_present c p.in_use held, length-discard c p.in_use),
    λ j. ground (
      arith,
      h j,
      h c,
      times-discard j c p.in_use,
      times_present c p.in_use held,
      times_idle-append j c now p.pool,
      ==_iff c j,
    ),
  )
  | inr unknown ↦ rw unknown (n, h)
]

run_from-IsValid :
    (max_size lost : ℕ) (p : AsyncConnectionPool) (calls : List Call)
    → IsValid max_size lost p
    → IsValid max_size (lost + failures p calls) (run p calls)
unfolding run call failures
run_from-IsValid max_size lost p [] (n, h) = (omega (arith, n), h)
run_from-IsValid max_size lost p (acquires succeeds ∷ calls) v =
    let rest =
      run_from-IsValid max_size (lost + loses (acquire p succeeds).1) (acquire p succeeds).0 calls
        (acquire-IsValid max_size lost p succeeds v) in
    (omega (arith, rest.0), rest.1)
run_from-IsValid max_size lost p (releases c now ∷ calls) v =
    run_from-IsValid max_size lost (release p c now) calls (release-IsValid max_size lost p c now v)

-- After any calls on a new pool, the permits that are left, the connections in use and the calls that
-- the factory made fail add up to the maximum size: no more are ever in use, and each failure takes
-- a permit for good.
pub async_permits :
    (max_size : ℕ) (calls : List Call)
    → (run (new max_size) calls).permits
        + length (run (new max_size) calls).in_use
        + failures (new max_size) calls
      ≡ max_size
async_permits max_size calls =
    let valid = run_from-IsValid max_size 0 (new max_size) calls (omega arith, λ j. ground arith) in
    omega (arith, valid.0)

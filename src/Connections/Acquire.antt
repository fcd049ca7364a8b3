-- ===== src/Connections/Acquire.antt =====
-- What `acquire` of a `ConnectionPool` hands out.
use bt_api_base.Prelude.{
  ℕ, ◌≡◌, ◌≢◌, ap, inl, inr, Option, none, some, List, [], ◌∷◌, leb, ltb, length, nat_key, arith,
  Bool-cases, ==_iff, ==_self,
}
use bt_api_base.Prelude.Set
use bt_api_base.Connections.{
  Connection, ConnectionPool, HealthCheck, new, passes, close, got, exhausted, timed_out, waits,
  no_connection, take_new, take_idle, acquire,
}
use bt_api_base.Connections.Conserved.{
  times, IsConserved, times-add, Call, run, pool_run-IsConserved,
}

same_connection : (c d : Connection) → got c ≡ got d → c ≡ d
same_connection c d h = ap (λ o. elim o [ got c ↦ c | exhausted ↦ 0 | timed_out ↦ 0 | waits ↦ 0 ]) h

no_connection_got :
    (deadline : Option ℕ) (now : ℕ) (c : Connection) → no_connection deadline now ≢ got c
no_connection_got none now c h = cc
no_connection_got (some deadline) now c h = elim (Bool-cases (leb deadline now)) [
  | inl late ↦ absurd (timed (rw late at h))
  | inr early ↦ absurd (waiting (rw early at h))
]
  where
    timed : timed_out ≡ got c → ⊥
    timed e = cc

    waiting : waits ≡ got c → ⊥
    waiting e = cc

-- Handed out: free until now, and in use from now on, once.
abbrev pub HandedOut : Connection → ConnectionPool → ConnectionPool → Type 0
HandedOut c p p' = (times c p.in_use ≡ 0) × (times c p.closed ≡ 0) × (times c p'.in_use ≡ 1)

take_new-HandedOut :
    (p : ConnectionPool) (deadline : Option ℕ) (now : ℕ) (c : Connection)
    → IsConserved p
    → (take_new p deadline now).1 ≡ got c
    → HandedOut c p (take_new p deadline now).0
take_new-HandedOut p deadline now c h e = elim (Bool-cases (ltb (length p.in_use) p.max_size)) [
  | inl room ↦ rw room (new_one (same_connection p.made c (rw room at e)))
  | inr full ↦ absurd (no_connection_got deadline now c (rw full at e))
]
  where
    new_one :
        p.made ≡ c
        → (times c p.in_use ≡ 0) × (times c p.closed ≡ 0) × (times c (Set.add p.made p.in_use) ≡ 1)
    new_one same =
        ground (arith, same, h p.made, h c, times-add c p.made p.in_use, ==_self c, ==_iff p.made c)

take_idle-HandedOut :
    (check : HealthCheck) (idle : List (Connection × ℕ)) (p : ConnectionPool) (deadline : Option ℕ)
    (now : ℕ) (c : Connection)
    → IsConserved (record p { pool = idle })
    → (take_idle check idle p deadline now).1 ≡ got c
    → HandedOut c p (take_idle check idle p deadline now).0
unfolding take_idle
take_idle-HandedOut check [] p deadline now c h e =
    take_new-HandedOut (record p { pool = [] }) deadline now c h e
take_idle-HandedOut check ((d, t) ∷ idle) p deadline now c h e =
    elim (Bool-cases (passes check d)) [
      | inl good ↦ rw good (reused (same_connection d c (rw good at e)))
      | inr bad ↦
          let rest =
            take_idle-HandedOut check idle (close d p) deadline now c (λ j. ground (arith, h j))
              (rw bad at e) in
          rw bad (rest.0, ground (arith, rest.1), rest.2)
    ]
  where
    reused :
        d ≡ c → (times c p.in_use ≡ 0) × (times c p.closed ≡ 0) × (times c (Set.add d p.in_use) ≡ 1)
    reused same = ground (arith, same, h d, h c, times-add c d p.in_use, ==_self c, ==_iff d c)

-- After any calls on a new pool, a connection that `acquire` gives was neither in use nor ever
-- closed, and is in use once afterwards: no two holders share it.
pub acquire-HandedOut :
    (max_size min_size max_idle_time : ℕ) (calls : List (Call × ℕ)) (check : HealthCheck)
    (deadline : Option ℕ) (now : ℕ) (c : Connection)
    → let p : ConnectionPool = run (new max_size min_size max_idle_time) calls in
      (acquire p check deadline now).1 ≡ got c → HandedOut c p (acquire p check deadline now).0
unfolding acquire
acquire-HandedOut max_size min_size max_idle_time calls check deadline now c e =
    let p : ConnectionPool = run (new max_size min_size max_idle_time) calls in
    take_idle-HandedOut check p.pool p deadline now c
      (pool_run-IsConserved max_size min_size max_idle_time calls) e

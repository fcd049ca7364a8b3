-- ===== src/Core/RateLimit/Bound.antt =====
-- How many acquisitions an `AsyncRateLimiter` lets through in a window.
use bt_api_base.Prelude.{
  ℕ, suc, ◌+◌, ◌-◌, ◌≤◌, ◌<◌, ◌≡◌, refl, inl, inr, true, ◌&&◌, List, [], ◌∷◌, ◌++◌, ltb, leb,
  if◌then◌else◌, length, length-append, arith, Bool-cases, All, ◌∙◌,
}
use bt_api_base.Core.RateLimit.{AsyncRateLimiter, new, live, sleep_time, acquire}

-- How many of the times are `a` or later, and how many of them are before `b` too.
unfoldable pub since : ℕ → List ℕ → ℕ
since a [] = 0
since a (t ∷ ts) = (if leb a t then 1 else 0) + since a ts

unfoldable pub within : ℕ → ℕ → List ℕ → ℕ
within a b [] = 0
within a b (t ∷ ts) = (if leb a t && ltb t b then 1 else 0) + within a b ts

since-append :
    (a t : ℕ) (ts : List ℕ) → since a (ts ++ t ∷ []) ≡ since a ts + (if leb a t then 1 else 0)
unfolding since
since-append a t [] = ground arith
since-append a t (s ∷ ts) = ground (arith, since-append a t ts)

within-append :
    (a b t : ℕ) (ts : List ℕ)
    → within a b (ts ++ t ∷ []) ≡ within a b ts + (if leb a t && ltb t b then 1 else 0)
unfolding within
within-append a b t [] = ground arith
within-append a b t (s ∷ ts) = ground (arith, within-append a b t ts)

within-le-since : (a b : ℕ) (ts : List ℕ) → within a b ts ≤ since a ts
unfolding within since
within-le-since a b [] = omega arith
within-le-since a b (t ∷ ts) = ground (arith, within-le-since a b ts)

since-le-length : (a : ℕ) (ts : List ℕ) → since a ts ≤ length ts
unfolding since
since-le-length a [] = omega arith
since-le-length a (t ∷ ts) = ground (arith, since-le-length a ts)

-- Nothing that is younger than the window is dropped.
since-live :
    (a w now : ℕ) (ts : List ℕ)
    → now < a + w
    → All (λ t. t ≤ now) ts
    → since a (live w now ts) ≡ since a ts
unfolding since
since-live a w now [] h before = refl
since-live a w now (t ∷ ts) h before = ground (arith, before.0, since-live a w now ts h before.1)

length-live : (w now : ℕ) (ts : List ℕ) → length (live w now ts) ≤ length ts
length-live w now [] = omega arith
length-live w now (t ∷ ts) = ground (arith, length-live w now ts)

live-All : (w now b : ℕ) (ts : List ℕ) → All (λ t. t ≤ b) ts → All (λ t. t ≤ b) (live w now ts)
live-All w now b [] h = tt
live-All w now b (t ∷ ts) h = ground (arith, live-All w now b ts h.1)

later-All : (b c : ℕ) (ts : List ℕ) → b ≤ c → All (λ t. t ≤ b) ts → All (λ t. t ≤ c) ts
later-All b c [] le h = tt
later-All b c (t ∷ ts) le h = (omega (arith, le, h.0), later-All b c ts le h.1)

append-All : (b t : ℕ) (ts : List ℕ) → t ≤ b → All (λ t. t ≤ b) ts → All (λ t. t ≤ b) (ts ++ t ∷ [])
append-All b t [] le h = (le, tt)
append-All b t (s ∷ ts) le h = (h.0, append-All b t ts le h.1)

-- After the sleep the oldest request is dropped.
length-live_woke :
    (w now woke : ℕ) (ts : List ℕ)
    → All (λ t. t ≤ now) ts
    → 0 < length ts
    → now + sleep_time w now ts ≤ woke
    → suc (length (live w woke ts)) ≤ length ts
length-live_woke w now woke [] h some_there slept = ground arith
length-live_woke w now woke (t ∷ ts) h some_there slept = ground (arith, h.0, length-live w woke ts)

-- A request that stays is younger than the window, so that there is something to sleep for.
sleep_live :
    (w now : ℕ) (ts : List ℕ) → 0 < length (live w now ts) → 0 < sleep_time w now (live w now ts)
sleep_live w now [] h = ground arith
sleep_live w now (t ∷ ts) h = elim (Bool-cases (ltb (now - t) w)) [
  | inl young ↦ rw young (ground (arith, young))
  | inr old ↦ rw old (sleep_live w now ts (rw old at h))
]

record Limited (before : ℕ) (l : AsyncRateLimiter) (log : List ℕ) : Type 0 where
  all_before : All (λ t. t ≤ before) l.requests
  covered : (a : ℕ) → before < a + l.time_window → since a log ≤ since a l.requests
  in_window : (a : ℕ) → within a (a + l.time_window) log ≤ l.max_requests
  in_limit : length l.requests ≤ l.max_requests

-- One more request, at `t`, on the requests that `kept` has left of those that cover the log.
grant-Limited :
    (before t : ℕ) (l : AsyncRateLimiter) (log kept : List ℕ)
    → before ≤ t
    → Limited before l log
    → All (λ s. s ≤ t) kept
    → ((a : ℕ) → t < a + l.time_window → since a kept ≡ since a l.requests)
    → suc (length kept) ≤ l.max_requests
    → Limited t (record l { requests = kept ++ t ∷ [] }) (log ++ t ∷ [])
grant-Limited before t l log kept le h all same room = record {
  all_before = append-All t t kept (omega arith) all;
  covered =
      λ a near. ground (arith, same a, h.covered a, since-append a t log, since-append a t kept);
  in_window = λ a. ground (
    arith,
    same a,
    h.covered a,
    h.in_window a,
    within-append a (a + l.time_window) t log,
    within-le-since a (a + l.time_window) log,
    since-le-length a kept,
  );
  in_limit = omega (arith, length-append kept (t ∷ []), room);
}

-- When an acquisition that begins at `now` may go on.
abbrev pub due : AsyncRateLimiter → ℕ → ℕ
due l now =
    let kept = live l.time_window now l.requests in
    if leb l.max_requests (length kept) then now + sleep_time l.time_window now kept else now

-- The clock never goes back, and no sleep is shorter than asked for.
abbrev pub IsTimely : ℕ → AsyncRateLimiter → List (ℕ × ℕ) → Type 0
IsTimely before l [] = Unit
IsTimely before l ((now, woke) ∷ calls) =
    (before ≤ now)
    × (due l now ≤ woke)
    × IsTimely (acquire l now woke).1 (acquire l now woke).0 calls

-- The times of the acquisitions that a run lets through, after those of the log.
unfoldable pub acquire_all : List (ℕ × ℕ) → AsyncRateLimiter × List ℕ → AsyncRateLimiter × List ℕ
acquire_all [] acc = acc
acquire_all ((now, woke) ∷ calls) (l, log) =
    acquire_all calls ((acquire l now woke).0, log ++ (acquire l now woke).1 ∷ [])

acquire-Limited :
    (before now woke : ℕ) (l : AsyncRateLimiter) (log : List ℕ)
    → 0 < l.max_requests
    → before ≤ now
    → due l now ≤ woke
    → Limited before l log
    → Limited (acquire l now woke).1 (acquire l now woke).0 (log ++ (acquire l now woke).1 ∷ [])
      × ((acquire l now woke).0.max_requests ≡ l.max_requests)
      × ((acquire l now woke).0.time_window ≡ l.time_window)
unfolding acquire
acquire-Limited before now woke l log positive le slept h =
    elim (Bool-cases (leb l.max_requests (length kept))) [
      | inr room ↦ rw room (
        grant-Limited before now l log kept le h kept_before (λ a near. same a near)
            (ground (arith, room)),
        refl,
        refl,
      )
      | inl full ↦ elim (Bool-cases (ltb 0 (sleep_time l.time_window now kept))) [
        | inl sleeps ↦
            rw (full, sleeps)
              (
                grant-Limited before woke l log (live l.time_window woke kept)
                    (omega (arith, le, woken full)) h
                    (live-All l.time_window woke woke kept
                      (later-All now woke kept (omega (arith, woken full)) kept_before))
                    (λ a near.
                      since-live a l.time_window woke kept near
                        (later-All now woke kept (omega (arith, woken full)) kept_before)
                      ∙ same a (omega (arith, near, woken full)))
                    (omega
                      (arith, dropped full, length-live l.time_window now l.requests, h.in_limit)),
                refl,
                refl,
              )
        | inr awake ↦ absurd (
            ground (
              arith,
              awake,
              sleep_live l.time_window now l.requests (ground (arith, full, positive)),
            ))
      ]
    ]
  where
    kept : List ℕ
    kept = live l.time_window now l.requests

    kept_before : All (λ t. t ≤ now) kept
    kept_before =
        live-All l.time_window now now l.requests (later-All before now l.requests le h.all_before)

    same : (a : ℕ) → now < a + l.time_window → since a kept ≡ since a l.requests
    same a near =
        since-live a l.time_window now l.requests near
          (later-All before now l.requests le h.all_before)

    woken : leb l.max_requests (length kept) ≡ true → now + sleep_time l.time_window now kept ≤ woke
    woken full = rw full at slept

    dropped :
        leb l.max_requests (length kept) ≡ true
        → suc (length (live l.time_window woke kept)) ≤ length kept
    dropped full =
        length-live_woke l.time_window now woke kept kept_before (ground (arith, full, positive))
          (woken full)

acquire_all-Limited :
    (before max_requests w : ℕ) (calls : List (ℕ × ℕ)) (l : AsyncRateLimiter) (log : List ℕ)
    → 0 < max_requests
    → l.max_requests ≡ max_requests
    → l.time_window ≡ w
    → IsTimely before l calls
    → Limited before l log
    → (a : ℕ) → within a (a + w) (acquire_all calls (l, log)).1 ≤ max_requests
unfolding acquire_all
acquire_all-Limited before max_requests w [] l log positive m e ts h a =
    rw (← m, ← e) (h.in_window a)
acquire_all-Limited before max_requests w ((now, woke) ∷ calls) l log positive m e (le, slept, ts) h
      a =
    let (h', m', e') = acquire-Limited before now woke l log (rw m positive) le slept h in
    acquire_all-Limited (acquire l now woke).1 max_requests w calls (acquire l now woke).0
      (log ++ (acquire l now woke).1 ∷ []) positive (m' ∙ m) (e' ∙ e) ts h' a

-- Where the clock never goes back and no sleep is shorter than asked for, the acquisitions that a new
-- limiter lets through in any stretch of time of its window's length, the end not included, are at
-- most its maximum, which is not zero.
pub async_limit :
    (max_requests time_window : ℕ) (calls : List (ℕ × ℕ)) (a : ℕ)
    → 0 < max_requests
    → IsTimely 0 (new max_requests time_window) calls
    → within a (a + time_window) (acquire_all calls (new max_requests time_window, [])).1
      ≤ max_requests
unfolding since within
async_limit max_requests time_window calls a positive ts =
    acquire_all-Limited 0 max_requests time_window calls (new max_requests time_window) [] positive
      refl refl ts
      (record {
        all_before = tt;
        covered = λ b h. omega arith;
        in_window = λ b. omega arith;
        in_limit = omega arith;
      })
      a

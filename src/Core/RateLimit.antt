-- ===== src/Core/RateLimit.antt =====
-- `AsyncRateLimiter` of core/async_context.py and `RateLimitService` of core/services.py. An acquisition
-- holds the limiter's lock while it sleeps, so that it is one step, with the time at which it begins
-- and the time at which it goes on after a sleep.

pub mod Bound
use bt_api_base.Prelude.{
  ℕ, zero, suc, ◌+◌, ◌-◌, ◌≤◌, ◌<◌, ◌≡◌, refl, String, Bool, true, false, Option, none, some, List,
  [], ◌∷◌, ◌++◌, ltb, leb, if◌then◌else◌, length, select, arith, string_key, ◌==◌, nat_key,
}
use bt_api_base.Prelude.Dict.{Dict, lookup, insert, erase, lookup-insert, lookup-erase}

pub record AsyncRateLimiter : Type 0 where
  pub max_requests : ℕ
  pub time_window : ℕ
  pub requests : List ℕ

abbrev pub new : ℕ → ℕ → AsyncRateLimiter
new max_requests time_window = record {
  max_requests = max_requests;
  time_window = time_window;
  requests = [];
}

-- `[t for t in requests if now - t < time_window]`; a request of the future stays.
abbrev pub live : ℕ → ℕ → List ℕ → List ℕ
live time_window now requests = select (λ req_time. ltb (now - req_time) time_window) requests

-- `time_window - (now - requests[0])`; with a positive maximum the source reads it of a request.
abbrev pub sleep_time : ℕ → ℕ → List ℕ → ℕ
sleep_time time_window now [] = 0
sleep_time time_window now (first ∷ _) = time_window - (now - first)

-- `woke` is read from the clock after the sleep. The result has the time that was logged.
unfoldable pub acquire : AsyncRateLimiter → (now woke : ℕ) → AsyncRateLimiter × ℕ
acquire l now woke =
    let requests = live l.time_window now l.requests in
    let again = live l.time_window woke requests in
    if leb l.max_requests (length requests)
    then (if ltb 0 (sleep_time l.time_window now requests)
        then (record l { requests = again ++ woke ∷ [] }, woke)
        else (record l { requests = requests ++ now ∷ [] }, now))
    else (record l { requests = requests ++ now ∷ [] }, now)

pub record RateLimitService : Type 0 where
  pub limiters : Dict String AsyncRateLimiter
  pub limits : Dict String (ℕ × ℕ)

abbrev pub empty : RateLimitService
empty = record { limiters = []; limits = [] }

unfoldable pub configure_limit :
    RateLimitService → String → (max_requests time_window : ℕ) → RateLimitService
configure_limit s resource max_requests time_window = record {
  limits = insert resource (max_requests, time_window) s.limits;
  limiters = erase resource s.limiters;
}

-- The limiter that a resource has or is given: the configured one, or ten requests a second. `second`
-- is one second in ticks.
abbrev pub made_for : ℕ → Option (ℕ × ℕ) → AsyncRateLimiter
made_for second none = new 10 second
made_for second (some (max_requests, time_window)) = new max_requests time_window

abbrev pub limiter_for : ℕ → RateLimitService → String → AsyncRateLimiter
limiter_for second s resource = elim (lookup resource s.limiters) [
  | none ↦ made_for second (lookup resource s.limits)
  | some l ↦ l
]

-- One acquisition for each token, at the given times.
unfoldable pub acquire_tokens : AsyncRateLimiter → List (ℕ × ℕ) → AsyncRateLimiter
acquire_tokens l [] = l
acquire_tokens l ((now, woke) ∷ times) = acquire_tokens (acquire l now woke).0 times

-- `none` is the `ValueError` for no tokens; there is a pair of times for each token.
unfoldable pub acquire_resource :
    ℕ → RateLimitService → String → List (ℕ × ℕ) → Option RateLimitService
unfolding acquire_tokens
acquire_resource second s resource [] = none
acquire_resource second s resource (t ∷ times) =
    let l = acquire_tokens (limiter_for second s resource) (t ∷ times) in
    some (record s { limiters = insert resource l s.limiters })

abbrev pub pruned_at : ℕ → AsyncRateLimiter → AsyncRateLimiter
pruned_at now l = record l { requests = live l.time_window now l.requests }

abbrev pub limit_of : Option (ℕ × ℕ) → ℕ
limit_of none = 0
limit_of (some (max_requests, time_window)) = max_requests

unfoldable pub get_remaining_tokens : RateLimitService → String → ℕ → RateLimitService × ℕ
get_remaining_tokens s resource now = elim (lookup resource s.limiters) [
  | none ↦ (s, limit_of (lookup resource s.limits))
  | some l ↦ (
    record s { limiters = insert resource (pruned_at now l) s.limiters },
    l.max_requests - length (pruned_at now l).requests,
  )
]

abbrev pub reset_of : ℕ → List ℕ → Option ℕ
reset_of time_window [] = none
reset_of time_window (first ∷ _) = some (first + time_window)

unfoldable pub get_reset_time : RateLimitService → String → ℕ → RateLimitService × Option ℕ
get_reset_time s resource now = elim (lookup resource s.limiters) [
  | none ↦ (s, none)
  | some l ↦ (
    record s { limiters = insert resource (pruned_at now l) s.limiters },
    reset_of l.time_window (pruned_at now l).requests,
  )
]

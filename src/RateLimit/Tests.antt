-- ===== src/RateLimit/Tests.antt =====
-- Runs of the limiters.
use bt_api_base.Prelude.{
  ℕ, ◌+◌, ◌*◌, ◌≤◌, String, ◌≡◌, ◌≢◌, refl, Bool, true, false, none, some, List, [], ◌∷◌, arith,
  if◌then◌else◌,
}
use bt_api_base.RateLimit.Sliding
use bt_api_base.RateLimit.Sliding.{SlidingWindow, Request, prune, total}
use bt_api_base.RateLimit.Sliding.Window.{between, sliding_window_bound}
use bt_api_base.RateLimit.Sliding.Window as SlidingWindowRuns
use bt_api_base.RateLimit.Fixed
use bt_api_base.RateLimit.Fixed.Window.{in_window, fixed_window_bound, fixed_window_burst}
use bt_api_base.RateLimit.Fixed.Window as FixedWindowRuns
use bt_api_base.RateLimit.Limiter.{
  RateLimitRule, sliding_window, fixed_window, global, endpoint, RateLimiter, init, acquire,
  acquire_rules, acquire_one, get_matched_rules, match, demands,
}
use bt_api_base.RateLimit.Limiter.Atomic.{Charged}
use bt_api_base.RateLimit.Limiter.Acquire.{acquire_atomic, call_takings, IsReading, reads_of}
use bt_api_base.RateLimit.Limiter.Limits.{Call}
use bt_api_base.RateLimit.Limiter.Wait.{
  World, waited, wait_and_acquire, wait_atomic, wait_returns, IsRoundReading,
}

-- Four requests, the third of which the sliding window refuses.
abbrev calls : List Request
calls = (1, 3) ∷ (5, 2) ∷ (9, 1) ∷ (12, 3) ∷ []

sliding_run :
    (SlidingWindowRuns.acquire_all calls (Sliding.new 10 5, [])).1 ≡ (1, 3) ∷ (5, 2) ∷ (12, 3) ∷ []
unfolding SlidingWindowRuns.acquire_all Sliding.acquire prune
sliding_run = refl

sliding_window_bound_example :
    between 2 (2 + 10) (SlidingWindowRuns.acquire_all calls (Sliding.new 10 5, [])).1 ≤ 5
sliding_window_bound_example = sliding_window_bound 10 5 calls 2 (omega arith)

abbrev half_full : SlidingWindow
half_full = record { interval = 10; limit = 5; requests = (1, 3) ∷ (5, 2) ∷ [] }

abbrev burst : List Request
burst = (9, 5) ∷ (10, 5) ∷ (11, 1) ∷ []

-- Two requests around a boundary reach twice the limit.
fixed_run : (FixedWindowRuns.acquire_all burst (Fixed.new 10 5, [])).1 ≡ (9, 5) ∷ (10, 5) ∷ []
unfolding FixedWindowRuns.acquire_all Fixed.acquire Fixed.roll Fixed.try_charge
fixed_run = refl

fixed_window_bound_example :
    in_window 10 1 (FixedWindowRuns.acquire_all burst (Fixed.new 10 5, [])).1 ≤ 5
fixed_window_bound_example = fixed_window_bound 10 5 1 burst (omega arith) (omega arith)

abbrev order_rule : RateLimitRule
order_rule = record {
  name = "order";
  type = fixed_window;
  interval = 1;
  limit = 10;
  scope = endpoint;
  endpoint = some "/order*";
  weight_map = some (("POST", 10) ∷ ("GET", 1) ∷ []);
  weight = 1;
}

abbrev global_rule : RateLimitRule
global_rule = record {
  name = "global";
  type = sliding_window;
  interval = 60;
  limit = 1200;
  scope = global;
  endpoint = none;
  weight_map = none;
  weight = 1;
}

abbrev glob : String → String → Bool
glob path pattern_text = true

abbrev clock : ℕ → ℕ
clock n = 100 + n

abbrev fresh : RateLimiter
fresh = init (global_rule ∷ order_rule ∷ [])

abbrev used : RateLimiter
used = (acquire clock glob fresh "POST" "/order" 1).0

granted_then_refused :
    ((acquire (λ n. 100) glob fresh "POST" "/order" 1).1 ≡ true)
    × ((acquire
          (λ n. 100)
          glob
          (acquire (λ n. 100) glob fresh "POST" "/order" 1).0
          "POST"
          "/order"
          1).1
        ≡ false)
unfolding acquire acquire_rules acquire_one init get_matched_rules match demands Sliding.acquire
    prune Fixed.acquire Fixed.roll Fixed.try_charge
granted_then_refused = (refl, refl)

acquire_atomic_example :
    let (l, granted) = acquire clock glob used "POST" "/order" 1 in
    Charged
      (IsReading clock (reads_of glob used "/order"))
      used.limiters
      (if granted then call_takings glob used "POST" "/order" 1 else [])
      l.limiters
    × (l.rules ≡ used.rules)
acquire_atomic_example = acquire_atomic clock glob used "POST" "/order" 1

abbrev posts : List Call
posts =
    record { clock = clock; method = "POST"; path = "/order"; weight = 1 }
    ∷ record { clock = clock; method = "POST"; path = "/order"; weight = 1 }
    ∷ []

-- One round takes a second of ten ticks.
abbrev world : World
world = record {
  readings = λ i n. 100 + i;
  waits = λ i n. 100 + i;
  start = 100;
  monotonic = λ i. 110 + 10 * i;
  short = 1;
}

wait_atomic_example :
    let (l, result) = wait_and_acquire world glob "POST" "/order" 1 3 0 (some 25) used in
    Charged
      (IsRoundReading world glob "POST" "/order" 1 (reads_of glob used "/order") 0 3)
      used.limiters
      (waited result (call_takings glob used "POST" "/order" 1))
      l.limiters
wait_atomic_example = wait_atomic world glob "POST" "/order" 1 3 0 (some 25) used

wait_returns_example : (wait_and_acquire world glob "POST" "/order" 1 3 0 (some 25) used).1 ≢ none
wait_returns_example = wait_returns world glob "POST" "/order" 1 2 0 25 used (omega arith)

-- ===== src/RateLimit/Sliding.antt =====
-- `SlidingWindowLimiter`.
pub mod Window
pub mod Exact
use bt_api_base.Prelude.{
  ℕ, ◌+◌, ◌-◌, Bool, true, false, List, [], ◌∷◌, ◌++◌, ltb, leb, ◌==◌, nat_key, if◌then◌else◌,
}

-- A request that was let through: its time and its weight.
abbrev pub Request : Type 0
Request = ℕ × ℕ

-- The deque, oldest request first.
pub record SlidingWindow : Type 0 where
  pub interval : ℕ
  pub limit : ℕ
  pub requests : List Request

abbrev pub new : ℕ → ℕ → SlidingWindow
new interval limit = record { interval = interval; limit = limit; requests = [] }

-- The loop of `_prune_expired_locked`.
unfoldable pub prune : ℕ → ℕ → List Request → List Request
prune interval now [] = []
prune interval now ((t, w) ∷ rest) =
    let pruned = prune interval now rest in if ltb (t + interval) now then pruned else (t, w) ∷ rest

-- `sum(w for _, w in self._requests)`
abbrev pub total : List Request → ℕ
total [] = 0
total ((_, w) ∷ rest) = w + total rest

unfoldable pub acquire : SlidingWindow → ℕ → ℕ → SlidingWindow × Bool
acquire l now weight =
    let live = prune l.interval now l.requests in
    if leb (total live + weight) l.limit
    then (record l { requests = live ++ (now, weight) ∷ [] }, true)
    else (record l { requests = live }, false)

-- The last request goes, if it has this weight.
unfoldable pub pop_if : ℕ → List Request → List Request
pop_if weight [] = []
pop_if weight ((t, w) ∷ []) = if w == weight then [] else (t, w) ∷ []
pop_if weight (a ∷ b ∷ rest) = a ∷ pop_if weight (b ∷ rest)

unfoldable pub release : SlidingWindow → ℕ → ℕ → SlidingWindow
unfolding pop_if
release l now weight = record l { requests = pop_if weight (prune l.interval now l.requests) }

-- `max(0.0, oldest + interval - now)`: the subtraction of natural numbers stops at zero.
unfoldable pub wait_time : SlidingWindow → ℕ → ℕ
wait_time l now = elim l.requests [ [] ↦ 0 | oldest ∷ _ ↦ oldest.0 + l.interval - now ]

-- Reading the usage prunes too.
unfoldable pub current_usage : SlidingWindow → ℕ → SlidingWindow × ℕ
current_usage l now =
    let live = prune l.interval now l.requests in (record l { requests = live }, total live)

-- ===== src/RateLimit/Fixed.antt =====
-- `FixedWindowLimiter`. The interval is positive: with zero the source divides by zero and raises.
pub mod Window
use bt_api_base.Prelude.{
  ℕ, ◌+◌, ◌-◌, ◌*◌, ◌/◌, Bool, true, false, leb, ◌==◌, nat_key, if◌then◌else◌,
}

pub record FixedWindow : Type 0 where
  pub interval : ℕ
  pub limit : ℕ
  pub window_start : ℕ
  pub window_count : ℕ

abbrev pub new : ℕ → ℕ → FixedWindow
new interval limit = record {
  interval = interval;
  limit = limit;
  window_start = 0;
  window_count = 0;
}

-- `int(now // self.interval) * self.interval`
abbrev pub start_of : ℕ → ℕ → ℕ
start_of interval now = now / interval * interval

-- In a new window the count starts again.
unfoldable pub roll : FixedWindow → ℕ → FixedWindow
roll l now =
    let start = start_of l.interval now in
    if start == l.window_start then l else record l { window_start = start; window_count = 0 }

unfoldable pub try_charge : FixedWindow → ℕ → FixedWindow × Bool
try_charge l weight =
    if leb (l.window_count + weight) l.limit
    then (record l { window_count = l.window_count + weight }, true)
    else (l, false)

unfoldable pub acquire : FixedWindow → ℕ → ℕ → FixedWindow × Bool
acquire l now weight = try_charge (roll l now) weight

-- `max(0, count - weight)`: the subtraction of natural numbers stops at zero.
unfoldable pub release : FixedWindow → ℕ → FixedWindow
release l weight = record l { window_count = l.window_count - weight }

unfoldable pub wait_time : FixedWindow → ℕ → ℕ
wait_time l now = l.window_start + l.interval - now

unfoldable pub current_usage : FixedWindow → ℕ
current_usage l = l.window_count

-- ===== src/RateLimit.antt =====
-- rate_limiter.py. Times, intervals, limits and weights are natural numbers: time counts ticks of a
-- clock that the caller passes in, so that rounding of floats is not modelled. A comparison
-- `t < now - interval` of the source is written `t + interval < now`. The locks make each method
-- one step.
pub mod Sliding
pub mod Fixed
pub mod Limiter
mod Tests

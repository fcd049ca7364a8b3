-- ===== src/Core.antt =====
-- The asynchronous utilities of core/async_context.py, where calls of a decorated function interleave at
-- each wait, so that the start and the end of a call are steps of their own; the limiter of
-- core/services.py; and the container of core/dependency_injection.py. Times are ticks.
pub mod CircuitBreaker
pub mod Retry
pub mod RateLimit
pub mod Container
mod Tests

-- ===== src/Errors.antt =====
-- The errors of error.py, and the exceptions of exceptions.py.
pub mod Codes
pub mod Translate
pub mod Outcomes
pub mod Exceptions
mod Tests

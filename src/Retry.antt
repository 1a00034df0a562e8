-- ===== src/Retry.antt =====
-- The retry policy of the API client: botocore/retryhandler.py. `Delay` has the sleep times,
-- `Checker` the checkers and the handler, `Config` their construction from the retry
-- configuration. The laws stand in `Delay.Growth`, `Checker.Attempts` and the children of
-- `Config`.
pub mod Delay
pub mod Checker
pub mod Config
mod Samples

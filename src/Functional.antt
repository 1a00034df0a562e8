-- ===== src/Functional.antt =====
-- The base of the functional tests: jcsapi/tests/functional/base.py. `Polling` has the loops of
-- `EC2Waiter`, with their laws in `Polling.Timeout`; `States` has the functions that they poll, with
-- their laws in `States.Gone`; `Trash` has the clean-ups of a test case, with their laws in
-- `Trash.Order`.
pub mod Polling
pub mod States
pub mod Trash
mod Samples

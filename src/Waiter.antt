-- ===== src/Waiter.antt =====
-- botocore/waiter.py. `Matcher` has the acceptors, `Wait` the loop of `Waiter.wait` and the two kinds
-- of operation that it calls; `Wait.Verdict` has the laws of the loop.
pub mod Matcher
pub mod Wait
mod Samples

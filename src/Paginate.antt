-- ===== src/Paginate.antt =====
-- botocore/paginate.py. `Tokens` has the texts of the resume tokens, `Page` what is done with one response,
-- and `Iterator` is PageIterator with its loop.
pub mod Slices
pub mod Tokens
pub mod State
pub mod Page
pub mod Iterator
pub mod Paginator
pub mod Samples

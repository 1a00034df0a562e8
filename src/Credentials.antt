-- ===== src/Credentials.antt =====
-- The credentials of the API client: botocore/credentials.py. `Refresh` has the credentials that
-- expire, with their laws in `Refresh.Current`; `Providers` has the places where credentials are looked
-- for, and `Resolver` the chain of them, with its laws in `Resolver.Chain` and `Resolver.Default`.
pub mod Refresh
pub mod Providers
pub mod Resolver
mod Samples

-- ===== src/Serialize.antt =====
-- botocore/serialize.py: the query serializers behind the validator. `Names` has the names and prefixes,
-- `Query` the serializers, `Request` the whole request.
pub mod Names
pub mod Query
pub mod Request
pub mod Json
pub mod Samples

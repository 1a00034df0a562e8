-- ===== src/Endpoint.antt =====
-- botocore/endpoint.py, botocore/regions.py and the host name test of botocore/utils.py. `Send` has
-- the request loop of `Endpoint`, with its laws in `Send.Rounds`; `Regions` the rules that find a
-- service's URL, `Hostname` the test of a URL's host, and `Create` the `EndpointCreator`.
pub mod Send
pub mod Regions
pub mod Hostname
pub mod Create
mod Samples

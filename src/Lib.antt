-- ===== src/Lib.antt =====
-- The functional tests of a cloud service and the API client that they drive.
--
-- The repository holds the tests (jcsapi/tests/functional) and, in botocore, the client: a copy of
-- botocore that was renamed and changed in place. A test case asks the client to send requests and
-- waits for the state of a resource. The client finds the endpoint of a service (botocore/regions.py,
-- botocore/endpoint.py), sends a request and asks the handlers of the event needs-retry whether to
-- send it again (botocore/endpoint.py, botocore/hooks.py, botocore/retryhandler.py), and can wait for
-- a resource itself (botocore/waiter.py). Before, it checks the parameters of the request against the
-- shapes of the service's model (botocore/validate.py, botocore/model.py), serializes them
-- (botocore/serialize.py) and signs them (botocore/auth.py); afterwards it reads the response under
-- the output's shape (botocore/parsers.py). A listing that comes in several responses is put together
-- page by page (botocore/paginate.py). A session (botocore/session.py) holds the parts together: it reads
-- configuration files (botocore/config.py), finds the files with the models of the services
-- (botocore/loaders.py) and makes its components when they are asked for.
--
-- Files, and the code that they are about:
--   Prelude     names of the libraries, Boolean tests, lists by native numbers, exceptions and
--               fallible results (`Result`), dictionaries with text keys
--   Value       Python values and their ==
--   Retry       botocore/retryhandler.py. A checker object is a value of `Checker`, `check` is its
--               __call__, `create_retry_handler` builds both parts of a RetryHandler.
--   Hooks       botocore/hooks.py. `Trie` is _PrefixTrie, `Emitter` is HierarchicalEmitter; an
--               operation takes the emitter and returns the new one with its result, since an
--               exception can leave a changed emitter behind.
--   Endpoint    `Send` is Endpoint._send_request, `Regions` is EndpointResolver, `Hostname` is
--               is_valid_endpoint_url of botocore/utils.py, `Create` is EndpointCreator
--   Credentials botocore/credentials.py. `Refresh` is RefreshableCredentials, `Providers` has the load
--               of each provider, `Resolver` is CredentialResolver with the default chain.
--   Waiter      botocore/waiter.py. `Matcher` has the acceptors, `Wait` the loop.
--   Model       the shapes of botocore/model.py and ShapeResolver
--   Validate    botocore/validate.py. `validate` is ParamValidator._validate, `Typed` says what the types
--               of a shape are.
--   Text        what Python's int, str, strip, join and split do to ASCII texts; `Case` has lower and
--               upper, `Sorted` the order of texts and sorted
--   Utils       botocore/utils.py: set_value_from_jmespath, merge_dicts, and in `Path` normalize_url_path
--   Loaders     botocore/loaders.py: `determine_latest`, and the methods that share a Loader's cache
--   Config      botocore/config.py: `load_config` of one file, `multi_file_load_config` of several
--   Session     botocore/session.py. `Variables` has the configuration variables, `Components` is
--               ComponentLocator: an operation takes the locator and returns the new one, and so does `run`,
--               the parameter for the call of a factory.
--   Paginate    botocore/paginate.py. `Page` is what PageIterator does with one response, `Iterator` its loop.
--   Serialize   botocore/serialize.py: the query and EC2 serializers, alone and behind the
--               validator, and in `Json` the JSON serializer
--   Sign        botocore/auth.py: SigV2Auth for parameters in the body; `Headers` is HTTPHeaders of
--               botocore/compat.py, `V4` has SigV4Auth and S3SigV4Auth, and `Canonical` what they make of
--               the URL and the headers
--   Parse       botocore/parsers.py. `Response` is ResponseParser.parse, `Texts` its loop over a text, `Xml`
--               the trees of elements and the handlers of shapes for them, `Query` the parsers of query and ec2, `Json` that of json, `Rest`
--               those of rest-json and rest-xml; `Rest/Header` reads a header, `Rest/Xml` has the table of parsers.
--   Functional  jcsapi/tests/functional/base.py. `Polling` is EC2Waiter, `States` has the functions
--               that it polls, `Trash` the clean-ups that a test case registers and tearDown runs.
-- Each component has a module Samples with tests on small inputs.
--
-- The semantics is that of Python 2: None is smaller than every number. An exception is the list of
-- its classes and a message. Times are natural numbers: milliseconds for the delays of the retry
-- policy, seconds for the waiters. What the outside world does (the HTTP session, the service's
-- answers, the clock, random numbers, JMESPath, the parsing and formatting of dates, json.dumps, base64,
-- str.format for a text with braces, urlsplit, quote, hashes and checksums, configparser, shlex, the files
-- and their paths) is a parameter.
--
-- Loops without a bound in their text run on fuel: the request loop takes max(1, max_attempts) rounds,
-- the client's waiter the same by its own maximum, the polling loops of the tests timeout + 2 rounds,
-- and the search of the trie 2 ^ (n + 1) for a key of n parts. A request loop of r rounds makes r
-- attempts; a polling loop sleeps one interval longer each time, so that it is late after as many
-- sleeps as the timeout has seconds; a key of n parts leads to at most 2 ^ i nodes at depth i. A
-- round of remove_dot_segments shortens the path, whose length is the fuel. A page iterator yields at
-- most as many pages as it has fuel, which stands for the pages that its consumer asks for. The
-- parsers of responses take the depth of calls that the interpreter allows, since a response can make
-- them call themselves for ever.
--
-- Not modelled: the rest of the client (the REST serializers, the signers of version 3, of
-- HmacV1 and in the query, the event handlers, the classes for clients, services and operations), the
-- libraries that are copied under botocore/vendored, the JSON data, and the test scripts themselves,
-- which are sequences of calls to a live service.
pub mod Prelude
pub mod Value
pub mod Text
pub mod Utils
pub mod Model
pub mod Validate
pub mod Serialize
pub mod Parse
pub mod Sign
pub mod Loaders
pub mod Config
pub mod Session
pub mod Paginate
pub mod Credentials
pub mod Retry
pub mod Hooks
pub mod Endpoint
pub mod Waiter
pub mod Functional

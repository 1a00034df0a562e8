-- ===== src/Endpoint/Samples.antt =====
-- Two rules of botocore/regions.py, an endpoint, and a request that fails twice (botocore/endpoint.py).
use jcsapitest.Prelude.{
  ℕ, zero, suc, String, ◌≡◌, ◌⊎◌, refl, true, false, ◌&&◌, Option, none, some, List, [], ◌∷◌, arith,
  leb, split_on, Result, ok,
}
use jcsapitest.Retry.Delay.{create_exponential_delay_function, rand}
use jcsapitest.Retry.Checker.{Checker, retry_handler, max_attempts, http_status_code}
use jcsapitest.Retry.Config.{Config, Section, Policy, create_retry_handler}
use jcsapitest.Endpoint.Send.{Transport, done, send_request}
use jcsapitest.Endpoint.Send.Rounds.{Ends, IsBounded, send_request_bound}
use jcsapitest.Endpoint.Regions.{
  Rules, Rule, Kwargs, Found, literal, field, value, construct_endpoint, matches_rule, fold_in,
  get_rules_for_service,
}
use jcsapitest.Endpoint.Regions.First.{
  NoneMatches, IsFirst, own, defaults, folded, construct_endpoint-IsFirst,
}
use jcsapitest.Endpoint.Hostname.{
  is_valid_hostname, is_valid_endpoint_url, drop_last_dot, is_allowed,
}
use jcsapitest.Endpoint.Hostname.Labels.{all_labels, is_valid_endpoint_url-eq}
use jcsapitest.Endpoint.Create.{EndpointCreator, Endpoint, create_endpoint}

abbrev regional : Rule
regional = record {
  uri = literal "https://" ∷ field "service" ∷ literal "." ∷ field "region" ∷ literal ".com" ∷ [];
  constraints =
      record { attribute = "region"; assertion = "startsWith"; operand = value (some "in-") } ∷ [];
  scope_region = none;
}

abbrev rules : Rules
rules = ("_default", regional ∷ []) ∷ []

abbrev secure : Kwargs
secure = ("scheme", some "https") ∷ []

abbrev creator : EndpointCreator
creator = record { endpoint_resolver = rules; configured_region = some "eu-1" }

abbrev host_of : String → Option (List ℕ)
host_of url = some (b'a' ∷ b'.' ∷ b'b' ∷ [])

-- The server fails on the first two attempts.
abbrev status : ℕ → ℕ
status zero = 500
status (suc zero) = 500
status (suc (suc zero)) = 500
status (suc (suc (suc n))) = 200

abbrev transport : Transport
transport = record {
  Request = ℕ;
  create_request = λ n. ok n;
  reset_stream = λ n. ok tt;
  send = λ request n. ok (record { status_code = status n; headers = []; content = "" });
  parse = λ http. ok (record { http = http; error = none });
  request_url = λ e. none;
}

abbrev no_crc32 : String → ℕ
no_crc32 s = 7

abbrev no_int : String → Result ℕ
no_int s = ok 7

abbrev server_error : Policy
server_error = record {
  response = some (record { error_code = none; status = some 500; crc32body = none });
  socket_errors = none;
}

abbrev section : Section
section = record {
  policies = some (server_error ∷ []);
  max = some 5;
  delay = some (record { kind = "exponential"; base = rand; growth_factor = 2 });
}

abbrev config : Config
config = record { default = some section; operations = [] }

abbrev checker : Checker
checker = max_attempts (http_status_code 500) (some 5) []

abbrev delay : ℕ → Result ℕ
delay = create_exponential_delay_function (λ n. 500) rand 2

program : Unit {0}
unfolding create_exponential_delay_function create_retry_handler retry_handler send_request
    construct_endpoint is_valid_hostname is_valid_endpoint_url create_endpoint split_on
    drop_last_dot is_allowed matches_rule fold_in get_rules_for_service
program = tt

create_retry_handler-config : create_retry_handler (λ n. 500) config none ≡ ok (checker, some delay)
unfolding program
create_retry_handler-config = refl

send_request-transport :
    send_request transport (retry_handler no_crc32 no_int checker (some delay) ∷ []) 5
    ≡ done 3 (500 ∷ 1000 ∷ []) (
        ok (
          some (record {
            http = record { status_code = 200; headers = []; content = "" };
            error = none;
          })))
unfolding program
send_request-transport = refl

send_request_bound_example :
    Ends
      (IsBounded delay 5)
      (send_request transport (retry_handler no_crc32 no_int checker (some delay) ∷ []) 5)
send_request_bound_example =
    send_request_bound transport no_crc32 no_int (λ n. 500) config none section 5 5 checker delay
      refl refl create_retry_handler-config (omega arith)

abbrev found : Found
found = record { uri = "https://ec2.in-1.com"; scope_region = none }

construct_endpoint-rules : construct_endpoint rules "ec2" (some "in-1") secure ≡ ok found
unfolding program
construct_endpoint-rules = refl

construct_endpoint-IsFirst_example :
    IsFirst (folded rules "ec2" (some "in-1") secure) (own rules "ec2" (some "in-1") secure) found
    ⊎ (NoneMatches (folded rules "ec2" (some "in-1") secure) (own rules "ec2" (some "in-1") secure)
        × IsFirst
            (folded rules "ec2" (some "in-1") secure)
            (defaults rules "ec2" (some "in-1") secure)
            found)
construct_endpoint-IsFirst_example =
    construct_endpoint-IsFirst rules "ec2" (some "in-1") secure found construct_endpoint-rules

is_valid_endpoint_url-eq_example :
    is_valid_endpoint_url host_of "http://a.b"
    ≡ ok (leb 3 255 && all_labels (split_on b'.' (drop_last_dot (b'a' ∷ b'.' ∷ b'b' ∷ []))))
is_valid_endpoint_url-eq_example =
    is_valid_endpoint_url-eq host_of "http://a.b" b'a' (b'.' ∷ b'b' ∷ []) refl
      ((λ h. omega arith), ((λ h. omega arith), ((λ h. omega arith), tt)))

hostname_newline : is_valid_hostname (b'a' ∷ 10 ∷ []) ≡ true
unfolding program
hostname_newline = refl

abbrev made : Endpoint
made = record { region_name = some "eu-1"; host = "http://a.b" }

create_endpoint-made :
    create_endpoint host_of creator "ec2" none false (some "http://a.b") ≡ ok made
unfolding program
create_endpoint-made = refl

-- ===== src/Retry/Samples.antt =====
-- The retry configuration of botocore/data/_retry.json in small, and what botocore/retryhandler.py
-- makes of it.
use jcsapitest.Prelude.{
  ℕ, String, ◌≡◌, refl, true, none, some, List, [], ◌∷◌, arith, Exception, boto_error, value_error,
  Result, ok, raise,
}
use jcsapitest.Retry.Delay.{rand, millis, delay_exponential, create_exponential_delay_function}
use jcsapitest.Retry.Checker.{
  Response, Checker, exception_raiser, http_status_code, multi_checker, max_attempts, cons, nil,
  check, retry_handler, catches,
}
use jcsapitest.Retry.Config.{
  Policy, Section, Config, create_checker_from_retry_config, create_retry_action_from_config,
  create_retry_handler,
}
use jcsapitest.Retry.Config.Sockets.{socket_policy, socket_errors_retried}

abbrev pub no_crc32 : String → ℕ
no_crc32 s = 7

abbrev pub no_int : String → Result ℕ
no_int s = raise (value_error s)

abbrev server_error : Policy
server_error = record {
  response = some (record { error_code = none; status = some 500; crc32body = none });
  socket_errors = none;
}

abbrev pub default_section : Section
default_section = record {
  policies = some (server_error ∷ socket_policy ∷ []);
  max = some 5;
  delay = some (record { kind = "exponential"; base = rand; growth_factor = 2 });
}

abbrev pub config : Config
config = record { default = some default_section; operations = [] }

abbrev names : List String
names = "ConnectionError" ∷ "ClosedPoolError" ∷ "Timeout" ∷ "EndpointConnectionError" ∷ []

abbrev pub checker : Checker
checker =
    max_attempts (multi_checker (cons (http_status_code 500) (cons exception_raiser nil))) (some 5)
      names

abbrev timeout : Exception
timeout = boto_error "Timeout" "read"

abbrev lone_section : Section
lone_section = record { policies = some (socket_policy ∷ []); max = some 5; delay = none }

abbrev lone_config : Config
lone_config = record { default = some lone_section; operations = [] }

abbrev lone_checker : Checker
lone_checker = max_attempts exception_raiser (some 5) []

abbrev server_fails : Response
server_fails = record {
  http = record { status_code = 500; headers = []; content = "" };
  error = none;
}

program : Unit {0}
unfolding delay_exponential create_exponential_delay_function check retry_handler catches
    create_checker_from_retry_config create_retry_action_from_config create_retry_handler
program = tt

server_fails-retried :
    retry_handler no_crc32 no_int checker (some (λ n. ok n)) 4 (some server_fails) none
    ≡ ok (some 4)
unfolding program
server_fails-retried = refl

server_fails-last :
    retry_handler no_crc32 no_int checker (some (λ n. ok n)) 5 (some server_fails) none ≡ ok none
unfolding program
server_fails-last = refl

delay_zero :
    delay_exponential 500 (millis 0) 2 1
    ≡ raise (value_error "The 'base' param must be greater than 0")
unfolding program
delay_zero = refl

pub create_retry_handler-config :
    create_retry_handler (λ n. 500) config none
    ≡ ok (checker, some (create_exponential_delay_function (λ n. 500) rand 2))
unfolding program
create_retry_handler-config = refl

-- A configuration whose operation Run adds a policy
abbrev run_config : Config
run_config = record {
  default = some default_section;
  operations =
      ("Run", record { policies = some (server_error ∷ []); max = none; delay = none }) ∷ [];
}

abbrev run_checker : Checker
run_checker =
    max_attempts
      (multi_checker
        (cons (http_status_code 500) (cons exception_raiser (cons (http_status_code 500) nil))))
      (some 5) names

socket_errors_retried_example : check no_crc32 no_int run_checker 4 none (some timeout) ≡ ok true
unfolding program
socket_errors_retried_example =
    socket_errors_retried no_crc32 no_int 4 5 timeout run_config (some "Run") default_section
      (server_error ∷ []) [] run_checker refl refl refl (refl, tt) (λ e. cc) refl refl (omega arith)

-- ===== src/Functional/States.antt =====
-- jcsapi/tests/functional/base.py: the functions that `EC2Waiter` polls, from `_vpc_get_state` to
-- `_image_get_state`. The service's answer to the describe call is the argument.
pub mod Gone
use jcsapitest.Prelude.{
  ℕ, String, Bool, true, false, not, Option, none, some, List, [], ◌∷◌, ◌==◌, any, if◌then◌else◌,
  Exception, exception, key_error, Result, ok, raise, ◌>>=◌,
}
use jcsapitest.Value.{
  Value, Items, Fields, null, bool, str, list, dict, nil, cons, find_field, is_true, value_eq,
}

pub record Reply : Type 0 where
  pub status_code : ℕ
  pub body : Value

-- v[k], for a dictionary
unfoldable pub item_of : String → Value → Result Value
unfolding find_field
item_of k (dict fs) = elim (find_field k fs) [ none ↦ raise (key_error k) | some v ↦ ok v ]
item_of k v = raise (exception "TypeError" k)

-- v[0], for a list
unfoldable pub head_of : Value → Result Value
head_of (list (cons x xs)) = ok x
head_of (list nil) = raise (exception "IndexError" "list index out of range")
head_of v = raise (exception "TypeError" "0")

abbrev pub not_found : Exception
not_found = exception "NotFound" "Object not found"

abbrev pub response_exception : Exception
response_exception = exception "EC2ResponceException" ""

-- data[collection][0]
abbrev pub first_of : String → Value → Result Value
first_of collection body = item_of collection body >>= head_of

-- What follows the test for status 200: an error answer of one of the statuses that says that the object
-- is missing, or any other answer.
unfoldable pub otherwise : List ℕ → String → Reply → Result Value
unfolding any value_eq
otherwise statuses code r =
    if any (λ s. r.status_code == s) statuses
    then (item_of "Error" r.body >>= λ error. item_of "Code" error >>= λ found.
        if value_eq found (str code) then raise not_found else raise response_exception)
    else raise response_exception

abbrev pub bad_request : List ℕ
bad_request = 400 ∷ []

-- The shape of all of them: what a 200 answer shows, and the code for a missing object.
abbrev pub get_state : (Value → Result Value) → List ℕ → String → Reply → Result Value
get_state shown statuses code r =
    if r.status_code == 200 then shown r.body else otherwise statuses code r

-- data[collection][0] != None
abbrev pub is_there : String → Value → Result Value
is_there collection body = first_of collection body >>= λ v. ok (bool (not (value_eq v null)))

unfoldable pub vpc_get_state : Reply → Result Value
unfolding item_of head_of otherwise
vpc_get_state = get_state (is_there "Vpcs") bad_request "InvalidVpcID.NotFound"

unfoldable pub subnet_get_state : Reply → Result Value
unfolding item_of head_of otherwise
subnet_get_state = get_state (is_there "Subnets") bad_request "InvalidSubnetID.NotFound"

-- A terminated instance counts as gone.
unfoldable pub instance_get_state : Reply → Result Value
unfolding item_of head_of otherwise
instance_get_state =
    get_state
      (λ body. first_of "Instances" body >>= λ instance_. item_of "State" instance_ >>= λ state.
        if value_eq state (str "terminated") then raise not_found else ok state)
      bad_request "InvalidInstanceID.NotFound"

-- The code reads the password and then goes on to the tests for the other statuses.
unfoldable pub get_password_data : Reply → Result Value
unfolding item_of otherwise
get_password_data r =
    if r.status_code == 200
    then (item_of "data" r.body >>= λ inner. item_of "PasswordData" inner >>= λ password.
        otherwise bad_request "InvalidInstanceID.NotFound" r)
    else otherwise bad_request "InvalidInstanceID.NotFound" r

unfoldable pub network_interface_get_state : Reply → Result Value
unfolding item_of head_of otherwise
network_interface_get_state =
    get_state (λ body. first_of "NetworkInterfaces" body >>= item_of "Status") bad_request
      "InvalidNetworkInterfaceID.NotFound"

unfoldable pub volume_get_state : Reply → Result Value
unfolding item_of head_of otherwise
volume_get_state =
    get_state (λ body. first_of "Volumes" body >>= item_of "State") (400 ∷ 404 ∷ [])
      "InvalidVolume.NotFound"

unfoldable pub volume_attachment_get_state : Reply → Result Value
unfolding item_of head_of otherwise
volume_attachment_get_state =
    get_state
      (λ body. first_of "Volumes" body >>= λ volume. item_of "State" volume >>= λ state.
        if value_eq state (str "in-use") then ok (str "attached") else raise not_found)
      bad_request "InvalidVolume.NotFound"

unfoldable pub snapshot_get_state : Reply → Result Value
unfolding item_of head_of otherwise
snapshot_get_state =
    get_state (λ body. first_of "Snapshots" body >>= item_of "State") bad_request
      "InvalidSnapshot.NotFound"

unfoldable pub image_get_state : Reply → Result Value
unfolding item_of head_of otherwise is_true
image_get_state =
    get_state
      (λ body. item_of "Images" body >>= λ images.
        if is_true images then (head_of images >>= item_of "State") else raise not_found)
      bad_request "InvalidAMIID.NotFound"

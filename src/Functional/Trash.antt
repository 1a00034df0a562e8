-- ===== src/Functional/Trash.antt =====
-- jcsapi/tests/functional/base.py: the trash bin of `EC2TestCase`, with the clean-ups that a test case
-- registers, cancels and runs. A dictionary with numbers as keys is an association list. The service's
-- answer to a clean-up, and what `wait_delete` of a waiter does, are parameters; the text of the log
-- messages is left out.
pub mod Bins
pub mod Order
use text.Mathlib.Text.{find?}
use jcsapitest.Prelude.{
  ℕ, zero, suc, ◌+◌, String, Bool, true, false, not, ◌||◌, Option, none, some, List, [], ◌∷◌, ◌==◌,
  ltb, if◌then◌else◌, str_eq, has, Dict, get, Exception, exception, key_error, Result, ok, raise,
  ◌>>=◌,
}
use jcsapitest.Value.{
  Value, Items, Fields, null, str, list, dict, nil, cons, end, get_or, has_field, value_eq,
}
use jcsapitest.Functional.States.{Reply, item_of, head_of}

-- An entry: the name of the function and its keyword arguments.
pub record Cleanup : Type 0 where
  pub name : String
  pub kwargs : Value

abbrev pub Bin : Type 0
Bin = List (ℕ × Cleanup)

-- `_resource_trash_bin`, and the key that `_sequence` reaches next.
pub record TestCase : Type 0 where
  pub bin : Bin
  pub next : ℕ

-- setUp
abbrev pub set_up : TestCase
set_up = record { bin = []; next = 0 }

unfoldable pub get_at : ℕ → Bin → Option Cleanup
get_at k [] = none
get_at k ((j, c) ∷ b) = if j == k then some c else get_at k b

unfoldable pub put_at : ℕ → Cleanup → Bin → Bin
put_at k c [] = (k, c) ∷ []
put_at k c ((j, d) ∷ b) = if j == k then (k, c) ∷ b else (j, d) ∷ put_at k c b

unfoldable pub remove_at : ℕ → Bin → Bin
remove_at k [] = []
remove_at k ((j, c) ∷ b) = let rest = remove_at k b in if j == k then rest else (j, c) ∷ rest

-- addResourceCleanUp, which answers with the key
unfoldable pub add_resource_clean_up : Cleanup → TestCase → TestCase × ℕ
unfolding put_at
add_resource_clean_up c t = (record { bin = put_at t.next c t.bin; next = suc t.next }, t.next)

unfoldable pub cancel_resource_clean_up : ℕ → TestCase → Result TestCase
unfolding get_at remove_at
cancel_resource_clean_up k t = elim (get_at k t.bin) [
  | none ↦ raise (key_error "sequence")
  | some c ↦ ok (record t { bin = remove_at k t.bin })
]

abbrev pub valid_cleanup_errors : List String
valid_cleanup_errors = "NotFound" ∷ "Gateway.NotAttached" ∷ []

abbrev pub member : Value → Items → Bool
member v nil = false
member v (cons w vs) = value_eq v w || member v vs

-- err in error_code
unfoldable pub is_in : String → Value → Result Bool
unfolding value_eq has_field
is_in err (str s) = ok (elim (find? s err) [ none ↦ false | some i ↦ true ])
is_in err (list vs) = ok (member (str err) vs)
is_in err (dict fs) = ok (has_field err fs)
is_in err v = raise (exception "TypeError" "argument is not iterable")

unfoldable pub is_valid_error : List String → Value → Result Bool
unfolding is_in
is_valid_error [] code = ok false
is_valid_error (err ∷ errs) code =
    let rest = is_valid_error errs code in is_in err code >>= λ b. if b then ok true else rest

-- _CLEANUP_WAITERS: the waiter of a function, and the argument that names the object.
unfoldable pub cleanup_waiters : Dict (String × String)
cleanup_waiters =
    ("DeleteVpc", ("get_vpc_waiter", "VpcId"))
    ∷ ("DeleteSubnet", ("get_subnet_waiter", "SubnetId"))
    ∷ ("DeleteNetworkInterface", ("get_network_interface_waiter", "NetworkInterfaceId"))
    ∷ ("TerminateInstances", ("get_instance_waiter", "InstanceIds"))
    ∷ ("DeleteVolume", ("get_volume_waiter", "VolumeId"))
    ∷ ("DetachVolume", ("get_volume_attachment_waiter", "VolumeId"))
    ∷ ("DeleteSnapshot", ("get_snapshot_waiter", "SnapshotId"))
    ∷ ("DeregisterImage", ("get_image_waiter", "ImageId"))
    ∷ []

-- The object's id among the keyword arguments; of several instances it is the first one's.
unfoldable pub object_id : String → Value → Result Value
unfolding item_of head_of
object_id argument kwargs =
    if str_eq argument "InstanceIds"
    then (item_of argument kwargs >>= head_of)
    else item_of argument kwargs

-- A finished clean-up: the entries in the order in which they were run, the failures, and the bin.
pub record CleanedUp : Type 0 where
  pub run : List Cleanup
  pub fail_count : ℕ
  pub bin : Bin

-- sorted(trash_bin, reverse=True)
unfoldable pub insert_down : ℕ → List ℕ → List ℕ
insert_down k [] = k ∷ []
insert_down k (j ∷ js) = if ltb k j then j ∷ insert_down k js else k ∷ j ∷ js

unfoldable pub sorted_down : List ℕ → List ℕ
unfolding insert_down
sorted_down [] = []
sorted_down (k ∷ ks) = insert_down k (sorted_down ks)

abbrev pub keys : Bin → List ℕ
keys [] = []
keys ((k, c) ∷ b) = k ∷ keys b

module _ (call : Cleanup → Result Reply) (wait_delete : String → Value → Result (Unit {0})) where
  -- cleanUpItem: an error of the service that is not expected is only logged.
  unfoldable pub clean_up_item : Cleanup → Result (Unit {0})
  unfolding is_valid_error cleanup_waiters object_id get
  clean_up_item c = call c >>= λ r.
      if not (r.status_code == 200)
      then (get_or "Error" (dict end) r.body >>= λ error. get_or "Code" null error >>= λ code.
          is_valid_error valid_cleanup_errors code >>= λ expected. ok tt)
      else elim (get c.name cleanup_waiters) [
        | none ↦ ok tt
        | some (waiter, argument) ↦ object_id argument c.kwargs >>= λ id. wait_delete waiter id
      ]

  abbrev pub failed : Cleanup → ℕ
  failed c = elim (clean_up_item c) [ ok done ↦ 0 | raise e ↦ 1 ]

  -- The loop of cleanUp over the keys.
  unfoldable pub clean_up_from : List ℕ → ℕ → Bin → Result CleanedUp
  unfolding clean_up_item get_at remove_at
  clean_up_from [] count bin = ok (record { run = []; fail_count = count; bin = bin })
  clean_up_from (k ∷ ks) count bin = elim (get_at k bin) [
    | none ↦ raise (key_error "sequence")
    | some c ↦ clean_up_from ks (count + failed c) (remove_at k bin) >>= λ rest.
        ok (record rest { run = c ∷ rest.run })
  ]

  unfoldable pub clean_up : Bin → Result CleanedUp
  unfolding clean_up_from sorted_down
  clean_up bin = clean_up_from (sorted_down (keys bin)) 0 bin

-- ===== src/Value.antt =====
-- The values that the API client passes around: Python's None, numbers, texts, lists and dictionaries
-- with text keys. A float is its number of thousandths. `other` is an object of another class, by
-- its name.
use jcsapitest.Prelude.{
  ℕ, zero, suc, ◌*◌, String, Bool, true, false, not, ◌&&◌, Option, none, some, ◌==◌, str_eq,
  if◌then◌else◌, attribute_error, Result, ok, raise,
}
pub mod Int
use Int.{ℤ, pos, negsuc, int_eq, scale}

mutual
  pub data Value : Type 0 where
    null : Value
    bool : Bool → Value
    int : ℤ → Value
    float : ℤ → Value
    str : String → Value
    bytes : String → Value
    list : Items → Value
    dict : Fields → Value
    other : String → Value

  pub data Items : Type 0 where
    nil : Items
    cons : Value → Items → Items

  pub data Fields : Type 0 where
    end : Fields
    field : String → Value → Fields → Fields

-- fs.get(k): the first entry of a key counts.
unfoldable pub find_field : String → Fields → Option Value
find_field k end = none
find_field k (field j v fs) = if str_eq j k then some v else find_field k fs

unfoldable pub has_field : String → Fields → Bool
unfolding find_field
has_field k fs = elim (find_field k fs) [ none ↦ false | some v ↦ true ]

unfoldable pub count_fields : Fields → ℕ
count_fields end = 0
count_fields (field k v fs) = suc (count_fields fs)

-- d[k] = v
unfoldable pub set_field : String → Value → Fields → Fields
set_field k v end = field k v end
set_field k v (field j w fs) = if str_eq j k then field k v fs else field j w (set_field k v fs)

-- len(vs)
unfoldable pub count_items : Items → ℕ
count_items nil = 0
count_items (cons v vs) = suc (count_items vs)

-- vs[:n] and vs[n:] for a natural number, and vs + ws
unfoldable pub take_items : ℕ → Items → Items
take_items zero vs = nil
take_items (suc n) nil = nil
take_items (suc n) (cons v vs) = cons v (take_items n vs)

unfoldable pub drop_items : ℕ → Items → Items
drop_items zero vs = vs
drop_items (suc n) nil = nil
drop_items (suc n) (cons v vs) = drop_items n vs

unfoldable pub append_items : Items → Items → Items
append_items nil ws = ws
append_items (cons v vs) ws = cons v (append_items vs ws)

-- v.get(k, default), for a value that may be no dictionary
unfoldable pub get_or : String → Value → Value → Result Value
unfolding find_field
get_or k default (dict fs) = elim (find_field k fs) [ none ↦ ok default | some v ↦ ok v ]
get_or k default v = raise (attribute_error "get")

-- A number as thousandths; True and False are 1 and 0.
unfoldable pub as_number : Value → Option ℤ
unfolding scale
as_number (bool true) = some (scale (pos 1))
as_number (bool false) = some (pos 0)
as_number (int n) = some (scale n)
as_number (float n) = some n
as_number v = none

unfoldable pub numbers_equal : Option ℤ → Option ℤ → Bool
unfolding int_eq
numbers_equal (some a) (some b) = int_eq a b
numbers_equal _ _ = false

-- bool(v)
unfoldable pub is_true : Value → Bool
unfolding int_eq
is_true null = false
is_true (bool b) = b
is_true (int n) = not (int_eq n (pos 0))
is_true (float n) = not (int_eq n (pos 0))
is_true (str s) = not (str_eq s "")
is_true (bytes s) = not (str_eq s "")
is_true (list nil) = false
is_true (dict end) = false
is_true v = true

-- Python's ==. Dictionaries are equal when they have the same entries, in any order.
unfoldable mutual
  unfolding as_number numbers_equal find_field count_fields

  pub value_eq : Value → Value → Bool
  value_eq null null = true
  value_eq (str s) (str t) = str_eq s t
  value_eq (bytes s) (bytes t) = str_eq s t
  value_eq (other s) (other t) = str_eq s t
  value_eq (list xs) (list ys) = items_eq xs ys
  value_eq (dict fs) (dict gs) = count_fields fs == count_fields gs && fields_in fs gs
  value_eq v w = numbers_equal (as_number v) (as_number w)

  pub items_eq : Items → Items → Bool
  items_eq nil nil = true
  items_eq (cons x xs) (cons y ys) = value_eq x y && items_eq xs ys
  items_eq _ _ = false

  pub fields_in : Fields → Fields → Bool
  fields_in end gs = true
  fields_in (field k v fs) gs = elim (find_field k gs) [
    | none ↦ false
    | some w ↦ value_eq v w && fields_in fs gs
  ]

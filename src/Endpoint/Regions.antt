-- ===== src/Endpoint/Regions.antt =====
-- botocore/regions.py: `EndpointResolver`. A keyword argument or a rule's operand is a text or
-- None; the `uri` template of a rule comes split into its literal parts and its fields.
pub mod First
use text.Mathlib.Text.{starts_with, find?}
use Prim.Native.String.{◌++◌ as append}
use jcsapitest.Prelude.{
  String, Bool, true, false, not, ◌||◌, Option, none, some, List, [], ◌∷◌, str_eq, if◌then◌else◌,
  Dict, get, has, item, put, Exception, exception, boto_error, key_error, Result, ok, raise, ◌>>=◌,
}

abbrev pub Kwargs : Type 0
Kwargs = Dict (Option String)

-- The third entry of a constraint.
pub data Operand : Type 0 where
  value : Option String → Operand
  values : List (Option String) → Operand

pub record Constraint : Type 0 where
  pub attribute : String
  pub assertion : String
  pub operand : Operand

pub data Piece : Type 0 where
  literal : String → Piece
  field : String → Piece

pub record Rule : Type 0 where
  pub uri : List Piece
  pub constraints : List Constraint
  -- properties['credentialScope']['region'], the one property that the client reads
  pub scope_region : Option String

pub record Found : Type 0 where
  pub uri : String
  pub scope_region : Option String

abbrev pub Rules : Type 0
Rules = Dict (List Rule)

-- str(x)
abbrev str : Option String → String
str none = "None"
str (some s) = s

abbrev pub option_eq : Option String → Option String → Bool
option_eq none none = true
option_eq (some s) (some t) = str_eq s t
option_eq _ _ = false

abbrev type_error : Exception
type_error = exception "TypeError" "operand of the wrong type"

abbrev str_in : String → String → Bool
str_in s t = elim (find? t s) [ none ↦ false | some i ↦ true ]

abbrev member : Option String → List (Option String) → Bool
member x [] = false
member x (y ∷ ys) = option_eq x y || member x ys

-- str(x).startswith(y)
unfoldable pub starts : Option String → Operand → Result Bool
starts x (value (some y)) = ok (starts_with (str x) y)
starts x _ = raise type_error

-- x == y
unfoldable pub equals : Option String → Operand → Result Bool
equals x (value y) = ok (option_eq x y)
equals x (values ys) = ok false

-- x in y
unfoldable pub one_of : Option String → Operand → Result Bool
one_of x (values ys) = ok (member x ys)
one_of (some x) (value (some y)) = ok (str_in x y)
one_of _ _ = raise type_error

abbrev negate : Result Bool → Result Bool
negate (ok b) = ok (not b)
negate (raise e) = raise e

-- _CONSTRAINT_FUNCS
unfoldable pub constraint_func : String → Option String → Operand → Result Bool
unfolding starts equals one_of
constraint_func name x y =
    if str_eq name "startsWith"
    then starts x y
    else if str_eq name "notStartsWith"
    then negate (starts x y)
    else if str_eq name "equals"
    then equals x y
    else if str_eq name "notEquals"
    then negate (equals x y)
    else if str_eq name "oneOf"
    then one_of x y
    else raise (key_error name)

unfoldable pub matches_constraint : Kwargs → Constraint → Result Bool
unfolding item constraint_func
matches_constraint kwargs c =
    item c.attribute kwargs >>= λ x. constraint_func c.assertion x c.operand

unfoldable pub matches_all : Kwargs → List Constraint → Result Bool
unfolding matches_constraint
matches_all kwargs [] = ok true
matches_all kwargs (c ∷ cs) =
    let rest = matches_all kwargs cs in
    matches_constraint kwargs c >>= λ b. if b then rest else ok false

unfoldable pub matches_rule : Kwargs → Rule → Result Bool
unfolding matches_all
matches_rule kwargs rule = matches_all kwargs rule.constraints

-- rule['uri'].format(**kwargs)
unfoldable pub format : Kwargs → List Piece → Result String
unfolding item
format kwargs [] = ok ""
format kwargs (literal s ∷ ps) = let rest = format kwargs ps in rest >>= λ t. ok (append s t)
format kwargs (field name ∷ ps) =
    let rest = format kwargs ps in item name kwargs >>= λ x. rest >>= λ t. ok (append (str x) t)

abbrev pub make : Rule → String → Found
make rule uri = record { uri = uri; scope_region = rule.scope_region }

unfoldable pub match_rules : Kwargs → List Rule → Result (Option Found)
unfolding matches_rule format
match_rules kwargs [] = ok none
match_rules kwargs (rule ∷ rules) =
    let rest = match_rules kwargs rules in
    matches_rule kwargs rule >>= λ b.
    if b then (format kwargs rule.uri >>= λ uri. ok (some (make rule uri))) else rest

-- self._rules.get(name, [])
unfoldable pub get_rules_for_service : Rules → String → List Rule
unfolding get
get_rules_for_service rules name = elim (get name rules) [ none ↦ [] | some rs ↦ rs ]

abbrev pub no_region_error : Exception
no_region_error = record {
  classes =
      "NoRegionError" ∷ "BaseEndpointResolverError" ∷ "BotoCoreError" ∷ "Exception"
      ∷ "BaseException" ∷ [];
  message = "You must specify a region.";
}

abbrev pub unknown_endpoint_error : String → Exception
unknown_endpoint_error service = record {
  classes =
      "UnknownEndpointError" ∷ "BaseEndpointResolverError" ∷ "BotoCoreError" ∷ "Exception"
      ∷ "BaseException" ∷ [];
  message = service;
}

abbrev pub not_found : String → Option String → Exception
not_found service none = no_region_error
not_found service (some region) = unknown_endpoint_error service

-- kwargs with the service, the region and a scheme
unfoldable pub fold_in : String → Option String → Kwargs → Kwargs
unfolding has put
fold_in service region kwargs =
    let named = put "region" region (put "service" (some service) kwargs) in
    if has "scheme" named then named else put "scheme" (some "https") named

unfoldable pub construct_endpoint : Rules → String → Option String → Kwargs → Result Found
unfolding match_rules get_rules_for_service fold_in
construct_endpoint rules service region kwargs =
    let all = fold_in service region kwargs in
    match_rules all (get_rules_for_service rules service) >>= λ own. elim own [
      | some found ↦ ok found
      | none ↦ match_rules all (get_rules_for_service rules "_default") >>= λ default.
          elim default [ some found ↦ ok found | none ↦ raise (not_found service region) ]
    ]

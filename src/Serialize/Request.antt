-- ===== src/Serialize/Request.antt =====
-- botocore/serialize.py: `QuerySerializer.serialize_to_request` and `create_serializer`, for the protocols
-- query and ec2, and what is served by both behind the validator of botocore/validate.py.
pub mod Valid
use jcsapitest.Prelude.{
  ℕ, String, Bool, Option, none, some, List, [], Dict, item, Result, ok, ◌>>=◌,
}
use jcsapitest.Value.{Value, Fields, str, field, end}
use jcsapitest.Model.{Shape, ShapeMap}
use jcsapitest.Validate as Validate
use jcsapitest.Serialize.Names.{Protocol}
use jcsapitest.Serialize.Query.{serialize}

-- What the serializer asks of an OperationModel
pub record OperationModel : Type 0 where
  pub name : String
  pub http_method : Option String
  pub metadata : Dict String
  pub input_shape : Option Shape

pub record Request : Type 0 where
  pub url_path : String
  pub query_string : String
  pub method : String
  pub headers : Dict String
  pub body : Fields

abbrev pub method_of : OperationModel → String
method_of op = elim op.http_method [ none ↦ "POST" | some m ↦ m ]

-- _create_default_request, with the method and the body put in
abbrev pub request_with : OperationModel → Fields → Request
request_with op body = record {
  url_path = "/";
  query_string = "";
  method = method_of op;
  headers = [];
  body = body;
}

abbrev pub body_params : OperationModel → String → Fields
body_params op version = field "Action" (str op.name) (field "Version" (str version) end)

module _ (shapes : ShapeMap) (convert_timestamp : Value → Result String) (base64 : String → String)
    (format : String → ℕ → String → Result String) (p : Protocol) where
  unfoldable pub serialize_body : Option Shape → Value → Fields → Result Fields
  unfolding serialize
  serialize_body none parameters body = ok body
  serialize_body (some s) parameters body =
      serialize shapes convert_timestamp base64 format p body parameters s ""

  -- QuerySerializer.serialize_to_request
  unfoldable pub serialize_to_request : OperationModel → Value → Result Request
  unfolding serialize_body item
  serialize_to_request op parameters = item "apiVersion" op.metadata >>= λ version.
      serialize_body op.input_shape parameters (body_params op version) >>= λ body.
      ok (request_with op body)

  -- create_serializer(protocol).serialize_to_request
  unfoldable pub validated_request :
      (Value → Result (Unit {0})) → (String → Bool) → OperationModel → Value → Result Request
  unfolding serialize_to_request Validate.serialize_to_request
  validated_request to_datetime has_read op parameters =
      Validate.serialize_to_request shapes to_datetime has_read (serialize_to_request op) parameters
        op.input_shape

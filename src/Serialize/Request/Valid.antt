-- ===== src/Serialize/Request/Valid.antt =====
-- What the validator of botocore/validate.py lets through, the query serializers of botocore/serialize.py
-- serialize.
use jcsapitest.Value.{Value}
use jcsapitest.Validate as Validate

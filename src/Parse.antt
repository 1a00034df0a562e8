-- ===== src/Parse.antt =====
-- botocore/parsers.py: the response parsers. `Xml` has the document tree and the handlers of shapes for
-- XML, `Query` the parsers of the protocols query and ec2, `Json` that of json, and `Rest` those of
-- rest-json and rest-xml with the table of all parsers.
pub mod Texts
pub mod Response
pub mod Xml
pub mod Query
pub mod Json
pub mod Rest

-- ===== src/Parse/Xml.antt =====
-- botocore/parsers.py: the trees of XML documents and `_build_name_to_xml_node`. An element has its tag,
-- with the namespace in braces, its text, if there is one, and its children. A tag has no newline.
pub mod Children
pub mod Shapes
use Prim.Native.Char.{code}
use jcsapitest.Prelude.{
  String, Bool, true, false, ◌&&◌, ◌||◌, Option, none, some, List, [], ◌∷◌, ◌++◌, Dict, get, put,
  ◌==◌, if◌then◌else◌, attribute_error, Result, ok, raise, ◌>>=◌,
}
use jcsapitest.Value.{Value, Fields, null, str, dict, field, end}

mutual
  pub data Node : Type 0 where
    element : (tag : String) (text : Option String) (children : Nodes) → Node

  pub data Nodes : Type 0 where
    nil : Nodes
    cons : Node → Nodes → Nodes

unfoldable pub nodes_of : Nodes → List Node
nodes_of nil = []
nodes_of (cons n ns) = n ∷ nodes_of ns

abbrev pub children : Node → List Node
children (element tag text ns) = nodes_of ns

abbrev pub text_of : Node → Option String
text_of (element tag text ns) = text

unfoldable pub has_brace : String → Bool
has_brace String.[] = false
has_brace (String.◌∷◌ c s) = code c == b'}' || has_brace s

-- What stands behind the last brace
unfoldable pub after_brace : String → String
unfolding has_brace
after_brace String.[] = ""
after_brace (String.◌∷◌ c s) =
    let rest = after_brace s in
    if has_brace s then rest else if code c == b'}' then s else String.◌∷◌ c s

-- re.sub('{.*}', '', tag): from the first brace that opens to the last one that closes
unfoldable pub strip_namespace : String → String
unfolding has_brace after_brace
strip_namespace String.[] = ""
strip_namespace (String.◌∷◌ c s) =
    let rest = strip_namespace s in
    if code c == b'{' && has_brace s then after_brace s else String.◌∷◌ c rest

-- _node_tag
unfoldable pub node_tag : Node → String
unfolding strip_namespace
node_tag (element tag text ns) = strip_namespace tag

-- What stands under a key: one item, or the list of several.
pub data Found {ℓ} (A : Type ℓ) : Type ℓ where
  one : A → Found A
  many : List A → Found A

module _ {ℓ} {A : Type ℓ} where
  -- xml_dict[key].append(item), after a conversion from a scalar to a list
  abbrev pub extend : Found A → A → Found A
  extend (one x) y = many (x ∷ y ∷ [])
  extend (many xs) y = many (xs ++ y ∷ [])

  -- One round of the loop
  unfoldable pub add_named : String → A → Dict (Found A) → Dict (Found A)
  unfolding get put
  add_named k x d = elim (get k d) [ none ↦ put k (one x) d | some f ↦ put k (extend f x) d ]

  unfoldable pub gather : Dict (Found A) → Dict A → Dict (Found A)
  unfolding add_named
  gather d [] = d
  gather d ((k, x) ∷ items) = gather (add_named k x d) items

unfoldable pub named : List Node → Dict Node
unfolding node_tag
named [] = []
named (n ∷ ns) = (node_tag n, n) ∷ named ns

-- _build_name_to_xml_node, for the items of a node or of a list
unfoldable pub build_name_to_xml_node : List Node → Dict (Found Node)
unfolding gather named
build_name_to_xml_node ns = gather [] (named ns)

-- The values of a dictionary from tags; a list of elements has no getchildren.
abbrev pub replaced_value : Found (Result Value) → Result Value
replaced_value (one r) = r
replaced_value (many rs) = raise (attribute_error "getchildren")

unfoldable pub replace_values : Dict (Found (Result Value)) → Result Fields
replace_values [] = ok end
replace_values ((k, f) ∷ d) =
    let rest = replace_values d in replaced_value f >>= λ v. rest >>= λ fs. ok (field k v fs)

abbrev pub text_value : Option String → Value
text_value none = null
text_value (some t) = str t

-- _replace_nodes, for one element: its text, or a dictionary from its children
unfoldable mutual
  unfolding gather replace_values node_tag

  pub replace_node : Node → Result Value
  replace_node (element tag text nil) = ok (text_value text)
  replace_node (element tag text (cons n ns)) =
      replace_values (gather [] (replace_children (cons n ns))) >>= λ fs. ok (dict fs)

  pub replace_children : Nodes → Dict (Result Value)
  replace_children nil = []
  replace_children (cons n ns) = (node_tag n, replace_node n) ∷ replace_children ns

-- _build_name_to_xml_node and _replace_nodes of the root
unfoldable pub replaced_root : Node → Result Fields
unfolding replace_children gather replace_values
replaced_root (element tag text ns) = replace_values (gather [] (replace_children ns))

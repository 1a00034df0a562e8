-- ===== src/Parse/Rest/Metadata.antt =====
-- What a REST response that succeeded says of itself.
use jcsapitest.Prelude.{
  ℕ, String, ◌≡◌, refl, sym, ◌∙◌, inl, inr, false, none, some, [], ◌∷◌, Dict, get, item, Result, ok,
  ◌>>=◌, arith, str_eq, eq_iff, Bool-cases, Option-cases, >>=-eq-ok, ok-inj,
}
use jcsapitest.Value.Int.{pos}
use jcsapitest.Value.{Value, Fields, int, dict, field, end, find_field, set_field}
use jcsapitest.Model.{Shape, ShapeMap, members_of}
use jcsapitest.Serialize.Names.{attribute}
use jcsapitest.Parse.Response.{
  Response, header, update_fields, update_with, inject_status, set_item,
}
use jcsapitest.Text.Case.{lower}
use jcsapitest.Parse.Rest.{
  Format, parse_attr, parse_non_payload_attrs, parse_payload, do_parse, populate_response_metadata,
  text_or, assign,
}

pub find_field-set_other :
    (k name : String) (v : Value) (fs : Fields)
    → str_eq k name ≡ false
    → find_field name (set_field k v fs) ≡ find_field name fs
unfolding find_field set_field
find_field-set_other k name v Fields.end differs = rw differs refl
find_field-set_other k name v (Fields.field j w fs) differs =
    ground (arith, eq_iff j k, eq_iff j name, eq_iff k name, find_field-set_other k name v fs)

pub find_field-set_self :
    (k : String) (v : Value) (fs : Fields) → find_field k (set_field k v fs) ≡ some v
unfolding find_field set_field
find_field-set_self k v Fields.end = ground (arith, eq_iff k k)
find_field-set_self k v (Fields.field j w fs) =
    ground (arith, eq_iff j k, eq_iff k k, find_field-set_self k v fs)

find_field-update_fields :
    (name : String) (new fs : Fields)
    → find_field name new ≡ none
    → find_field name (update_fields new fs) ≡ find_field name fs
unfolding update_fields find_field
find_field-update_fields name Fields.end fs absent = refl
find_field-update_fields name (Fields.field k v new) fs absent = elim (Bool-cases (str_eq k name)) [
  | inl same ↦ let there = rw same at absent in cc
  | inr differs ↦
      find_field-update_fields name new (set_field k v fs) (rw differs at absent)
      ∙ find_field-set_other k name v fs differs
]

module _ {ℓ} {Body : Type ℓ} (format : Format Body) (r : Response) (other : String) where
  assign-keeps :
      (name : String) (parsed : Fields) (v : Result Value) {out : Fields}
      → str_eq name other ≡ false
      → assign format r name parsed v ≡ ok out
      → find_field other out ≡ find_field other parsed
  assign-keeps name parsed v differs returned =
      let (w, is_w, done) = >>=-eq-ok v _ returned in
      rw (← ok-inj done) (find_field-set_other name other w parsed differs)

  parse_attr-keeps :
      (location name : String) (m : Shape) (parsed : Fields) {out : Fields}
      → str_eq name other ≡ false
      → parse_attr format r location name m parsed ≡ ok out
      → find_field other out ≡ find_field other parsed
  unfolding parse_attr
  parse_attr-keeps location name m parsed differs returned =
      elim (Bool-cases (str_eq location "statusCode")) [
        | inl status ↦ assign-keeps name parsed _ differs (rw status at returned)
        | inr not_status ↦ elim (Bool-cases (str_eq location "headers")) [
          | inl headers ↦
              let done = rw (not_status, headers) at returned in
              rw (← ok-inj done) (find_field-set_other name other _ parsed differs)
          | inr not_headers ↦ elim (Bool-cases (str_eq location "header")) [
            | inl is_header ↦
                elim (Option-cases
                  (header (lower (text_or name (attribute "locationName" m))) r.headers)) [
                    | inl missing ↦
                        let done = rw (not_status, not_headers, is_header, missing) at returned in
                        rw (← ok-inj done) refl
                    | inr (t, there) ↦
                        assign-keeps name parsed _ differs
                          (rw (not_status, not_headers, is_header, there) at returned)
                  ]
            | inr no_header ↦
                let done = rw (not_status, not_headers, no_header) at returned in
                rw (← ok-inj done) refl
          ]
        ]
      ]

  parse_non_payload_attrs-keeps :
      (members : Dict Shape) (parsed : Fields) {out : Fields}
      → get other members ≡ none
      → parse_non_payload_attrs format r members parsed ≡ ok out
      → find_field other out ≡ find_field other parsed
  unfolding parse_non_payload_attrs get
  parse_non_payload_attrs-keeps [] parsed absent returned = rw (← ok-inj returned) refl
  parse_non_payload_attrs-keeps ((name, m) ∷ members) parsed absent returned =
      elim (Bool-cases (str_eq name other)) [
        | inl same ↦ let there = rw same at absent in cc
        | inr differs ↦ elim (Option-cases (attribute "location" m)) [
          | inl nowhere ↦
              parse_non_payload_attrs-keeps members parsed (rw differs at absent)
                (rw (nowhere, parse_non_payload_attrs) at returned)
          | inr (location, e) ↦
              let (p, first, rest) =
                >>=-eq-ok (parse_attr format r location name m parsed) _
                  (rw (e, parse_non_payload_attrs) at returned) in
              parse_non_payload_attrs-keeps members p (rw differs at absent) rest
              ∙ parse_attr-keeps location name m parsed differs first
        ]
      ]

  item-differs :
      (name : String) (members : Dict Shape) {m : Shape}
      → get other members ≡ none
      → item name members ≡ ok m
      → str_eq name other ≡ false
  unfolding item
  item-differs name members absent there = elim (Bool-cases (str_eq name other)) [
    | inl same ↦
        let e = (eq_iff name other).0 same in
        let missing : get name members ≡ none = rw e absent in
        let raised = rw (missing, item) at there in cc
    | inr differs ↦ differs
  ]

  module _ (decode : String → Result String) (s : Shape)
      (body_absent : (b : Body) (w : Value)
        → format.parse_body s b ≡ ok w
        → (fs : Fields) × (w ≡ dict fs) × (find_field other fs ≡ none)) where
    parse_payload-keeps :
        (members : Dict Shape) (parsed : Fields) {out : Fields}
        → get other members ≡ none
        → parse_payload format r decode s members parsed ≡ ok out
        → find_field other out ≡ find_field other parsed
    unfolding parse_payload update_with
    parse_payload-keeps members parsed absent returned =
        elim (Option-cases (attribute "payload" s)) [
          | inl nowhere ↦
              let whole = rw (nowhere, parse_payload) at returned in
              let (w, is_w, updated) =
                >>=-eq-ok (format.initial_body_parse r.body >>= format.parse_body s) _ whole in
              let (b, is_b, parsed_body) = >>=-eq-ok (format.initial_body_parse r.body) _ is_w in
              let (fs, e, not_there) = body_absent b w parsed_body in
              let done = rw (e, update_with) at updated in
              rw (← ok-inj done) (find_field-update_fields other fs parsed not_there)
          | inr (name, e) ↦
              let (body_shape, there, assigned) =
                >>=-eq-ok (item name members) _ (rw (e, parse_payload) at returned) in
              assign-keeps name parsed _ (item-differs name members absent there) assigned
        ]

    pub do_parse-keeps :
        (shapes : ShapeMap) (members : Dict Shape) {v : Value}
        → members_of shapes s ≡ ok members
        → get other members ≡ none
        → do_parse format r decode shapes (some s) ≡ ok v
        → (fs : Fields) × (v ≡ dict fs)
          × (find_field other fs
              ≡ find_field other
                  (field "ResponseMetadata" (dict (populate_response_metadata r.headers)) end))
    unfolding do_parse
    do_parse-keeps shapes members of_members absent returned =
        let (p, attrs, rest) =
          >>=-eq-ok
            (parse_non_payload_attrs format r members
              (field "ResponseMetadata" (dict (populate_response_metadata r.headers)) end))
            _ (rw (of_members, do_parse) at returned) in
        let (q, payload, done) = >>=-eq-ok (parse_payload format r decode s members p) _ rest in
        (
          q,
          sym (ok-inj done),
          parse_payload-keeps members p absent payload
              ∙ parse_non_payload_attrs-keeps members _ absent attrs,
        )

-- What `parse` adds to a result with metadata
pub inject_status-metadata :
    (status : ℕ) (fs metadata : Fields) {v : Value}
    → find_field "ResponseMetadata" fs ≡ some (dict metadata)
    → inject_status status (dict fs) ≡ ok v
    → (out : Fields) × (v ≡ dict out)
      × (find_field "ResponseMetadata" out
          ≡ some (dict (set_field "HTTPStatusCode" (int (pos status)) metadata)))
unfolding inject_status set_item
inject_status-metadata status fs metadata there returned =
    let done = rw (there, inject_status) at returned in
    (
      set_field "ResponseMetadata" (dict (set_field "HTTPStatusCode" (int (pos status)) metadata))
          fs,
      sym (ok-inj done),
      find_field-set_self "ResponseMetadata" _ fs,
    )

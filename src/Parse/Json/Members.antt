-- ===== src/Parse/Json/Members.antt =====
-- What a structure of a JSON document becomes.
use mathlib.Core.Path.{subst}
use jcsapitest.Prelude.{
  ℕ, String, ◌≡◌, ◌≢◌, refl, sym, ◌∙◌, ◌⊎◌, inl, inr, false, Option, none, some, [], ◌∷◌, Dict, get,
  Result, ok, Bool-cases, Option-cases, str_eq, eq_iff, eq_refl, >>=-eq-ok, ok-inj,
}
use jcsapitest.Value.{Value, Fields, null, dict, find_field}
use jcsapitest.Model.{TypeName, Shape, ShapeMap, members_of}
use jcsapitest.Parse.Json.{
  Entry, json_name, present, parse_members, parse_shape, handle_scalar, entries_of,
}
use jcsapitest.Parse.Xml.Shapes.Flattened.{Distinct}

module _ (entries : Dict Entry) where
  abbrev Round : String → Shape → Fields → Fields → Type 0
  Round k m gs fs =
      ((present (get (json_name k m) entries) ≡ none) × (fs ≡ gs))
      ⊎ ((p : Shape → Result Value) × (v : Value) × (present (get (json_name k m) entries) ≡ some p)
          × (p m ≡ ok v)
          × (fs ≡ Fields.field k v gs))

  parse_members-Round :
      (k : String) (m : Shape) (members : Dict Shape) {fs : Fields}
      → parse_members ((k, m) ∷ members) entries ≡ ok fs
      → (gs : Fields) × (parse_members members entries ≡ ok gs) × Round k m gs fs
  unfolding parse_members
  parse_members-Round k m members {fs} returned =
      elim (Option-cases (present (get (json_name k m) entries))) [
        | inl e ↦ let skipped = rw (e, parse_members) at returned in (fs, skipped, inl (e, refl))
        | inr (p, e) ↦
            let parsed = rw (e, parse_members) at returned in
            let (v, is_v, after) = >>=-eq-ok (p m) _ parsed in
            let (gs, rest, done) = >>=-eq-ok (parse_members members entries) _ after in
            (gs, rest, inr (p, v, e, is_v, sym (ok-inj done)))
      ]

  Round-keeps :
      (k name : String) (m : Shape) {gs fs : Fields}
      → str_eq k name ≡ false
      → Round k m gs fs
      → find_field name fs ≡ find_field name gs
  unfolding find_field
  Round-keeps k name m differs (inl (there, e)) = rw e refl
  Round-keeps k name m differs (inr (p, v, there, parsed, e)) = rw (e, differs) refl

  pub parse_members-absent :
      (name : String) (members : Dict Shape) {fs : Fields}
      → get name members ≡ none
      → parse_members members entries ≡ ok fs
      → find_field name fs ≡ none
  unfolding get find_field
  parse_members-absent name [] absent returned = unfold parse_members in rw (← ok-inj returned) refl
  parse_members-absent name ((k, m) ∷ members) absent returned = elim (Bool-cases (str_eq k name)) [
    | inl same ↦ let there = rw same at absent in cc
    | inr differs ↦
        let (gs, rest, round) = parse_members-Round k m members returned in
        let before = parse_members-absent name members (rw differs at absent) rest in
        Round-keeps k name m differs round ∙ before
  ]

  -- What a member gives that is called `key` in the document
  abbrev Gives : String → Shape → String → Fields → Type 0
  Gives name m key fs =
      ((present (get key entries) ≡ none) × (find_field name fs ≡ none))
      ⊎ ((p : Shape → Result Value) × (v : Value) × (present (get key entries) ≡ some p)
          × (p m ≡ ok v)
          × (find_field name fs ≡ some v))

  Round-Gives :
      (k : String) (m : Shape) {gs fs : Fields}
      → find_field k gs ≡ none
      → Round k m gs fs
      → Gives k m (json_name k m) fs
  unfolding find_field
  Round-Gives k m absent (inl (missing, e)) = inl (missing, rw e absent)
  Round-Gives k m absent (inr (p, v, there, parsed, e)) =
      inr (p, v, there, parsed, rw (e, eq_refl k) refl)

  parse_members-Gives :
      (name : String) (m : Shape) (members : Dict Shape) {fs : Fields}
      → Distinct members
      → get name members ≡ some m
      → parse_members members entries ≡ ok fs
      → Gives name m (json_name name m) fs
  unfolding get
  parse_members-Gives name m [] distinct there returned = cc
  parse_members-Gives name m ((k, m') ∷ members) {fs} distinct there returned =
      let (gs, rest, round) = parse_members-Round k m' members returned in
      elim (Bool-cases (str_eq k name)) [
        | inl same ↦
            let here : m' ≡ m = let there' = rw same at there in cc in
            let e = (eq_iff k name).0 same in
            let gives = Round-Gives k m' (parse_members-absent k members distinct.0 rest) round in
            subst (λ n. Gives n m (json_name n m) fs) e
              (subst (λ n. Gives k n (json_name k n) fs) here gives)
        | inr differs ↦
            let gives = parse_members-Gives name m members distinct.1 (rw differs at there) rest in
            rw (Round-keeps k name m' differs round) gives
      ]

module _ (shapes : ShapeMap) (parse_timestamp parse_blob : Value → Result Value) (depth : ℕ) where
  abbrev parse_as : Value → Shape → Result Value
  parse_as = parse_shape shapes parse_timestamp parse_blob depth

  abbrev entry_of : Option Value → Option Entry
  entry_of none = none
  entry_of (some v) = some (v, parse_as v)

  get-entries_of :
      (k : String) (fs : Fields)
      → get k (entries_of shapes parse_timestamp parse_blob depth fs) ≡ entry_of (find_field k fs)
  unfolding get find_field parse_shape
  get-entries_of k Fields.end = refl
  get-entries_of k (Fields.field j v fs) = elim (Bool-cases (str_eq j k)) [
    | inl same ↦ rw same refl
    | inr differs ↦ rw differs (get-entries_of k fs)
  ]

  present-none : (o : Option Value) → present (entry_of o) ≡ none → (o ≡ none) ⊎ (o ≡ some null)
  present-none none e = inl refl
  present-none (some Value.null) e = inr refl
  present-none (some v) e = cc

  present-some :
      (o : Option Value) {p : Shape → Result Value}
      → present (entry_of o) ≡ some p
      → (raw : Value) × (o ≡ some raw) × (raw ≢ null) × (parse_as raw ≡ p)
  present-some none e = cc
  present-some (some Value.null) e = cc
  present-some (some (Value.bool b)) e = (Value.bool b, refl, λ h. cc, cc)
  present-some (some (Value.int n)) e = (Value.int n, refl, λ h. cc, cc)
  present-some (some (Value.float n)) e = (Value.float n, refl, λ h. cc, cc)
  present-some (some (Value.str t)) e = (Value.str t, refl, λ h. cc, cc)
  present-some (some (Value.bytes t)) e = (Value.bytes t, refl, λ h. cc, cc)
  present-some (some (Value.list vs)) e = (Value.list vs, refl, λ h. cc, cc)
  present-some (some (Value.dict fs)) e = (dict fs, refl, λ h. cc, cc)
  present-some (some (Value.other t)) e = (Value.other t, refl, λ h. cc, cc)

  -- A JSON document that is parsed as a structure without an exception becomes a dictionary. A name that is
  -- no member's is not in it. A member whose name in the document is missing there or stands for null is
  -- not in it either; every other member is, with what its value in the document is parsed to.
  pub parse_structure :
      (s : Shape) (fs : Fields) (members : Dict Shape) (name other : String) (m : Shape) {v : Value}
      → s.type_name ≡ TypeName.structure
      → members_of shapes s ≡ ok members
      → Distinct members
      → get name members ≡ some m
      → get other members ≡ none
      → parse_shape shapes parse_timestamp parse_blob depth (dict fs) s ≡ ok v
      → (out : Fields) × (v ≡ dict out)
        × (find_field other out ≡ none)
        × ((((find_field (json_name name m) fs ≡ none)
                ⊎ (find_field (json_name name m) fs ≡ some null))
              × (find_field name out ≡ none))
            ⊎ ((raw : Value) × (w : Value) × (find_field (json_name name m) fs ≡ some raw)
                × (raw ≢ null)
                × (parse_shape shapes parse_timestamp parse_blob depth raw m ≡ ok w)
                × (find_field name out ≡ some w)))
  unfolding parse_shape
  parse_structure s fs members name other m is_structure of_members distinct there absent returned =
      let entries = entries_of shapes parse_timestamp parse_blob depth fs in
      let returned' = rw (is_structure, parse_shape, of_members) at returned in
      let (out, parsed, done) = >>=-eq-ok (parse_members members entries) _ returned' in
      (
        out,
        sym (ok-inj done),
        parse_members-absent entries other members absent parsed,
        elim (parse_members-Gives entries name m members distinct there parsed) [
          | inl (missing, none_) ↦ inl (present-none _ (rw get-entries_of at missing), none_)
          | inr (p, w, found, is_w, at_name) ↦
              let (raw, e, some_, e') = present-some _ (rw get-entries_of at found) in
              inr (raw, w, e, some_, rw e' is_w, at_name)
        ],
      )

  -- A document that is parsed as a structure is a dictionary, and has no other names than the members'.
  pub parse_structure-absent :
      (s : Shape) (v : Value) (members : Dict Shape) (name : String) {w : Value}
      → s.type_name ≡ TypeName.structure
      → members_of shapes s ≡ ok members
      → get name members ≡ none
      → parse_shape shapes parse_timestamp parse_blob depth v s ≡ ok w
      → (out : Fields) × (w ≡ dict out) × (find_field name out ≡ none)
  unfolding parse_shape handle_scalar
  parse_structure-absent s (Value.dict fs) members name is_structure of_members absent returned =
      let entries = entries_of shapes parse_timestamp parse_blob depth fs in
      let returned' = rw (is_structure, parse_shape, of_members) at returned in
      let (out, parsed, done) = >>=-eq-ok (parse_members members entries) _ returned' in
      (out, sym (ok-inj done), parse_members-absent entries name members absent parsed)
  parse_structure-absent s (Value.list vs) members name is_structure of_members absent returned =
      let raised = rw (is_structure, parse_shape, handle_scalar) at returned in cc
  parse_structure-absent s v members name is_structure of_members absent returned =
      let raised = rw (is_structure, parse_shape, handle_scalar) at returned in cc

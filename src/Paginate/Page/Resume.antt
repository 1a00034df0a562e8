-- ===== src/Paginate/Page/Resume.antt =====
-- A page that botocore/paginate.py cuts, and the same page that is asked for again with the resume token.
use jcsapitest.Prelude.{
  ℕ, zero, suc, String, ◌≡◌, refl, ap, some, List, [], ◌∷◌, ◌++◌, length, arith, ok, >>=-eq-ok,
  ok-inj, sym,
}
use jcsapitest.Value.Int.{ℤ, pos}
use jcsapitest.Value.{
  Value, Items, list, cons, str, count_items, take_items, drop_items, append_items,
}
use jcsapitest.Text.{show_int}
use jcsapitest.Utils.{split_dot, set_value_from_jmespath}
use jcsapitest.Utils.Dotted.{AreKeys, dotted-set_value, set_value-any}
use jcsapitest.Paginate.Slices.{plus_ℤ, minus_ℤ, slice_to, slice_from}
use jcsapitest.Paginate.Tokens.{resume_text, parse_starting_token}
use jcsapitest.Paginate.Tokens.RoundTrip.{AllTokens, parse_starting_token-resume_text}
use jcsapitest.Paginate.State.{PageIterator, PageState, found_slice}
use jcsapitest.Paginate.Page.{set_empty, handle_first_request, truncate_response}
use jcsapitest.Paginate.Page.Counts.{LooksUp}

append_items-take_items :
    (n : ℕ) (vs : Items) → append_items (take_items n vs) (drop_items n vs) ≡ vs
unfolding append_items take_items drop_items
append_items-take_items zero vs = refl
append_items-take_items (suc n) Items.nil = refl
append_items-take_items (suc n) (Items.cons v vs) =
    ap (λ rest. cons v rest) (append_items-take_items n vs)

module _ (search : String → Value → Value) (to_text : Value → String) (it : PageIterator)
    (looks_up : LooksUp search) (keys : AreKeys (split_dot it.primary_result_key)) where
  -- What is set under the primary result key is found there.
  search-set_value :
      (source out v : Value)
      → set_value_from_jmespath source it.primary_result_key v ≡ ok out
      → search it.primary_result_key out ≡ v
  search-set_value source out v h = cc (
    looks_up it.primary_result_key out keys,
    dotted-set_value source it.primary_result_key v out keys h,
  )

  -- The rest of a page, from the index in a starting token
  handle_first_request-rest :
      (parsed out : Value) (items : Items) (token : String) (tokens : List Value) (n : ℕ)
      → search it.primary_result_key parsed ≡ list items
      → it.secondary_result_keys ≡ []
      → parse_starting_token (length it.input_token) token ≡ ok (tokens, pos n)
      → set_value_from_jmespath parsed it.primary_result_key (list (drop_items n items)) ≡ ok out
      → handle_first_request search to_text it token parsed ≡ ok (out, pos n)
  unfolding handle_first_request found_slice slice_from set_empty
  handle_first_request-rest parsed out items token tokens n found alone parse set =
      rw (handle_first_request, parse, found, found_slice, slice_from, set, alone, set_empty) refl

  plus-zero : (n : ℕ) → plus_ℤ (pos n) (pos 0) ≡ pos n
  plus-zero n = ground arith

  -- What a cut leaves in the state: the token to resume, made of the tokens and the number kept.
  cut-resume_token :
      (st : PageState) (parsed cut : Value) (items : Items) (amount : ℤ) (n : ℕ) (st' : PageState)
      → minus_ℤ (pos (count_items items)) amount ≡ pos n
      → st.starting_truncation ≡ pos 0
      → truncate_response search to_text it st parsed items amount ≡ ok (cut, st')
      → (set_value_from_jmespath parsed it.primary_result_key (list (take_items n items)) ≡ ok cut)
        × (st'.resume_token
            ≡ some (resume_text to_text (st.next_token ++ str (show_int (pos n)) ∷ [])))
  unfolding truncate_response slice_to
  cut-resume_token st parsed cut items amount n st' keep start h =
      let kept = slice_to items (minus_ℤ (pos (count_items items)) amount) in
      let (truncated, set, h₁) =
        >>=-eq-ok (set_value_from_jmespath parsed it.primary_result_key (list kept)) _ h in
      let e = ok-inj h₁ in
      let same : truncated ≡ cut = ap (λ p. p.0) e in
      let take : kept ≡ take_items n items = rw (keep) refl in
      let index : plus_ℤ (minus_ℤ (pos (count_items items)) amount) st.starting_truncation ≡ pos n =
        rw (keep, start) (plus-zero n) in
      let token = ap (λ p. p.1.resume_token) e in (cc (set, same, take), rw (index) at (sym token))

  -- Let JMESPath look up the names of an expression of identifiers with dots one after the other, let the
  -- primary result key be such an expression and the only result key, and let the page be one that no
  -- starting token has cut at its start. If a page is cut after its first n items by the maximum,
  -- where the current tokens are None or texts that come back, then asking for the same page with the
  -- resume token as the starting token succeeds, and the items of the cut page with those of the
  -- page that is then handed out are all items of the page, in order.
  pub truncate_response-resume :
      (st : PageState) (parsed cut : Value) (items : Items) (amount : ℤ) (n : ℕ) (st' : PageState)
      (v : Value) (vs : List Value)
      → it.secondary_result_keys ≡ []
      → length it.input_token ≡ length (v ∷ vs)
      → st.next_token ≡ v ∷ vs
      → AllTokens (v ∷ vs)
      → st.starting_truncation ≡ pos 0
      → search it.primary_result_key parsed ≡ list items
      → minus_ℤ (pos (count_items items)) amount ≡ pos n
      → truncate_response search to_text it st parsed items amount ≡ ok (cut, st')
      → (token : String) × (rest : Value) × (kept : Items) × (left : Items) × (st'.resume_token
          ≡ some token)
        × (handle_first_request search to_text it token parsed ≡ ok (rest, pos n))
        × (search it.primary_result_key cut ≡ list kept)
        × (search it.primary_result_key rest ≡ list left)
        × (append_items kept left ≡ items)
  truncate_response-resume st parsed cut items amount n st' v vs alone count next tokens start found
        keep h =
      let (set, token) = cut-resume_token st parsed cut items amount n st' keep start h in
      let text = resume_text to_text (v ∷ vs ++ str (show_int (pos n)) ∷ []) in
      let (rest, set') =
        set_value-any parsed it.primary_result_key (list (take_items n items))
          (list (drop_items n items)) cut set in
      let parse : parse_starting_token (length it.input_token) text ≡ ok (v ∷ vs, pos n) =
        rw (count) (parse_starting_token-resume_text to_text v vs n tokens).1 in
      (
        text,
        rest,
        take_items n items,
        drop_items n items,
        rw (next) at token,
        handle_first_request-rest parsed rest items text (v ∷ vs) n found alone parse set',
        search-set_value parsed cut (list (take_items n items)) set,
        search-set_value parsed rest (list (drop_items n items)) set',
        append_items-take_items n items,
      )

-- ===== src/Paginate/Page/Counts.antt =====
-- How many items a page of botocore/paginate.py has, and how the count and the resume token go on.
use jcsapitest.Prelude.{
  ℕ, zero, suc, ◌+◌, ◌-◌, ◌≤◌, String, ◌≡◌, ◌⊎◌, inl, inr, refl, sym, ◌∙◌, Bool, true, false,
  Bool-cases, none, some, List, if◌then◌else◌, arith, ok, raise, >>=-eq-ok, ok-inj, ap,
}
use jcsapitest.Value.Int.{ℤ, pos, int_eq, ltb_ℤ}
use jcsapitest.Value.{Value, Items, list, dict, end, count_items, take_items}
use jcsapitest.Utils.{split_dot, set_value_from_jmespath}
use jcsapitest.Utils.Dotted.{dotted, AreKeys, dotted-set_value}
use jcsapitest.Paginate.Slices.{minus_ℤ, slice_to}
use jcsapitest.Paginate.State.{PageIterator, PageState, End, found_items, all_none, is_previous}
use jcsapitest.Paginate.Page.{
  receive, receive_first, start_page, non_aggregate_values, truncate_amount, truncate_response,
  reaches, follow, get_next_token, finish_page, round,
}

count_items-take_items :
    (n : ℕ) (vs : Items) → n ≤ count_items vs → count_items (take_items n vs) ≡ n
unfolding count_items take_items
count_items-take_items zero vs h = refl
count_items-take_items (suc n) Items.nil h = absurd (omega arith)
count_items-take_items (suc n) (Items.cons v vs) h =
    omega (arith, count_items-take_items n vs (omega arith))

-- JMESPath: an expression of identifiers with dots between them looks the names up one after the other.
abbrev pub LooksUp : (String → Value → Value) → Type 0
LooksUp search =
    (e : String) (v : Value) → AreKeys (split_dot e) → search e v ≡ dotted (split_dot e) v

module _ (search : String → Value → Value) (to_text : Value → String) (it : PageIterator) where
  -- The number of items that a page has under the primary result key
  unfoldable pub page_count : Value → ℕ
  unfolding found_items count_items
  page_count page = elim (found_items (search it.primary_result_key page)) [
    | ok items ↦ count_items items
    | raise e ↦ 0
  ]

  follow-total_items :
      (st : PageState) (total : ℕ) (next : List Value)
      → (follow search to_text it st total next).0.total_items ≡ total
  unfolding follow
  follow-total_items st total next = ground arith

  -- The state between two pages: nothing to resume, and the total is within the maximum.
  abbrev pub Within : ℕ → PageState → Type 0
  Within m st = (st.total_items ≤ m) × (st.resume_token ≡ none)

  -- A total behind a page: within the maximum, and the maximum itself when there is a token to resume.
  abbrev pub Counted : (m total : ℕ) → PageState → Type 0
  Counted m total st = (total ≤ m) × ((st.resume_token ≡ none) ⊎ (total ≡ m))

  reaches-eq :
      (m total : ℕ)
      → it.max_items ≡ some (pos m)
      → reaches search to_text it total ≡ true
      → total ≡ m
  unfolding int_eq
  reaches-eq m total k h = let test = rw (k) at h in ground arith

  follow-Counted :
      (m : ℕ) (st : PageState) (total : ℕ) (next : List Value)
      → it.max_items ≡ some (pos m)
      → total ≤ m
      → st.resume_token ≡ none
      → Counted m total (follow search to_text it st total next).0
        × (((follow search to_text it st total next).1 ≡ none)
            → Within m (follow search to_text it st total next).0)
  unfolding follow
  follow-Counted m st total next k le fresh = elim (Bool-cases (all_none next)) [
    | inl done ↦ rw (done, follow) ((le, inl fresh), (λ h. cc))
    | inr more ↦ elim (Bool-cases (reaches search to_text it total)) [
      | inl full ↦ rw (more, full, follow) ((le, inr (reaches-eq m total k full)), (λ h. cc))
      | inr room ↦ elim (Bool-cases (is_previous st.previous_next_token next)) [
        | inl again ↦ rw (more, room, again, follow) ((le, inl fresh), (λ h. cc))
        | inr new ↦ rw (more, room, new, follow) ((le, inl fresh), (λ h. (le, fresh)))
      ]
    ]
  ]

  -- The first response changes neither the total nor the token to resume.
  abbrev Same : PageState → PageState → Type 0
  Same st st' = (st'.total_items ≡ st.total_items) × (st'.resume_token ≡ st.resume_token)

  receive_first-Same :
      (st : PageState) (response page : Value) (st' : PageState)
      → receive_first search to_text it st response ≡ ok (page, st')
      → Same st st'
  unfolding receive_first
  receive_first-Same st response page st' h =
      let (start, e₁, h₁) = >>=-eq-ok (start_page search to_text it response) _ h in
      let (part, e₂, h₂) =
        >>=-eq-ok (non_aggregate_values search to_text it it.non_aggregate_keys start.0 (dict end))
          _ h₁ in
      let e = ok-inj h₂ in (ap (λ p. p.1.total_items) (sym e), ap (λ p. p.1.resume_token) (sym e))

  received-Same :
      (first : Bool) (st : PageState) (response page : Value) (st' : PageState)
      → (if first then receive_first search to_text it st response else ok (response, st))
        ≡ ok (page, st')
      → Same st st'
  received-Same true st response page st' h = receive_first-Same st response page st' h
  received-Same false st response page st' h =
      let e = ok-inj h in (ap (λ p. p.1.total_items) (sym e), ap (λ p. p.1.resume_token) (sym e))

  receive-Same :
      (st : PageState) (response page : Value) (st' : PageState)
      → receive search to_text it st response ≡ ok (page, st')
      → Same st st'
  unfolding receive
  receive-Same st response page st' h = received-Same st.first_request st response page st' h

  page_count-found :
      (page : Value) (items : Items)
      → found_items (search it.primary_result_key page) ≡ ok items
      → page_count page ≡ count_items items
  unfolding page_count
  page_count-found page items h = rw (h, page_count) refl

  module _ (looks_up : LooksUp search) (keys : AreKeys (split_dot it.primary_result_key)) where
    page_count-truncate_response :
        (st : PageState) (parsed : Value) (items : Items) (amount : ℤ) (n : ℕ) (page : Value)
        (st' : PageState)
        → minus_ℤ (pos (count_items items)) amount ≡ pos n
        → n ≤ count_items items
        → truncate_response search to_text it st parsed items amount ≡ ok (page, st')
        → page_count page ≡ n
    unfolding truncate_response slice_to found_items
    page_count-truncate_response st parsed items amount n page st' k le h =
        let cut = slice_to items (minus_ℤ (pos (count_items items)) amount) in
        let (truncated, set, h₁) =
          >>=-eq-ok (set_value_from_jmespath parsed it.primary_result_key (list cut)) _ h in
        let e = ok-inj h₁ in
        let same : truncated ≡ page = ap (λ p. p.0) e in
        let stored = dotted-set_value parsed it.primary_result_key (list cut) truncated keys set in
        let found : search it.primary_result_key page ≡ list cut =
          cc (looks_up it.primary_result_key page keys, same, stored) in
        let items_there : found_items (search it.primary_result_key page) ≡ ok cut =
          rw (found) refl in
        let kept : cut ≡ take_items n items = rw (k) refl in
        cc (page_count-found page cut items_there, kept, count_items-take_items n items le)

    amount_over :
        (m total n : ℕ)
        → ltb_ℤ (pos 0) (minus_ℤ (pos (total + n)) (pos m)) ≡ true
        → total ≤ m
        → (minus_ℤ (pos n) (minus_ℤ (pos (total + n)) (pos m)) ≡ pos (m - total)) × (m - total ≤ n)
    amount_over m total n over le = ground arith

    amount_room :
        (m total n : ℕ) → ltb_ℤ (pos 0) (minus_ℤ (pos (total + n)) (pos m)) ≡ false → total + n ≤ m
    amount_room m total n room = ground arith

    -- The same, for a state and an end that are known to be equal.
    followed-Counted :
        (m total : ℕ) (f : PageState × End) (st' : PageState) (last : End)
        → f.0 ≡ st'
        → f.1 ≡ last
        → Counted m total f.0 × ((f.1 ≡ none) → Within m f.0)
        → f.0.total_items ≡ total
        → Counted m total st' × ((last ≡ none) → Within m st' × (st'.total_items ≡ total))
    followed-Counted m total f st' last a b c t = rw (sym a, sym b) (c.0, (λ more. (c.1 more, t)))

    finish_page-Counted :
        (m : ℕ) (st : PageState) (parsed : Value) (items : Items) (page : Value) (st' : PageState)
        (last : End)
        → it.max_items ≡ some (pos m)
        → Within m st
        → found_items (search it.primary_result_key parsed) ≡ ok items
        → finish_page search to_text it st parsed items ≡ ok (page, st', last)
        → Counted m (page_count page + st.total_items) st'
          × ((last ≡ none) → Within m st' × (st'.total_items ≡ page_count page + st.total_items))
    unfolding finish_page
    finish_page-Counted m st parsed items page st' last k within found h =
        let n = count_items items in
        let amount = truncate_amount search to_text it st.total_items n in
        let known : amount ≡ minus_ℤ (pos (st.total_items + n)) (pos m) = rw (k) refl in
        elim (Bool-cases (ltb_ℤ (pos 0) amount)) [
          | inl over ↦
              let (keep, le) = amount_over m st.total_items n (rw (known) at over) within.0 in
              let kept : minus_ℤ (pos n) amount ≡ pos (m - st.total_items) = cc (known, keep) in
              let (cut, e₁, h₁) =
                >>=-eq-ok (truncate_response search to_text it st parsed items amount) _
                  (rw (over, finish_page) at h) in
              let e = ok-inj h₁ in
              let same : cut.0 ≡ page = ap (λ p. p.0) e in
              let ended : some (ok tt) ≡ last = ap (λ p. p.2) e in
              let count =
                page_count-truncate_response st parsed items amount (m - st.total_items) cut.0 cut.1
                  kept le e₁ in
              let count' : page_count page ≡ m - st.total_items = cc in
              let filled : page_count page + st.total_items ≡ m = omega arith in
              ((omega arith, inr filled), (λ more. cc))
          | inr room ↦
              let fits = amount_room m st.total_items n (rw (known) at room) in
              let total = st.total_items + n in
              let next = get_next_token search to_text it parsed in
              let c = follow-Counted m st total next k fits within.1 in
              let e = ok-inj (rw (room, finish_page) at h) in
              let same : parsed ≡ page = ap (λ p. p.0) e in
              let state : (follow search to_text it st total next).0 ≡ st' = ap (λ p. p.1) e in
              let ended : (follow search to_text it st total next).1 ≡ last = ap (λ p. p.2) e in
              let count = page_count-found parsed items found in
              let count' : page_count page ≡ n = cc in
              let counted : page_count page + st.total_items ≡ total = omega arith in
              rw (counted) (
                followed-Counted m total (follow search to_text it st total next) st' last state
                  ended c (follow-total_items st total next))
        ]

    pub round-Counted :
        (m : ℕ) (st : PageState) (response page : Value) (st' : PageState) (last : End)
        → it.max_items ≡ some (pos m)
        → Within m st
        → round search to_text it st response ≡ ok (page, st', last)
        → Counted m (page_count page + st.total_items) st'
          × ((last ≡ none) → Within m st' × (st'.total_items ≡ page_count page + st.total_items))
    unfolding round
    round-Counted m st response page st' last k within h =
        let (received, e₁, h₁) = >>=-eq-ok (receive search to_text it st response) _ h in
        let (items, e₂, h₂) =
          >>=-eq-ok (found_items (search it.primary_result_key received.0)) _ h₁ in
        let (total, token) = receive-Same st response received.0 received.1 e₁ in
        let still : Within m received.1 = (omega (arith, within.0, total), token ∙ within.1) in
        rw (sym total)
          (finish_page-Counted m received.1 received.0 items page st' last k still e₂ h₂)

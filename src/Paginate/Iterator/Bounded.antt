-- ===== src/Paginate/Iterator/Bounded.antt =====
-- The pages of botocore/paginate.py never have more items than the maximum that was asked for.
use jcsapitest.Prelude.{
  ℕ, zero, suc, ◌+◌, ◌≤◌, String, ◌≡◌, ◌⊎◌, inl, inr, refl, sym, none, some, List, [], ◌∷◌, arith,
  Result, Result-cases, ◌>>=◌, >>=-eq-ok,
}
use jcsapitest.Value.Int.{pos}
use jcsapitest.Value.{Value, Fields}
use jcsapitest.Utils.{split_dot}
use jcsapitest.Utils.Dotted.{AreKeys}
use jcsapitest.Paginate.State.{PageIterator, PageState}
use jcsapitest.Paginate.Page.{round}
use jcsapitest.Paginate.Page.Counts.{LooksUp, page_count, Within, Counted, round-Counted}
use jcsapitest.Paginate.Iterator.{loop, iterate, initial_state, inject_starting_params}

module _ (search : String → Value → Value) (to_text : Value → String) (it : PageIterator) where
  -- The items of all pages
  unfoldable pub all_items : List Value → ℕ
  unfolding page_count
  all_items [] = 0
  all_items (page ∷ pages) = page_count search to_text it page + all_items pages

  module _ (looks_up : LooksUp search) (keys : AreKeys (split_dot it.primary_result_key))
      (method : ℕ → Fields → Result Value) (m : ℕ) (maximum : it.max_items ≡ some (pos m)) where
    Counted-same :
        (a b : ℕ) (st : PageState)
        → a ≡ b
        → Counted search to_text it m a st
        → Counted search to_text it m b st
    Counted-same a b st e c = rw (sym e) c

    Within-Counted :
        (st : PageState)
        → Within search to_text it m st
        → Counted search to_text it m (0 + st.total_items) st
    Within-Counted st within = (omega (arith, within.0), inl within.1)

    loop-Counted :
        (fuel n : ℕ) (st : PageState)
        → Within search to_text it m st
        → Counted search to_text it m
            (all_items (loop search to_text it method fuel n st).pages + st.total_items)
            (loop search to_text it method fuel n st).state
    unfolding loop all_items
    loop-Counted zero n st within = Within-Counted st within
    loop-Counted (suc fuel) n st within =
        elim (Result-cases
          (method n st.current_kwargs >>= λ response. round search to_text it st response)) [
            | inl (x, e) ↦ rw (e, loop) (Within-Counted st within)
            | inr ((page, st', some r), e) ↦
                let (response, e₁, h) = >>=-eq-ok (method n st.current_kwargs) _ e in
                let c =
                  round-Counted search to_text it looks_up keys m st response page st' (some r)
                    maximum within h in
                rw (e, loop) (Counted-same _ _ st' (omega arith) c.0)
            | inr ((page, st', none), e) ↦
                let (response, e₁, h) = >>=-eq-ok (method n st.current_kwargs) _ e in
                let c =
                  round-Counted search to_text it looks_up keys m st response page st' none maximum
                    within h in
                let (within', total) = c.1 refl in
                let ih = loop-Counted fuel (suc n) st' within' in
                rw (e, loop)
                  (Counted-same _ _ (loop search to_text it method fuel (suc n) st').state
                    (omega arith) ih)
          ]

    -- Let JMESPath look up the names of an expression of identifiers with dots one after the other, and let
    -- the primary result key be such an expression. With a maximum of m items, whatever the service
    -- answers, with a starting token or without one, the pages that were yielded at any point have at
    -- most m items under that key; and once there is a token to resume, they have m items.
    pub iterate_bound :
        (fuel : ℕ) (op_kwargs : Fields)
        → (all_items (iterate search to_text it fuel method op_kwargs).pages ≤ m)
          × (((iterate search to_text it fuel method op_kwargs).state.resume_token ≡ none)
              ⊎ (all_items (iterate search to_text it fuel method op_kwargs).pages ≡ m))
    unfolding iterate all_items
    iterate_bound fuel op_kwargs =
        elim (Result-cases (inject_starting_params search to_text it op_kwargs)) [
          | inl (x, e) ↦ rw (e, iterate) (omega arith, inl refl)
          | inr (kwargs, e) ↦
              let st = initial_state search to_text it kwargs in
              let c = loop-Counted fuel 0 st (omega arith, refl) in
              rw (e, iterate)
                (Counted-same _ _ (loop search to_text it method fuel 0 st).state (omega arith) c)
        ]

-- ===== src/Sign/Order.antt =====
-- The signature of botocore/auth.py does not depend on the order of the parameters.
use jcsapitest.Prelude.{
  String, ◌≡◌, ◌≢◌, refl, sym, ap, ◌∙◌, inl, inr, true, false, Bool-cases, List, [], ◌∷◌, Dict,
}
use jcsapitest.Value.{Value}
use jcsapitest.Text.Sorted.{text_leb, text_leb_total, text_leb_antisym, text_leb_trans}
use jcsapitest.Sign.{Entry, insert, sorted, Credentials, Target, calc_signature}

insert-front :
    (p q : Entry) (ps : List Entry) → text_leb p.0 q.0 ≡ true → insert p (q ∷ ps) ≡ p ∷ q ∷ ps
unfolding insert
insert-front p q ps h = rw (h) refl

insert-behind :
    (p q : Entry) (ps : List Entry) → text_leb p.0 q.0 ≡ false → insert p (q ∷ ps) ≡ q ∷ insert p ps
unfolding insert
insert-behind p q ps h = rw (h) refl

-- An entry that stands in front of another one and of what follows it.
insert_first :
    (a b : Entry) (ps : List Entry)
    → text_leb a.0 b.0 ≡ true
    → text_leb b.0 a.0 ≡ false
    → ((qs : List Entry) × (insert b ps ≡ b ∷ qs))
    → insert a ps ≡ a ∷ ps
    → insert a (insert b ps) ≡ insert b (insert a ps)
insert_first a b ps ab not_ba (qs, e) front =
    cc (e, front, insert-front a b qs ab, insert-behind b a ps not_ba)

-- An entry that stands in front of q, and one that stands behind it
behind :
    (a b q : Entry) (ps : List Entry)
    → text_leb a.0 q.0 ≡ true
    → text_leb b.0 q.0 ≡ false
    → insert a (insert b (q ∷ ps)) ≡ insert b (insert a (q ∷ ps))
behind a b q ps aq not_bq = elim (Bool-cases (text_leb b.0 a.0)) [
  | inl ba ↦ let bq = text_leb_trans b.0 a.0 q.0 ba aq in cc
  | inr not_ba ↦ cc (
    insert-behind b q ps not_bq,
    insert-front a q (insert b ps) aq,
    insert-front a q ps aq,
    insert-behind b a (q ∷ ps) not_ba,
  )
]

-- Two entries with other keys can be inserted in either order.
insert_comm :
    (a b : Entry) (ps : List Entry) → a.0 ≢ b.0 → insert a (insert b ps) ≡ insert b (insert a ps)
unfolding insert
insert_comm a b [] other = elim (Bool-cases (text_leb a.0 b.0)) [
  | inl ab ↦ elim (Bool-cases (text_leb b.0 a.0)) [
    | inl ba ↦ absurd (other (text_leb_antisym a.0 b.0 ab ba))
    | inr not_ba ↦ rw (ab, not_ba) refl
  ]
  | inr not_ab ↦ rw (not_ab, text_leb_total a.0 b.0 not_ab) refl
]
insert_comm a b (q ∷ ps) other = elim (Bool-cases (text_leb a.0 q.0)) [
  | inl aq ↦ elim (Bool-cases (text_leb b.0 q.0)) [
    | inl bq ↦
        let fa = insert-front a q ps aq in
        let fb = insert-front b q ps bq in
        elim (Bool-cases (text_leb a.0 b.0)) [
          | inl ab ↦ elim (Bool-cases (text_leb b.0 a.0)) [
            | inl ba ↦ absurd (other (text_leb_antisym a.0 b.0 ab ba))
            | inr not_ba ↦ insert_first a b (q ∷ ps) ab not_ba (q ∷ ps, fb) fa
          ]
          | inr not_ab ↦
              sym (insert_first b a (q ∷ ps) (text_leb_total a.0 b.0 not_ab) not_ab (q ∷ ps, fa) fb)
        ]
    | inr not_bq ↦ behind a b q ps aq not_bq
  ]
  | inr not_aq ↦ elim (Bool-cases (text_leb b.0 q.0)) [
    | inl bq ↦ sym (behind b a q ps bq not_aq)
    | inr not_bq ↦ cc (
      insert-behind a q ps not_aq,
      insert-behind b q ps not_bq,
      insert-behind a q (insert b ps) not_aq,
      insert-behind b q (insert a ps) not_bq,
      insert_comm a b ps other,
    )
  ]
]

-- The same entries in another order, where entries that change places have other keys: all orders of a
-- dictionary's entries.
pub data Reorders : Dict Value → Dict Value → Type 0 where
  same : {ps : Dict Value} → Reorders ps ps
  keep : {ps qs : Dict Value} (p : Entry) → Reorders ps qs → Reorders (p ∷ ps) (p ∷ qs)
  swap : {ps : Dict Value} (p q : Entry) → p.0 ≢ q.0 → Reorders (p ∷ q ∷ ps) (q ∷ p ∷ ps)
  thereupon : {ps qs rs : Dict Value} → Reorders ps qs → Reorders qs rs → Reorders ps rs

sorted-Reorders : (ps qs : Dict Value) → Reorders ps qs → sorted ps ≡ sorted qs
unfolding sorted
sorted-Reorders ps qs same = refl
sorted-Reorders ps qs (keep p r) = ap (insert p) (sorted-Reorders _ _ r)
sorted-Reorders ps qs (swap {ps = rest} p q other) = insert_comm p q (sorted rest) other
sorted-Reorders ps qs (thereupon r r') = sorted-Reorders _ _ r ∙ sorted-Reorders _ _ r'

-- The query string and the signature are the same for all orders of the parameters.
pub calc_signature-Reorders :
    (quote_key quote_value : String → String) (text_type : Value → String)
    (hmac_sha256 : String → String → String) (credentials : Credentials) (t : Target)
    (ps qs : Dict Value)
    → Reorders ps qs
    → calc_signature quote_key quote_value text_type hmac_sha256 credentials t ps
      ≡ calc_signature quote_key quote_value text_type hmac_sha256 credentials t qs
unfolding calc_signature
calc_signature-Reorders quote_key quote_value text_type hmac_sha256 credentials t ps qs r =
    rw (calc_signature, sorted-Reorders ps qs r) refl

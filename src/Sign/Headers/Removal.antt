-- ===== src/Sign/Headers/Removal.antt =====
-- What removing headers does to lists of them.
use jcsapitest.Prelude.{
  String, false, ◌||◌, ◌≡◌, refl, ap, ◌∙◌, List, [], ◌∷◌, ◌++◌, str_eq, eq_iff, arith,
}
use jcsapitest.Text.Case.{lower}
use jcsapitest.Sign.Headers.{Headers, has_header, remove_header}

pub remove_header-append :
    (name : String) (xs ys : Headers)
    → remove_header name (xs ++ ys) ≡ remove_header name xs ++ remove_header name ys
unfolding remove_header
remove_header-append name [] ys = refl
remove_header-append name ((k, v) ∷ xs) ys = ground (arith, remove_header-append name xs ys)

pub remove_header_comm :
    (a b : String) (xs : Headers)
    → remove_header a (remove_header b xs) ≡ remove_header b (remove_header a xs)
unfolding remove_header
remove_header_comm a b [] = refl
remove_header_comm a b ((k, v) ∷ xs) = ground (arith, remove_header_comm a b xs)

pub remove_header_idem :
    (a : String) (xs : Headers) → remove_header a (remove_header a xs) ≡ remove_header a xs
unfolding remove_header
remove_header_idem a [] = refl
remove_header_idem a ((k, v) ∷ xs) = ground (arith, remove_header_idem a xs)

pub has_header-append :
    (name : String) (xs ys : Headers)
    → has_header name (xs ++ ys) ≡ (has_header name xs || has_header name ys)
unfolding has_header
has_header-append name [] ys = refl
has_header-append name ((k, v) ∷ xs) ys = ground (arith, has_header-append name xs ys)

pub has_header-remove_other :
    (a b : String) (xs : Headers)
    → str_eq a b ≡ false
    → has_header b (remove_header a xs) ≡ has_header b xs
unfolding has_header remove_header
has_header-remove_other a b [] differs = refl
has_header-remove_other a b ((k, v) ∷ xs) differs = ground (
  arith,
  has_header-remove_other a b xs differs,
  eq_iff (lower k) a,
  eq_iff (lower k) b,
  eq_iff a b,
)

-- del headers[name] for several names, the last one first
abbrev pub remove_all : List String → Headers → Headers
remove_all [] xs = xs
remove_all (n ∷ ns) xs = remove_header n (remove_all ns xs)

pub remove_all-append :
    (ns : List String) (xs ys : Headers)
    → remove_all ns (xs ++ ys) ≡ remove_all ns xs ++ remove_all ns ys
remove_all-append [] xs ys = refl
remove_all-append (n ∷ ns) xs ys =
    ap (remove_header n) (remove_all-append ns xs ys)
    ∙ remove_header-append n (remove_all ns xs) (remove_all ns ys)

pub remove_all_comm :
    (n : String) (ns : List String) (xs : Headers)
    → remove_all ns (remove_header n xs) ≡ remove_header n (remove_all ns xs)
remove_all_comm n [] xs = refl
remove_all_comm n (m ∷ ns) xs =
    ap (remove_header m) (remove_all_comm n ns xs) ∙ remove_header_comm m n (remove_all ns xs)

pub remove_all_idem :
    (ns : List String) (xs : Headers) → remove_all ns (remove_all ns xs) ≡ remove_all ns xs
remove_all_idem [] xs = refl
remove_all_idem (n ∷ ns) xs =
    ap (remove_header n) (remove_all_comm n ns (remove_all ns xs))
    ∙ (remove_header_idem n (remove_all ns (remove_all ns xs))
        ∙ ap (remove_header n) (remove_all_idem ns xs))

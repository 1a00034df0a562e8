-- ===== src/Functional/Trash/Order.antt =====
-- The order in which `cleanUp` of jcsapi/tests/functional/base.py runs the entries of a trash bin.
use jcsapitest.Prelude.{
  ℕ, suc, ◌+◌, ◌≡◌, inl, inr, refl, sym, ap, ◌∙◌, String, List, [], ◌∷◌, arith, Option-cases,
  Result, ok, raise,
}
use jcsapitest.Functional.States.{Reply}
use jcsapitest.Value.{Value}
use jcsapitest.Functional.Trash.Bins.{
  Rises, Falls, Found, newest_first, remove_all, put_at-Rises, put_at-newest, remove_at-Rises,
  remove_at-newest, remove_at-missing, sorted_down-newest, Rises-Falls, Rises-Found,
  Found-remove_at, remove_all-newest,
}
use jcsapitest.Functional.Trash.{
  Cleanup, Bin, TestCase, set_up, get_at, remove_at, add_resource_clean_up,
  cancel_resource_clean_up, keys, failed, clean_up_from, clean_up,
}

-- What a test does with its bin.
pub data Operation : Type 0 where
  adds : Cleanup → Operation
  cancels : ℕ → Operation

-- A cancellation of a key that is not there raises, and leaves the test case as it is.
unfoldable pub perform : Operation → TestCase → TestCase
unfolding add_resource_clean_up cancel_resource_clean_up
perform (adds c) t = (add_resource_clean_up c t).0
perform (cancels k) t = elim (cancel_resource_clean_up k t) [ raise e ↦ t | ok t' ↦ t' ]

unfoldable pub perform_all : List Operation → TestCase → TestCase
unfolding perform
perform_all [] t = t
perform_all (op ∷ ops) t = perform_all ops (perform op t)

-- The same on a stack with the newest entry on top: the entries that are pending, with their keys.
abbrev pub count_after : Operation → ℕ → ℕ
count_after (adds c) n = suc n
count_after (cancels k) n = n

abbrev pub stack_after : Operation → ℕ → Bin → Bin
stack_after (adds c) n stack = (n, c) ∷ stack
stack_after (cancels k) n stack = remove_at k stack

abbrev pub pending : List Operation → ℕ → Bin → Bin
pending [] n stack = stack
pending (op ∷ ops) n stack = pending ops (count_after op n) (stack_after op n stack)

abbrev pub entries : Bin → List Cleanup
entries [] = []
entries ((k, c) ∷ b) = c ∷ entries b

-- The bin of a test case holds the pending entries, oldest first, with keys below the next one.
record Keeps (t : TestCase) (n : ℕ) (stack : Bin) : Type 0 where
  rises : Rises 0 n t.bin
  next_is : t.next ≡ n
  newest : newest_first t.bin ≡ stack

cancels-Keeps :
    (j : ℕ) (t : TestCase) (n : ℕ) (stack : Bin)
    → Keeps t n stack
    → Keeps (perform (cancels j) t) n (remove_at j stack)
unfolding perform cancel_resource_clean_up
cancels-Keeps j t n stack k = elim (Option-cases (get_at j t.bin)) [
  | inl missing ↦
      rw (missing, perform)
        (record {
          rises = k.rises;
          next_is = k.next_is;
          newest =
              k.newest
              ∙ sym (
                  rw (← k.newest) (
                    sym (remove_at-newest j t.bin)
                    ∙ ap newest_first (remove_at-missing j t.bin missing)));
        })
  | inr (c, there) ↦
      rw (there, perform)
        (record {
          rises = remove_at-Rises 0 n j t.bin k.rises;
          next_is = k.next_is;
          newest = remove_at-newest j t.bin ∙ ap (remove_at j) k.newest;
        })
]

perform-Keeps :
    (op : Operation) (t : TestCase) (n : ℕ) (stack : Bin)
    → Keeps t n stack
    → Keeps (perform op t) (count_after op n) (stack_after op n stack)
unfolding perform
perform-Keeps (adds c) t n stack k = record {
  rises = rw (k.next_is) (put_at-Rises 0 n c t.bin k.rises);
  next_is = ap suc k.next_is;
  newest =
      rw (k.next_is) (put_at-newest 0 n c t.bin k.rises ∙ ap (λ (s : Bin). (n, c) ∷ s) k.newest);
}
perform-Keeps (cancels j) t n stack k = cancels-Keeps j t n stack k

-- The bin after the operations: its keys rise, and it is the pending stack, oldest first.
perform_all-Keeps :
    (ops : List Operation) (t : TestCase) (n : ℕ) (stack : Bin)
    → Keeps t n stack
    → (high : ℕ) × Keeps (perform_all ops t) high (pending ops n stack)
unfolding perform_all
perform_all-Keeps [] t n stack k = (n, k)
perform_all-Keeps (op ∷ ops) t n stack k =
    perform_all-Keeps ops (perform op t) (count_after op n) (stack_after op n stack)
      (perform-Keeps op t n stack k)

module _ (call : Cleanup → Result Reply) (wait_delete : String → Value → Result (Unit {0})) where
  -- How many clean-ups of a list raise.
  abbrev pub failures : List Cleanup → ℕ
  failures [] = 0
  failures (c ∷ cs) = failed call wait_delete c + failures cs

  clean_up_from-Found :
      (h count : ℕ) (s b : Bin)
      → Falls h s
      → Found s b
      → clean_up_from call wait_delete (keys s) count b
        ≡ ok (record {
          run = entries s;
          fail_count = count + failures (entries s);
          bin = remove_all s b;
        })
  unfolding clean_up_from
  clean_up_from-Found h count [] b f g = let e : count + 0 ≡ count = omega arith in rw e refl
  clean_up_from-Found h count ((k, c) ∷ s) b f g =
      let e : count + failed call wait_delete c + failures (entries s)
          ≡ count + (failed call wait_delete c + failures (entries s)) =
        omega arith in
      rw
        (
          g.0,
          clean_up_from,
          clean_up_from-Found k (count + failed call wait_delete c) s (remove_at k b) f.1
              (Found-remove_at k s b f.1 g.1),
          e,
        )
        refl

  clean_up-newest :
      (l h : ℕ) (b : Bin)
      → Rises l h b
      → clean_up call wait_delete b
        ≡ ok (record {
          run = entries (newest_first b);
          fail_count = failures (entries (newest_first b));
          bin = [];
        })
  unfolding clean_up
  clean_up-newest l h b r =
      let same =
        clean_up_from-Found h 0 (newest_first b) b (Rises-Falls l h b r) (Rises-Found l h b r) in
      let e : 0 + failures (entries (newest_first b)) ≡ failures (entries (newest_first b)) =
        omega arith in
      rw (sorted_down-newest l h b r) (same ∙ (rw (remove_all-newest l h b r, e) refl))

  -- However a test registered and cancelled clean-ups since its set-up, the tear-down runs each one that
  -- is pending once, the newest first, goes on after a failure, reports how many failed, and leaves
  -- an empty bin.
  pub clean_up-pending :
      (ops : List Operation)
      → clean_up call wait_delete (perform_all ops set_up).bin
        ≡ ok (record {
          run = entries (pending ops 0 []);
          fail_count = failures (entries (pending ops 0 []));
          bin = [];
        })
  clean_up-pending ops =
      let start : Keeps set_up 0 [] = record {
        rises = omega arith;
        next_is = refl;
        newest = refl;
      } in
      let (high, kept) = perform_all-Keeps ops set_up 0 [] start in
      rw (← kept.newest) (clean_up-newest 0 high (perform_all ops set_up).bin kept.rises)

-- ===== src/Utils/Path/Idempotent.antt =====
-- `remove_dot_segments` of botocore/utils.py ends, and a path that it returned stays as it is.
use jcsapitest.Prelude.{
  ℕ, zero, suc, ◌≤◌, ◌≡◌, inl, inr, refl, sym, ap, ◌∙◌, Bool-cases, some, List, [], ◌∷◌, ◌++◌, ◌==◌,
  length, length-append, append_assoc, append-nil, arith, ==_iff,
}
use jcsapitest.Utils.Path.{
  slash, dot, Text, before_slash, from_slash, step, join_output, loop, remove_dot_segments,
}
use jcsapitest.Utils.Path.Normal.{
  IsRest, at_end, at_slash, clean, AllClean, IsNormal, nothing, end_slash, followed, before-NoSlash,
  from-IsRest, from-length, before-append, from-append, normal-IsRest,
}
use jcsapitest.Utils.Path.Rounds.{step-slash, step-push, step-double, step-dot}

join_output-IsNormal :
    (output : List Text) (r : Text)
    → AllClean output
    → IsNormal r
    → IsNormal (join_output output ++ r)
unfolding join_output
join_output-IsNormal [] r all n = n
join_output-IsNormal (s ∷ output) r all n =
    rw (append_assoc (join_output output) s r)
      (join_output-IsNormal output (s ++ r) all.1 (followed all.0 n))

loop-nil : (fuel : ℕ) (output : List Text) → loop fuel [] output ≡ some (join_output output)
unfolding loop
loop-nil zero output = refl
loop-nil (suc fuel) output = refl

loop-cons :
    (fuel c : ℕ) (cs : Text) (output : List Text) (url : Text) (output' : List Text)
    → step (c ∷ cs) output ≡ (url, output')
    → loop (suc fuel) (c ∷ cs) output ≡ loop fuel url output'
unfolding loop
loop-cons fuel c cs output url output' e = ap (λ next. loop fuel next.0 next.1) e

-- The loop ends with a normal path.
abbrev Returns : ℕ → Text → List Text → Type 0
Returns fuel url output = (r : Text) × (loop fuel url output ≡ some r) × IsNormal r

loop-IsNormal :
    (fuel : ℕ) (url : Text) (output : List Text)
    → IsRest url
    → AllClean output
    → length url ≤ fuel
    → Returns fuel url output
unfolding join_output
loop-IsNormal fuel url output at_end all le = (
  join_output output,
  loop-nil fuel output,
  rw (sym (append-nil (join_output output))) (join_output-IsNormal output [] all nothing),
)
loop-IsNormal zero url output (at_slash cs) all le = absurd (omega arith)
loop-IsNormal (suc fuel) url output (at_slash []) all le = (
  join_output ((slash ∷ []) ∷ output),
  loop-cons fuel slash [] output [] ((slash ∷ []) ∷ output) (step-slash output)
      ∙ loop-nil fuel ((slash ∷ []) ∷ output),
  join_output-IsNormal output (slash ∷ []) all end_slash,
)
loop-IsNormal (suc fuel) url output (at_slash (c ∷ cs)) all le = elim (Bool-cases (c == dot)) [
  | inl is_dot ↦
      let same : c ≡ dot = (==_iff c dot).0 is_dot in
      let next = step (slash ∷ dot ∷ cs) output in
      let (shorter, rest, all') = step-dot cs output all in
      let (r, e, n) = loop-IsNormal fuel next.0 next.1 rest all' (omega arith) in
      rw (same) (r, loop-cons fuel slash (dot ∷ cs) output next.0 next.1 refl ∙ e, n)
  | inr name ↦ elim (Bool-cases (c == slash)) [
    | inl double ↦
        let same : c ≡ slash = (==_iff c slash).0 double in
        let (r, e, n) = loop-IsNormal fuel (slash ∷ cs) output (at_slash cs) all (omega arith) in
        rw (same) (
          r,
          loop-cons fuel slash (slash ∷ cs) output (slash ∷ cs) output (step-double cs output) ∙ e,
          n,
        )
    | inr other ↦
        let output' = (slash ∷ c ∷ before_slash cs) ∷ output in
        let (r, e, n) =
          loop-IsNormal fuel (from_slash cs) output' (from-IsRest cs)
            (clean c (before_slash cs) name other (before-NoSlash cs), all)
            (omega (arith, le, from-length cs)) in
        (
          r,
          loop-cons fuel slash (c ∷ cs) output (from_slash cs) output'
                (step-push c cs output name other)
              ∙ e,
          n,
        )
  ]
]

-- The loop keeps the segments of a normal path.
loop-keeps :
    (fuel : ℕ) (r : Text) (output : List Text)
    → IsNormal r
    → length r ≤ fuel
    → loop fuel r output ≡ some (join_output output ++ r)
unfolding join_output
loop-keeps fuel r output nothing le = rw (append-nil (join_output output)) (loop-nil fuel output)
loop-keeps zero r output end_slash le = absurd (omega arith)
loop-keeps (suc fuel) r output end_slash le =
    loop-cons fuel slash [] output [] ((slash ∷ []) ∷ output) (step-slash output)
    ∙ loop-nil fuel ((slash ∷ []) ∷ output)
loop-keeps zero r output (followed {r = more} (clean c cs d e h) n) le = absurd (omega arith)
loop-keeps (suc fuel) r output (followed {r = more} (clean c cs d e h) n) le =
    let segment = slash ∷ c ∷ cs in
    let rest = normal-IsRest more n in
    let pushed : step (slash ∷ c ∷ cs ++ more) output ≡ (more, segment ∷ output) = cc (
      step-push c (cs ++ more) output d e,
      before-append cs more h rest,
      from-append cs more h rest,
    ) in
    let shorter : length more ≤ fuel = omega (arith, length-append cs more) in
    loop-cons fuel slash (c ∷ cs ++ more) output more (segment ∷ output) pushed
    ∙ loop-keeps fuel more (segment ∷ output) n shorter
    ∙ ap (λ x. some x) (append_assoc (join_output output) segment more)

-- A path that begins with a slash has a result, the loop ends within as many rounds as it has characters;
-- the result is made of segments that are a slash with a name that does not begin with a dot, and a
-- slash at the end or not; and the result of the result is itself.
pub remove_dot_segments_idem :
    (cs : Text)
    → (r : Text) × (remove_dot_segments (slash ∷ cs) ≡ some r)
      × IsNormal r
      × (remove_dot_segments r ≡ some r)
unfolding remove_dot_segments join_output
remove_dot_segments_idem cs =
    let (r, e, n) =
      loop-IsNormal (length (slash ∷ cs)) (slash ∷ cs) [] (at_slash cs) tt (omega arith) in
    (r, e, n, loop-keeps (length r) r [] n (omega arith))

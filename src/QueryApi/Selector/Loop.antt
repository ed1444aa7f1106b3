-- ===== src/QueryApi/Selector/Loop.antt =====
-- crates/query-api/src/selector.rs: `parse_matcher_list` ends, and what it has read.
use mathlib.Core.List.{append_assoc, append-nil}
use kaleidoscope.Prelude.{
  is_nil, ℕ, zero, suc, ◌≡◌, refl, sym, ap, ◌∙◌, inl, inr, Bool-cases, true, some, List, [], ◌∷◌,
  ◌++◌, nat_beq, arith, Result, ok, err, length, length-append, ◌<◌, ◌≤◌, nat_beq_iff,
}
use kaleidoscope.QueryApi.Selector.Characters.{Chars, is_ascii_whitespace}
use kaleidoscope.QueryApi.Selector.Parser.{
  LabelMatcher, ParseError, skip_whitespace, parse_matcher, after_matcher, after_parse, Matchers,
  matcher_loop,
}
use kaleidoscope.QueryApi.Selector.Grammar.{Spaces, Writes, Lists, last, more}
use kaleidoscope.QueryApi.Selector.Sound.{skipped, parse_matcher-inverse}

-- A text that is skipped to its end is white space.
blank : (cs : Chars) → is_nil (skip_whitespace cs) ≡ true → Spaces cs
unfolding skip_whitespace
blank [] h = tt
blank (c ∷ cs) h = elim (Bool-cases (is_ascii_whitespace c)) [
  | inl e ↦ (e, blank cs (rw e at h))
  | inr e ↦ cc (rw e at h)
]

module _ (cs : Chars) (acc ms : List LabelMatcher) (loop : Chars → List LabelMatcher → Matchers)
    (hyp : (next : Chars) (acc : List LabelMatcher)
      → loop next acc ≡ some (ok ms)
      → (new : List LabelMatcher) × (ms ≡ acc ++ new) × Lists new next) where
  -- The matcher of a round, and what follows it.
  comma :
      (before text after left : Chars) (m : LabelMatcher)
      → Spaces before
      → Writes m text
      → Spaces after
      → cs ≡ before ++ (text ++ (after ++ left))
      → after_matcher left
          (some (ok (acc ++ m ∷ [])))
          (λ next. loop next (acc ++ m ∷ []))
          (some (err ParseError.unrecognised_syntax))
        ≡ some (ok ms)
      → (new : List LabelMatcher) × (ms ≡ acc ++ new) × Lists new cs
  unfolding after_matcher
  comma before text after [] m sb w sa parts h = (
    m ∷ [],
    cc,
    last before text after sb w sa (parts ∙ ap (λ t. before ++ (text ++ t)) (append-nil after)),
  )
  comma before text after (c ∷ left) m sb w sa parts h = elim (Bool-cases (nat_beq c b',')) [
    | inl e ↦
        let (new, grown, l) = hyp left (acc ++ m ∷ []) (rw e at h) in
        (
          m ∷ new,
          grown ∙ append_assoc acc (m ∷ []) new,
          more before text after left sb w sa l (
              parts
              ∙ ap (λ (d : ℕ). before ++ (text ++ (after ++ d ∷ left))) ((nat_beq_iff c b',').0 e)),
        )
    | inr e ↦ cc (rw e at h)
  ]

  round :
      (r : Result (LabelMatcher × Chars) ParseError)
      → parse_matcher (skip_whitespace cs) ≡ r
      → after_parse r acc loop ≡ some (ok ms)
      → (new : List LabelMatcher) × (ms ≡ acc ++ new) × Lists new cs
  unfolding after_parse
  round (err e) p h = cc
  round (ok (m, rest)) p h =
      let (text, w, parts) = parse_matcher-inverse (skip_whitespace cs) m rest p in
      let (before, sb, skip) = skipped cs in
      let (after, sa, skip') = skipped rest in
      comma before text after (skip_whitespace rest) m sb w sa
        (skip ∙ ap (λ t. before ++ t) (parts ∙ ap (λ t. text ++ t) skip')) h

pub matcher_loop-inverse :
    (fuel : ℕ) (cs : Chars) (acc ms : List LabelMatcher)
    → matcher_loop fuel cs acc ≡ some (ok ms)
    → (new : List LabelMatcher) × (ms ≡ acc ++ new) × Lists new cs
unfolding matcher_loop
matcher_loop-inverse zero cs acc ms h = cc
matcher_loop-inverse (suc fuel) cs acc ms h = elim (Bool-cases (is_nil (skip_whitespace cs))) [
  | inl e ↦
      let done : ◌≡◌ {A = Matchers} (some (ok acc)) (some (ok ms)) = rw e at h in
      let same : ms ≡ acc = cc in ([], same ∙ sym (append-nil acc), Lists.nothing (blank cs e))
  | inr e ↦
      round cs acc ms (matcher_loop fuel) (λ next acc'. matcher_loop-inverse fuel next acc' ms)
        (parse_matcher (skip_whitespace cs)) refl (rw e at h)
]

-- What is left behind a matcher is shorter.
length-left :
    (cs text rest : Chars) {m : LabelMatcher}
    → Writes m text
    → cs ≡ text ++ rest
    → length rest ≤ length cs
length-left cs text rest w e = omega (arith, ap length e, length-append text rest)

length-skip_whitespace : (cs : Chars) → length (skip_whitespace cs) ≤ length cs
length-skip_whitespace cs =
    let (ws, spaces, parts) = skipped cs in
    omega (arith, ap length parts, length-append ws (skip_whitespace cs))

module _ (n : ℕ) (loop : Chars → List LabelMatcher → Matchers)
    (hyp : (next : Chars) (acc : List LabelMatcher)
      → length next < n
      → (r : Result (List LabelMatcher) ParseError) × (loop next acc ≡ some r))
    (acc : List LabelMatcher) where
  comma-ends :
      (left : Chars) (m : LabelMatcher)
      → length left ≤ n
      → (r : Result (List LabelMatcher) ParseError) × (after_matcher left
            (some (ok (acc ++ m ∷ [])))
            (λ next. loop next (acc ++ m ∷ []))
            (some (err ParseError.unrecognised_syntax))
          ≡ some r)
  unfolding after_matcher
  comma-ends [] m h = (ok (acc ++ m ∷ []), refl)
  comma-ends (c ∷ left) m h = elim (Bool-cases (nat_beq c b',')) [
    | inl e ↦ let (r, ends) = hyp left (acc ++ m ∷ []) (omega arith) in (r, rw e ends)
    | inr e ↦ (err ParseError.unrecognised_syntax, rw e)
  ]

  round-ends :
      (cs : Chars) (r : Result (LabelMatcher × Chars) ParseError)
      → length cs ≤ n
      → parse_matcher cs ≡ r
      → (out : Result (List LabelMatcher) ParseError) × (after_parse r acc loop ≡ some out)
  unfolding after_parse
  round-ends cs (err e) h p = (err e, refl)
  round-ends cs (ok (m, rest)) h p =
      let (text, w, parts) = parse_matcher-inverse cs m rest p in
      comma-ends (skip_whitespace rest) m
        (omega (arith, length-skip_whitespace rest, length-left cs text rest w parts))

pub matcher_loop-ends :
    (fuel : ℕ) (cs : Chars) (acc : List LabelMatcher)
    → length cs < fuel
    → (r : Result (List LabelMatcher) ParseError) × (matcher_loop fuel cs acc ≡ some r)
unfolding matcher_loop
matcher_loop-ends zero cs acc h = elim h [ ]
matcher_loop-ends (suc fuel) cs acc h = elim (Bool-cases (is_nil (skip_whitespace cs))) [
  | inl e ↦ (ok acc, rw e)
  | inr e ↦
      let (r, ends) =
        round-ends fuel (matcher_loop fuel) (λ next acc'. matcher_loop-ends fuel next acc') acc
          (skip_whitespace cs) (parse_matcher (skip_whitespace cs))
          (omega (arith, length-skip_whitespace cs)) refl in
      (r, rw e ends)
]

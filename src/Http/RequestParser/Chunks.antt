-- ===== src/Http/RequestParser/Chunks.antt =====
-- A request that arrives in several chunks.
use altas.Prelude.{ℕ, ◌≡◌, ◌≢◌, refl, sym, ◌∙◌, [], ◌∷◌, ◌++◌, none, some, Bytes, arith}
use altas.Http.Request.{Request}
use altas.Http.RequestParser.{good, bad, indeterminate, State, Outcome, consume}
use altas.Http.RequestParser.Run.{finish, parse}

-- To split on what `consume` answers, with the equation.
pub outcome_cases {ℓ} :
    {P : Type ℓ} (o : Outcome)
    → (o ≡ none → P)
    → ((s : State) (r : Request) → o ≡ some (good, s, r) → P)
    → ((s : State) (r : Request) → o ≡ some (bad, s, r) → P)
    → ((s : State) (r : Request) → o ≡ some (indeterminate, s, r) → P)
    → P
outcome_cases none fault well ill going = fault refl
outcome_cases (some (good, s, r)) fault well ill going = well s r refl
outcome_cases (some (bad, s, r)) fault well ill going = ill s r refl
outcome_cases (some (indeterminate, s, r)) fault well ill going = going s r refl

-- One byte of `parse`, by the outcome of `consume`.
module _ (s : State) (r : Request) (c : ℕ) (cs : Bytes) {s' : State} {r' : Request} where
  pub parse-more :
      consume s r c ≡ some (indeterminate, s', r') → parse s r (c ∷ cs) ≡ parse s' r' cs
  unfolding parse
  parse-more e = rw (e, parse)

  pub parse-bad : consume s r c ≡ some (bad, s', r') → parse s r (c ∷ cs) ≡ some (bad, cs, s', r')
  unfolding parse
  parse-bad e = rw (e, parse)

  pub parse-good : consume s r c ≡ some (good, s', r') → parse s r (c ∷ cs) ≡ finish cs s' r'
  unfolding parse
  parse-good e = rw (e, parse)

pub parse-fault :
    (s : State) (r : Request) (c : ℕ) (cs : Bytes)
    → consume s r c ≡ none
    → parse s r (c ∷ cs) ≡ none
unfolding parse
parse-fault s r c cs e = rw (e, parse)

finish-ne-indeterminate :
    (cs rest : Bytes) (s s' : State) (r r' : Request)
    → finish cs s r ≢ some (indeterminate, rest, s', r')
unfolding finish
finish-ne-indeterminate cs rest s s' r r' e = ground arith

-- If a chunk ends in the middle of a request, all of it was consumed, and the next chunk goes on
-- from where it stopped, as if both had come as one.
pub parse-append :
    (xs ys rest : Bytes) (s s' : State) (r r' : Request)
    → parse s r xs ≡ some (indeterminate, rest, s', r')
    → (rest ≡ []) × (parse s r (xs ++ ys) ≡ parse s' r' ys)
parse-append [] ys rest s s' r r' e = unfold parse in (cc, ground arith)
parse-append (c ∷ xs) ys rest s s' r r' e =
    outcome_cases (consume s r c) (λ q. let f = parse-fault s r c xs q in absurd (cc))
      (λ t u q.
        absurd (finish-ne-indeterminate xs rest t s' u r' (sym (parse-good s r c xs q) ∙ e)))
      (λ t u q. let f = parse-bad s r c xs q in absurd (cc))
      λ t u q.
        let (none_left, joined) =
          parse-append xs ys rest t s' u r' (sym (parse-more s r c xs q) ∙ e) in
        (none_left, parse-more s r c (xs ++ ys) q ∙ joined)

-- ===== src/Http/RequestParser/Ends.antt =====
-- A text behind the end of a request.
use altas.Prelude.{some_inj, ◌≡◌, refl, sym, ap, ◌∙◌, [], ◌∷◌, ◌++◌, none, some, Bytes}
use altas.Http.UrlDecode.{url_decode}
use altas.Http.Request.{Request}
use altas.Http.RequestParser.{good, bad, indeterminate, State, consume}
use altas.Http.RequestParser.Run.{Parsed, finish, parse, parse_uri_total}
use altas.Http.RequestParser.Chunks.{outcome_cases, parse-more, parse-bad, parse-good, parse-fault}

finish_lem :
    (cs : Bytes) (s : State) (r : Request) → (q : Request) × (finish cs s r ≡ some (good, cs, s, q))
unfolding finish
finish_lem cs s r =
    let (q, e, m, h) = parse_uri_total (record r { content = cs; uri = (url_decode r.uri).1 }) in
    (q, rw (e, finish) refl)

-- What a request leaves of the text is longer by what the text is longer.
pub parse-good_append :
    (xs ys rest : Bytes) (s s' : State) (r r' : Request)
    → parse s r xs ≡ some (good, rest, s', r')
    → (q : Request) × (parse s r (xs ++ ys) ≡ some (good, rest ++ ys, s', q))
parse-good_append [] ys rest s s' r r' e = unfold parse in absurd cc
parse-good_append (c ∷ xs) ys rest s s' r r' e =
    outcome_cases (consume s r c) (λ q. let f = parse-fault s r c xs q in absurd cc)
      (λ t u q.
        let (v, k) = finish_lem xs t u in
        let (w, l) = finish_lem (xs ++ ys) t u in
        let same = some_inj (sym k ∙ sym (parse-good s r c xs q) ∙ e) in
        (w, parse-good s r c (xs ++ ys) q ∙ l ∙ ap (λ z. some (good, z.1 ++ ys, z.2, w)) same))
      (λ t u q. let f = parse-bad s r c xs q in absurd cc)
      λ t u q.
        let (w, l) = parse-good_append xs ys rest t s' u r' (sym (parse-more s r c xs q) ∙ e) in
        (w, parse-more s r c (xs ++ ys) q ∙ l)

-- Nothing mends a request that is not well-formed.
pub parse-bad_append :
    (xs ys rest : Bytes) (s s' : State) (r r' : Request)
    → parse s r xs ≡ some (bad, rest, s', r')
    → parse s r (xs ++ ys) ≡ some (bad, rest ++ ys, s', r')
parse-bad_append [] ys rest s s' r r' e = unfold parse in absurd cc
parse-bad_append (c ∷ xs) ys rest s s' r r' e =
    outcome_cases (consume s r c) (λ q. let f = parse-fault s r c xs q in absurd cc)
      (λ t u q. let (v, k) = finish_lem xs t u in let g = parse-good s r c xs q in absurd cc)
      (λ t u q.
        parse-bad s r c (xs ++ ys) q
        ∙ ap (λ z. some (bad, z.1 ++ ys, z.2, z.3)) (some_inj (sym (parse-bad s r c xs q) ∙ e)))
      λ t u q.
        parse-more s r c (xs ++ ys) q
        ∙ parse-bad_append xs ys rest t s' u r' (sym (parse-more s r c xs q) ∙ e)

abbrev pub HasEnded : Parsed → Type 0
HasEnded (some (good, rest, s, r)) = Unit {0}
HasEnded (some (bad, rest, s, r)) = Unit {0}
HasEnded _ = ⊥

append_nil_right : (xs ys : Bytes) → xs ++ ys ≡ [] → ys ≡ []
append_nil_right [] ys e = e
append_nil_right (x ∷ xs) ys e = absurd cc

-- If a text is a request with nothing behind it, no shorter beginning of it has ended.
pub ends_whole :
    (xs ys : Bytes) (s s' : State) (r r' : Request) (o : Parsed)
    → parse s r (xs ++ ys) ≡ some (good, [], s', r')
    → parse s r xs ≡ o
    → HasEnded o
    → ys ≡ []
ends_whole xs ys s s' r r' none e f g = elim g [ ]
ends_whole xs ys s s' r r' (some (good, rest, t, u)) e f g =
    let (w, l) = parse-good_append xs ys rest s t r u f in
    append_nil_right rest ys (sym (ap (λ z. z.1) (some_inj (sym e ∙ l))))
ends_whole xs ys s s' r r' (some (bad, rest, t, u)) e f g =
    let l = parse-bad_append xs ys rest s t r u f in absurd cc
ends_whole xs ys s s' r r' (some (indeterminate, rest, t, u)) e f g = elim g [ ]

-- ===== src/Http/FormData/RoundTrip.antt =====
-- `Parse` reads back what `Encode` writes, and always ends.
use altas.Prelude.{
  Free, Free-append, span_until-stop, span_until-end, span_until-length, ℕ, zero, suc, ◌<◌, ◌≡◌,
  refl, ap, ◌∙◌, true, false, [], ◌∷◌, ◌++◌, some, Bytes, is_empty, length, length-append, arith,
  append-nil, append_assoc, inl, inr, Bool-cases,
}
use altas.OrdMap.{OrdMap, insert, IsSorted}
use altas.OrdMap.Laws.{insert_all, insert_all-append}
use altas.Status.{ok_status}
use altas.Http.FormData.{
  FormData, get_next_token, split_param, parse_loop, parse, encode_from, encode,
}

token-stop : (q : ℕ) (t rest : Bytes) → Free q t → get_next_token (t ++ q ∷ rest) q ≡ (t, rest)
unfolding get_next_token
token-stop q [] rest h = rw (span_until-stop q [] rest h)
token-stop q (c ∷ t) rest h = rw (span_until-stop q (c ∷ t) rest h)

token-end : (q : ℕ) (t : Bytes) → Free q t → get_next_token t q ≡ (t, [])
unfolding get_next_token
token-end q [] h = refl
token-end q (c ∷ t) h = rw (span_until-end q (c ∷ t) h)

split_param-entry : (k v : Bytes) → Free b'=' k → split_param (k ++ b'=' ∷ v) ≡ (k, v)
unfolding split_param
split_param-entry k v h = rw (span_until-stop b'=' k v h)

-- Keys that hold neither '=' nor '&', and values that hold no '&'.
abbrev pub IsPlain : OrdMap Bytes → Type 0
IsPlain [] = Unit {0}
IsPlain ((k, v) ∷ m) = (Free b'=' k × Free b'&' k × Free b'&' v) × IsPlain m

is_empty-entry : (k v : Bytes) → is_empty (k ++ b'=' ∷ v) ≡ false
is_empty-entry [] v = refl
is_empty-entry (c ∷ k) v = refl

-- One round of the loop over a token that is an entry.
round :
    (fuel : ℕ) (k v next rest : Bytes) (values : OrdMap Bytes)
    → Free b'=' k
    → get_next_token next b'&' ≡ (k ++ b'=' ∷ v, rest)
    → parse_loop (suc fuel) next values ≡ parse_loop fuel rest (insert k v values)
unfolding parse_loop
round fuel k v next rest values h e =
    rw (e, parse_loop) (rw (split_param-entry k v h, is_empty-entry k v))

length-encode_from :
    (k v : Bytes) (m : OrdMap Bytes)
    → length (encode_from false m) < length (encode_from false ((k, v) ∷ m))
unfolding encode_from
length-encode_from k v [] = omega (arith, length-append k (b'=' ∷ (v ++ [])))
length-encode_from k v (e ∷ m) = omega (
  arith,
  length-append k (b'=' ∷ (v ++ encode_from true (e ∷ m))),
  length-append v (encode_from true (e ∷ m)),
)

entry_alone : (k v : Bytes) → encode_from false ((k, v) ∷ []) ≡ k ++ b'=' ∷ v
unfolding encode_from
entry_alone k v = rw append-nil

entry_first :
    (k v j w : Bytes) (m : OrdMap Bytes)
    → encode_from false ((k, v) ∷ (j, w) ∷ m)
      ≡ (k ++ b'=' ∷ v) ++ b'&' ∷ encode_from false ((j, w) ∷ m)
unfolding encode_from
entry_first k v j w m = rw append_assoc

entry-Free : (k v : Bytes) → Free b'&' k → Free b'&' v → Free b'&' (k ++ b'=' ∷ v)
entry-Free k v h g = Free-append b'&' k (b'=' ∷ v) h ((λ e. absurd (omega arith)), g)

parse_loop-encode_from :
    (fuel : ℕ) (m acc : OrdMap Bytes)
    → length (encode_from false m) < fuel
    → IsPlain m
    → parse_loop fuel (encode_from false m) acc ≡ some (insert_all acc m)
unfolding encode_from
parse_loop-encode_from zero m acc h p = absurd (omega arith)
parse_loop-encode_from (suc fuel) [] acc h p = unfold parse_loop encode_from get_next_token in refl
parse_loop-encode_from (suc fuel) ((k, v) ∷ []) acc h ((a, b, c), p) =
    let e = entry_alone k v in
    let first =
      round fuel k v _ [] acc a
        (ap (λ t. get_next_token t b'&') e ∙ token-end b'&' _ (entry-Free k v b c)) in
    first
    ∙ parse_loop-encode_from fuel [] (insert k v acc) (omega (arith, length-encode_from k v [])) tt
parse_loop-encode_from (suc fuel) ((k, v) ∷ (j, w) ∷ m) acc h ((a, b, c), p) =
    let e = entry_first k v j w m in
    let token = ap (λ t. get_next_token t b'&') e ∙ token-stop b'&' _ _ (entry-Free k v b c) in
    round fuel k v _ _ acc a token
    ∙ parse_loop-encode_from fuel ((j, w) ∷ m) (insert k v acc)
        (omega (arith, length-encode_from k v ((j, w) ∷ m))) p

length-token :
    (q : ℕ) (t : Bytes)
    → is_empty (get_next_token t q).0 ≡ false
    → length (get_next_token t q).1 < length t
unfolding get_next_token
length-token q [] h = cc
length-token q (c ∷ t) h = ground (arith, span_until-length q t)

parse_loop-total :
    (fuel : ℕ) (next : Bytes) (values : OrdMap Bytes)
    → length next < fuel
    → (m : OrdMap Bytes) × (parse_loop fuel next values ≡ some m)
unfolding parse_loop
parse_loop-total zero next values h = absurd (omega arith)
parse_loop-total (suc fuel) next values h =
    elim (Bool-cases (is_empty (get_next_token next b'&').0)) [
      | inl e ↦ (values, rw e)
      | inr e ↦ rw e (parse_loop-total fuel _ _ (omega (arith, length-token b'&' next e)))
    ]

-- `Parse` ends on every text, and answers that all is well.
pub parse_total :
    (query : Bytes) (f : FormData) → (g : FormData) × (parse query f ≡ some (ok_status, g))
unfolding parse
parse_total query f =
    let (m, e) = parse_loop-total (suc (length query)) query f.values (omega arith) in
    (record { values = m }, rw (e, parse))

-- A form whose keys hold neither '=' nor '&', and whose values hold no '&', is read back from its
-- encoding.
pub parse-encode :
    (f : FormData)
    → IsSorted f.values
    → IsPlain f.values
    → parse (encode f) (record { values = [] }) ≡ some (ok_status, f)
unfolding parse encode
parse-encode f s p =
    let e = parse_loop-encode_from (suc (length (encode f))) f.values [] (omega arith) p in
    rw (e ∙ ap some (insert_all-append [] f.values s), parse)

pub parse-nil : (f : FormData) → parse [] f ≡ some (ok_status, f)
unfolding parse parse_loop get_next_token
parse-nil f = refl

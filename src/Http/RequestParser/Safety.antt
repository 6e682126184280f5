-- ===== src/Http/RequestParser/Safety.antt =====
-- What the parser knows of the request between two bytes.
use altas.Prelude.{
  ℕ, ◌≡◌, subst, ◌≢◌, refl, false, List, [], ◌∷◌, ◌++◌, Option, none, some, Bytes, arith, All,
  All-append,
}
use altas.Http.Request.{Header, Request, default_request}
use altas.Http.UrlDecode.{url_decode}
use altas.Http.RequestParser.Run.{Parsed, parse_uri_total, finish, parse}
use altas.Http.RequestParser.Chunks.{outcome_cases, parse-more, parse-bad, parse-good}
use altas.Http.RequestParser.{
  good, bad, indeterminate, State, method_start, method, header_line_start, header_lws, header_name,
  space_before_header_value, header_value, expecting_newline_3, Outcome, consume, is_no_token,
  is_ctl, push_name, push_value,
}

-- A byte of a method or of a header's name.
abbrev pub IsToken : ℕ → Type 0
IsToken c = is_no_token c ≡ false

abbrev pub IsText : ℕ → Type 0
IsText c = is_ctl c ≡ false

abbrev pub IsHeader : Header → Type 0
IsHeader h = (h.name ≢ []) × All IsToken h.name × All IsText h.value

-- The states in which `headers.back()` may be called.
abbrev pub HasHeader : State → List Header → Type 0
HasHeader header_lws hs = hs ≢ []
HasHeader header_name hs = hs ≢ []
HasHeader space_before_header_value hs = hs ≢ []
HasHeader header_value hs = hs ≢ []
HasHeader _ hs = Unit {0}

abbrev pub HasMethod : State → Bytes → Type 0
HasMethod method_start m = Unit {0}
HasMethod _ m = m ≢ []

pub record Inv (s : State) (r : Request) : Type 0 where
  pub method_token : All IsToken r.method
  pub method_begun : HasMethod s r.method
  pub headers_valid : All IsHeader r.headers
  pub back_defined : HasHeader s r.headers

-- `consume` does not fault, and keeps the invariant.
abbrev Keeps : Outcome → Type 0
Keeps none = ⊥
Keeps (some (result, s, r)) = Inv s r

append-ne-nil {ℓ} : {A : Type ℓ} (xs : List A) (x : A) → xs ++ x ∷ [] ≢ []
append-ne-nil [] x = λ e. cc
append-ne-nil (y ∷ xs) x = λ e. cc

abbrev Pushed : Option (List Header) → Type 0
Pushed none = ⊥
Pushed (some hs) = (hs ≢ []) × All IsHeader hs

push_name-Pushed :
    (c : ℕ) (hs : List Header) → IsToken c → hs ≢ [] → All IsHeader hs → Pushed (push_name c hs)
unfolding push_name
push_name-Pushed c [] t n a = absurd (n refl)
push_name-Pushed c (h ∷ []) t n ((m, k, v), a) =
    ((λ e. cc), ((append-ne-nil h.name c, All-append IsToken h.name (c ∷ []) k (t, tt), v), tt))
push_name-Pushed c (h ∷ i ∷ hs) t n (k, a) =
    ground (arith, push_name-Pushed c (i ∷ hs) t (λ e. cc) a)

push_value-Pushed :
    (c : ℕ) (hs : List Header) → IsText c → hs ≢ [] → All IsHeader hs → Pushed (push_value c hs)
unfolding push_value
push_value-Pushed c [] t n a = absurd (n refl)
push_value-Pushed c (h ∷ []) t n ((m, k, v), a) =
    ((λ e. cc), ((m, k, All-append IsText h.value (c ∷ []) v (t, tt)), tt))
push_value-Pushed c (h ∷ i ∷ hs) t n (k, a) =
    ground (arith, push_value-Pushed c (i ∷ hs) t (λ e. cc) a)

-- A new header with the first byte of its name.
push_name-new :
    (c : ℕ) (hs : List Header)
    → IsToken c
    → All IsHeader hs
    → Pushed (push_name c (hs ++ record { name = []; value = [] } ∷ []))
unfolding push_name
push_name-new c [] t a = ((λ e. cc), (((λ e. cc), (t, tt), tt), tt))
push_name-new c (h ∷ []) t (k, a) = ((λ e. cc), (k, (((λ e. cc), (t, tt), tt), tt)))
push_name-new c (h ∷ i ∷ hs) t (k, a) = ground (arith, push_name-new c (i ∷ hs) t a)

module _ (r : Request) (c : ℕ) where
  consume-Keeps : (s : State) → Inv s r → Keeps (consume s r c)
  unfolding consume
  consume-Keeps method_start v =
      ground (arith, append-ne-nil r.method c, All-append IsToken r.method (c ∷ []) v.method_token)
  consume-Keeps method v =
      ground (arith, append-ne-nil r.method c, All-append IsToken r.method (c ∷ []) v.method_token)
  consume-Keeps header_line_start v = ground (arith, push_name-new c r.headers)
  consume-Keeps header_lws v = ground (arith, push_value-Pushed c r.headers)
  consume-Keeps header_name v = ground (arith, push_name-Pushed c r.headers)
  consume-Keeps header_value v = ground (arith, push_value-Pushed c r.headers)
  consume-Keeps _ v = ground arith

consume-good :
    (s s' : State) (r r' : Request) (c : ℕ)
    → consume s r c ≡ some (good, s', r')
    → s' ≡ expecting_newline_3
unfolding consume
consume-good header_lws s' r r' c e = ground arith
consume-good _ s' r r' c e = ground arith

-- A request that is handed over: its method is a token that is not empty, and so is the name of
-- each header, whose value holds no control character.
abbrev pub IsAccepted : Request → Type 0
IsAccepted r = All IsToken r.method × (r.method ≢ []) × All IsHeader r.headers

-- The answer is no fault, a request is handed over only if it is well-formed, and in the middle of
-- one the invariant holds.
abbrev pub Sound : Parsed → Type 0
Sound none = ⊥
Sound (some (good, rest, s, r)) = IsAccepted r
Sound (some (bad, rest, s, r)) = Unit {0}
Sound (some (indeterminate, rest, s, r)) = Inv s r

accepted : (s : State) (r : Request) → s ≡ expecting_newline_3 → Inv s r → IsAccepted r
accepted s r e v =
    (v.method_token, subst (λ t. HasMethod t r.method) e v.method_begun, v.headers_valid)

finish-Sound : (cs : Bytes) (s : State) (r : Request) → IsAccepted r → Sound (finish cs s r)
unfolding finish
finish-Sound cs s r a =
    let r' = record r { content = cs; uri = (url_decode r.uri).1 } in
    let (q, e, m, h) = parse_uri_total r' in rw (e, finish) (rw (m, h) a)

-- From a state in which the invariant holds, parsing a chunk of any bytes does not fault: no
-- `back()` is called in an empty vector. A request that is handed over has a method that is a
-- token and not empty, each header's name is such a token too, and no value holds a control
-- character. If the chunk ends before the request does, the invariant holds again.
pub parse-Sound : (cs : Bytes) (s : State) (r : Request) → Inv s r → Sound (parse s r cs)
parse-Sound [] s r v = unfold parse in v
parse-Sound (c ∷ cs) s r v =
    outcome_cases (consume s r c) (λ q. absurd (rw q at (consume-Keeps r c s v)))
      (λ t u q. rw (parse-good s r c cs q) (
        finish-Sound cs t u
          (accepted t u (consume-good s t r u c q) (rw q at (consume-Keeps r c s v)))))
      (λ t u q. rw (parse-bad s r c cs q) tt)
      λ t u q. rw (parse-more s r c cs q) (parse-Sound cs t u (rw q at (consume-Keeps r c s v)))

pub default_request-Inv : (major minor : ℕ) → Inv method_start (default_request major minor)
unfolding default_request
default_request-Inv major minor = record {
  method_token = tt;
  method_begun = tt;
  headers_valid = tt;
  back_defined = tt;
}

-- ===== src/Http/Url/Laws.antt =====
-- What the constructor of `Url` takes apart, and the texts on which it reads too far.
use altas.Prelude.{
  Bool, true, false, ◌∙◌, Free, span_until, span_until-stop, span_until-end, ℕ, ◌≡◌, ◌≢◌, ◌↔◌, refl,
  ap, [], ◌∷◌, ◌++◌, Option, none, some, Bytes, arith, append-nil,
}
use altas.Http.Url.{
  consume_util, query_of, after_slashes, byte_at, no_host, from_host, past_scheme, new_url,
}

-- A query part: none, or '?' and a text.
abbrev pub query_text : Option Bytes → Bytes
query_text none = []
query_text (some q) = b'?' ∷ q

abbrev pub query_value : Option Bytes → Bytes
query_value none = []
query_value (some q) = q

-- A path part: empty, or a slash and a text with no '?'.
abbrev pub path_text : Option Bytes → Bytes
path_text none = []
path_text (some p) = b'/' ∷ p

-- A host part does not begin with a slash, and is not empty.
abbrev pub IsHost : Bytes → Type 0
IsHost [] = ⊥
IsHost (c ∷ h) = Free b'/' (c ∷ h)

consume_util-stop :
    (c : ℕ) (t rest : Bytes) → Free c t → consume_util (t ++ c ∷ rest) c ≡ (t, c ∷ rest)
unfolding consume_util
consume_util-stop = span_until-stop

consume_util-end : (c : ℕ) (t : Bytes) → Free c t → consume_util t c ≡ (t, [])
unfolding consume_util
consume_util-end = span_until-end

consume_util-path :
    (path : Bytes) (q : Option Bytes)
    → Free b'?' path
    → consume_util (path ++ query_text q) b'?' ≡ (path, query_text q)
consume_util-path path none h = rw append-nil (consume_util-end b'?' path h)
consume_util-path path (some q) h = consume_util-stop b'?' path q h

query_of-text : (q : Option Bytes) → query_of (query_text q) ≡ query_value q
unfolding query_of
query_of-text none = refl
query_of-text (some q) = refl

after_slashes_lem :
    (scheme host p : Bytes) (q : Option Bytes)
    → IsHost host
    → Free b'?' p
    → after_slashes scheme (host ++ b'/' ∷ (p ++ query_text q))
      ≡ record { scheme = scheme; host = host; raw_path = b'/' ∷ p; raw_query = query_value q }
unfolding after_slashes
after_slashes_lem scheme [] p q h f = absurd h
after_slashes_lem scheme (c ∷ host) p q h f = rw (
  consume_util-stop b'/' (c ∷ host) (p ++ query_text q) h,
  consume_util-path (b'/' ∷ p) q ((λ e. absurd (omega arith)), f),
  query_of-text q,
)

host_read : (c : ℕ) (memory : Bytes) → c ≢ b'/' → no_host (b'/' ∷ b'/' ∷ c ∷ memory) ≡ some false
unfolding no_host byte_at
host_read c memory h = ground arith

past_scheme_lem :
    (scheme host p : Bytes) (q : Option Bytes)
    → IsHost host
    → Free b'?' p
    → past_scheme scheme (b':' ∷ b'/' ∷ b'/' ∷ (host ++ b'/' ∷ (p ++ query_text q)))
      ≡ some
          (record { scheme = scheme; host = host; raw_path = b'/' ∷ p; raw_query = query_value q })
unfolding past_scheme from_host
past_scheme_lem scheme [] p q h f = absurd h
past_scheme_lem scheme (c ∷ host) p q h f =
    ap (from_host scheme (b'/' ∷ b'/' ∷ ((c ∷ host) ++ b'/' ∷ (p ++ query_text q))))
      (host_read c ((host ++ b'/' ∷ (p ++ query_text q)) ++ 0 ∷ []) h.0)
    ∙ ap some (after_slashes_lem scheme (c ∷ host) p q h f)

-- A URL that is written with a scheme, a host, a path that begins with a slash and perhaps a query
-- is taken apart into these parts, if the scheme is not empty and holds no ':', the host is not
-- empty and holds no '/', and the path holds no '?'.
pub new_url-parts :
    (scheme host p : Bytes) (q : Option Bytes)
    → scheme ≢ []
    → Free b':' scheme
    → IsHost host
    → Free b'?' p
    → new_url (scheme ++ b':' ∷ b'/' ∷ b'/' ∷ (host ++ b'/' ∷ (p ++ query_text q)))
      ≡ some
          (record { scheme = scheme; host = host; raw_path = b'/' ∷ p; raw_query = query_value q })
unfolding new_url
new_url-parts [] host p q ne a h f = absurd (ne refl)
new_url-parts (c ∷ scheme) host p q ne a h f =
    rw (consume_util-stop b':' (c ∷ scheme) (b'/' ∷ b'/' ∷ (host ++ b'/' ∷ (p ++ query_text q))) a)
      (past_scheme_lem (c ∷ scheme) host p q h f)

rest_empty : (q : ℕ) (t : Bytes) → (span_until q t).1 ≡ [] → Free q t
unfolding span_until
rest_empty q [] h = tt
rest_empty q (c ∷ t) h = ground (arith, rest_empty q t)

-- With the NUL behind it, every text can be read as far as the test goes.
no_host_total : (t : Bytes) → no_host (t ++ 0 ∷ []) ≢ none
unfolding no_host byte_at
no_host_total [] h = cc
no_host_total (a ∷ []) h = ground arith
no_host_total (a ∷ b ∷ []) h = ground arith
no_host_total (a ∷ b ∷ c ∷ t) h = ground arith

from_host-eq-none : (scheme p : Bytes) (b : Option Bool) → from_host scheme p b ≡ none → b ≡ none
unfolding from_host
from_host-eq-none scheme p none h = refl
from_host-eq-none scheme p (some true) h = cc
from_host-eq-none scheme p (some false) h = cc

past_scheme-eq-none : (scheme p : Bytes) → past_scheme scheme p ≡ none → p ≡ []
unfolding past_scheme
past_scheme-eq-none scheme [] h = refl
past_scheme-eq-none scheme (c ∷ p) h = absurd (no_host_total p (from_host-eq-none scheme p _ h))

new_url-eq-none : (raw : Bytes) → new_url raw ≡ none → (consume_util raw b':').1 ≡ []
unfolding new_url
new_url-eq-none raw h =
    ground (arith, past_scheme-eq-none (consume_util raw b':').0 (consume_util raw b':').1)

-- The constructor reads outside of the string exactly if the text is not empty and holds no ':'.
pub new_url-eq-none_iff : (raw : Bytes) → (new_url raw ≡ none) ↔ ((raw ≢ []) × Free b':' raw)
unfolding new_url past_scheme
new_url-eq-none_iff [] = (λ h. unfold consume_util in cc h, λ h. absurd (h.0 refl))
new_url-eq-none_iff (c ∷ raw) = (
  λ h. ((λ e. cc), rest_empty b':' (c ∷ raw) (unfold consume_util in new_url-eq-none (c ∷ raw) h)),
  λ h. rw (consume_util-end b':' (c ∷ raw) h.1),
)

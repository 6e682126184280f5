-- ===== src/Http/ServeMux/Serving.antt =====
-- Which handler a path reaches.
use altas.Prelude.{
  subst, ℕ, ◌-◌, ◌≡◌, ◌≤◌, refl, sym, ap, ◌∙◌, inl, inr, true, false, Bool-cases, Option-cases,
  List, [], ◌∷◌, Option, none, some, Bytes, codes, length, drop, arith,
}
use altas.OrdMap.{OrdMap, find}
use altas.StrUtil.{starts_with_ignore_case}
use altas.Http.Request.{Request}
use altas.Http.Response.{Response, StatusType, write_text}
use altas.Http.ServeMux.{FuncEntry, ServeMux, ends_in_slash, find_prefix, serve_http}
use altas.Http.ServeMux.Index.{true-false, AtMost, IsDescending, Mem, IsListed, IsMux}

-- What serving a request comes to, by the handlers that are registered: that of the path itself;
-- if it has none, that of a longest pattern that ends in a slash and with which the path starts, but
-- for case; if there is none, the reply 404.
pub data Serves (m : OrdMap FuncEntry) (req : Request) (resp : Response)
    : Request × Response → Type 0 where
  exact : (e : FuncEntry) → find req.path m ≡ some e → Serves m req resp (req, e.fn req resp)
  prefixed :
      (e : FuncEntry)
      → find req.path m ≡ none
      → find e.pattern m ≡ some e
      → ends_in_slash e.pattern ≡ true
      → starts_with_ignore_case req.path e.pattern ≡ true
      → ((k : Bytes) (d : FuncEntry)
          → find k m ≡ some d
          → ends_in_slash k ≡ true
          → starts_with_ignore_case req.path k ≡ true
          → length k ≤ length e.pattern)
      → Serves m req resp (
        record req { subpath = drop (length e.pattern - 1) req.path },
        e.fn (record req { subpath = drop (length e.pattern - 1) req.path }) resp,
      )
  missing :
      find req.path m ≡ none
      → ((k : Bytes) (d : FuncEntry)
          → find k m ≡ some d
          → ends_in_slash k ≡ true
          → starts_with_ignore_case req.path k ≡ false)
      → Serves m req resp (req, write_text StatusType.not_found (codes "Not found") resp)

-- What the loop over the prefixes finds.
abbrev IsFirst : Bytes → List FuncEntry → Option FuncEntry → Type 0
IsFirst path l none = (d : FuncEntry) → Mem d l → starts_with_ignore_case path d.pattern ≡ false
IsFirst path l (some e) =
    Mem e l
    × (starts_with_ignore_case path e.pattern ≡ true)
    × ((d : FuncEntry)
        → Mem d l
        → starts_with_ignore_case path d.pattern ≡ true
        → length d.pattern ≤ length e.pattern)

Mem-AtMost :
    (n : ℕ) (d : FuncEntry) (l : List FuncEntry) → AtMost n l → Mem d l → length d.pattern ≤ n
Mem-AtMost n d [] a h = absurd h
Mem-AtMost n d (i ∷ l) (p, a) (inl e) = rw e p
Mem-AtMost n d (i ∷ l) (p, a) (inr h) = Mem-AtMost n d l a h

IsFirst-cons :
    (path : Bytes) (i : FuncEntry) (l : List FuncEntry) (o : Option FuncEntry)
    → starts_with_ignore_case path i.pattern ≡ false
    → IsFirst path l o
    → IsFirst path (i ∷ l) o
IsFirst-cons path i l none q h =
    λ d. elim [ inl e ↦ ap (λ z. starts_with_ignore_case path z.pattern) e ∙ q | inr m ↦ h d m ]
IsFirst-cons path i l (some e) q (m, s, h) = (
  inr m,
  s,
  λ d. elim [
    | inl r ↦
        λ t. absurd (true-false (sym t ∙ ap (λ z. starts_with_ignore_case path z.pattern) r ∙ q))
    | inr n ↦ h d n
  ],
)

find_prefix-IsFirst :
    (path : Bytes) (l : List FuncEntry) → IsDescending l → IsFirst path l (find_prefix path l)
unfolding find_prefix
find_prefix-IsFirst path [] h = λ d. elim [ ]
find_prefix-IsFirst path (i ∷ l) (a, h) =
    elim (Bool-cases (starts_with_ignore_case path i.pattern)) [
      | inl q ↦ rw q (
        inl refl,
        q,
        λ d. elim [ inl e ↦ λ t. rw e (omega arith) | inr m ↦ λ t. Mem-AtMost _ d l a m ],
      )
      | inr q ↦ rw q (IsFirst-cons path i l (find_prefix path l) q (find_prefix-IsFirst path l h))
    ]

Mem-IsListed :
    (m : OrdMap FuncEntry) (d : FuncEntry) (l : List FuncEntry)
    → IsListed m l
    → Mem d l
    → (find d.pattern m ≡ some d) × (ends_in_slash d.pattern ≡ true)
Mem-IsListed m d [] a h = absurd h
Mem-IsListed m d (i ∷ l) (p, q, a) (inl e) =
    subst (λ z. (find z.pattern m ≡ some z) × (ends_in_slash z.pattern ≡ true)) (sym e) (p, q)
Mem-IsListed m d (i ∷ l) (p, q, a) (inr h) = Mem-IsListed m d l a h

serve_listed :
    (mux : ServeMux) (req : Request) (resp : Response) (o : Option FuncEntry)
    → IsMux mux
    → find req.path mux.funcs ≡ none
    → o ≡ find_prefix req.path mux.prefix_funcs
    → IsFirst req.path mux.prefix_funcs o
    → Serves mux.funcs req resp (serve_http mux req resp)
unfolding serve_http
serve_listed mux req resp none (d, l, x) n e h =
    rw (n, sym e, serve_http)
      (missing n
        (λ k c f s. ap (starts_with_ignore_case req.path) (sym (x k c f).0) ∙ h c ((x k c f).1 s)))
serve_listed mux req resp (some i) (d, l, x) n e (m, s, h) =
    rw (n, sym e, serve_http)
      (prefixed i n (Mem-IsListed mux.funcs i mux.prefix_funcs l m).0
        (Mem-IsListed mux.funcs i mux.prefix_funcs l m).1 s
        (λ k c f t u.
          subst (λ z. length z ≤ length i.pattern) (x k c f).0
            (h c ((x k c f).1 t) (ap (starts_with_ignore_case req.path) (x k c f).0 ∙ u))))

-- Serving a request calls the handler that the registered patterns give it: that of the path, else
-- that of a pattern ending in a slash that begins the path but for the case of letters, and that no
-- longer such pattern does, else it replies 404. The handler of a pattern gets the path from that
-- last slash on as its subpath.
pub serve_http-Serves :
    (mux : ServeMux) (req : Request) (resp : Response)
    → IsMux mux
    → Serves mux.funcs req resp (serve_http mux req resp)
unfolding serve_http
serve_http-Serves mux req resp h = elim (Option-cases (find req.path mux.funcs)) [
  | inr (e, f) ↦ rw (f, serve_http) (exact e f)
  | inl n ↦ serve_listed mux req resp _ h n refl (find_prefix-IsFirst req.path mux.prefix_funcs h.0)
]

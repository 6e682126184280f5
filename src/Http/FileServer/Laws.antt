-- ===== src/Http/FileServer/Laws.antt =====
-- Which files a request reaches.
use altas.Prelude.{
  ℕ, ◌≡◌, refl, ◌≢◌, ap, ◌∙◌, inl, inr, Bool, true, false, Bool-cases, Option-cases, [], ◌∷◌, ◌++◌,
  Option, Bytes, codes, get_or, if◌then◌else◌, bytes_eq_refl, arith,
}
use altas.OrdMap.{find}
use altas.OrdMap.Laws.{find-insert}
use altas.Http.Request.{Request}
use altas.Http.Response.{Response, StatusType, stock_reply}
use altas.Http.FileServer.{
  c_str, add_file, serve_path, FileServer, add_file, has_dots, is_refused, index_path, found_reply,
  serve_http,
}

-- Two dots stand side by side nowhere.
abbrev pub NoDots : Bytes → Type 0
NoDots path = (a b : Bytes) → path ≢ a ++ b'.' ∷ (b'.' ∷ b)

has_dots-cons : (c : ℕ) (path : Bytes) → has_dots path ≡ true → has_dots (c ∷ path) ≡ true
unfolding has_dots
has_dots-cons c [] h = h
has_dots-cons c (d ∷ path) h = ground arith

has_dots_found : (a b : Bytes) → has_dots (a ++ b'.' ∷ (b'.' ∷ b)) ≡ true
unfolding has_dots
has_dots_found [] b = refl
has_dots_found (c ∷ a) b = has_dots-cons c _ (has_dots_found a b)

NoDots-has_dots : (path : Bytes) → has_dots path ≡ false → NoDots path
NoDots-has_dots path h a b e = ground (arith, ap has_dots e, has_dots_found a b)

has_dots-index : (path : Bytes) → has_dots (path ++ codes "index.html") ≡ has_dots path
unfolding has_dots
has_dots-index [] = refl
has_dots-index (c ∷ []) = ground arith
has_dots-index (c ∷ (d ∷ path)) = ground (arith, has_dots-index (d ∷ path))

-- The path that is looked up is absolute and holds no two dots.
abbrev pub IsInside : Bytes → Type 0
IsInside path = (get_or path 0 0 ≡ b'/') × NoDots path

if-IsInside : (b : Bool) {p q : Bytes} → IsInside p → IsInside q → IsInside (if b then p else q)
if-IsInside true hp hq = hp
if-IsInside false hp hq = hq

index_path-IsInside : (path : Bytes) → is_refused path ≡ false → IsInside (index_path path)
unfolding is_refused index_path
index_path-IsInside [] h = absurd (ground arith)
index_path-IsInside (c ∷ path) h =
    if-IsInside _
      (
        ground arith,
        NoDots-has_dots (c ∷ (path ++ codes "index.html"))
            (has_dots-index (c ∷ path) ∙ ground arith),
      )
      (ground arith, NoDots-has_dots (c ∷ path) (ground arith))

serve_path_agree :
    (f g : Bytes → Option Bytes) (server : FileServer) (path : Bytes) (rep : Response)
    → f (c_str (server.root ++ path)) ≡ g (c_str (server.root ++ path))
    → serve_path f server path rep ≡ serve_path g server path rep
unfolding serve_path
serve_path_agree f g server path rep e = elim (Option-cases (find path server.files)) [
  | inl n ↦ rw (n, e, serve_path)
  | inr (c, q) ↦ rw (q, serve_path)
]

-- The reply depends on the file system only through the files under the root whose path is absolute
-- and holds no "..": two file systems that agree on those give the same reply to every request.
pub serve_http_inside :
    (f g : Bytes → Option Bytes) (server : FileServer) (req : Request) (rep : Response)
    → ((path : Bytes)
        → IsInside path
        → f (c_str (server.root ++ path)) ≡ g (c_str (server.root ++ path)))
    → serve_http f server req rep ≡ serve_http g server req rep
unfolding serve_http
serve_http_inside f g server req rep h = elim (Bool-cases (is_refused req.subpath)) [
  | inl e ↦ rw e refl
  | inr e ↦ rw e (serve_path_agree f g server _ rep (h _ (index_path-IsInside req.subpath e)))
]

-- The file server serves a file that was added under the path it looks up, "index.html" put behind
-- a path that ends in a slash, whatever the file system and the response held before; every
-- path that is not absolute or holds ".." gets the reply 400.
pub serve_http-add_file :
    (f : Bytes → Option Bytes) (content : Bytes) (server : FileServer) (req : Request)
    (rep : Response)
    → serve_http f (add_file (index_path req.subpath) content server) req rep ≡ (
        if is_refused req.subpath
        then stock_reply StatusType.bad_request
        else found_reply (index_path req.subpath) content)
unfolding serve_http add_file serve_path
serve_http-add_file f content server req rep = ground (
  arith,
  find-insert (index_path req.subpath) (index_path req.subpath) content server.files,
  bytes_eq_refl (index_path req.subpath),
)

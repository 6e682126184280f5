-- ===== src/Http/FileServer.antt =====
-- cppboot/net/http/server/file_server.h and file_server.cc. `read_file` stands for the file system:
-- the content of a file that opens, none of one that does not.
pub mod Laws
use altas.Prelude.{
  span_until, ℕ, ◌+◌, ◌-◌, ◌≡◌, Bool, true, false, not, ◌||◌, List, [], ◌∷◌, ◌++◌, Option, none,
  some, Bytes, codes, decimal, is_empty, length, drop, get_or, if◌then◌else◌, ltb, ◌==◌, bytes_eq,
}
use altas.OrdMap.{OrdMap, find, insert}
use altas.StrUtil.{find_last_of}
use altas.Http.Request.{Header, Request}
use altas.Http.Response.{Response, StatusType, stock_reply, content_length, content_type}

unfoldable pub extension_to_type : Bytes → Bytes
extension_to_type extension =
    if bytes_eq (codes "gif") extension
    then codes "image/gif"
    else if bytes_eq (codes "htm") extension
    then codes "text/html"
    else if bytes_eq (codes "html") extension
    then codes "text/html"
    else if bytes_eq (codes "jpg") extension
    then codes "image/jpeg"
    else if bytes_eq (codes "png") extension
    then codes "image/png"
    else codes "text/plain"

pub record FileServer : Type 0 where
  pub root : Bytes
  pub files : OrdMap Bytes

unfoldable pub add_file : Bytes → Bytes → FileServer → FileServer
add_file path content server = record server { files = insert path content server.files }

-- `find("..") != npos`
unfoldable pub has_dots : Bytes → Bool
has_dots [] = false
has_dots (c ∷ []) = false
has_dots (c ∷ (d ∷ cs)) =
    let later = has_dots (d ∷ cs) in
    if c == b'.' then (if d == b'.' then true else later) else later

unfoldable pub is_refused : Bytes → Bool
is_refused path = is_empty path || (not (get_or path 0 0 == b'/') || has_dots path)

unfoldable pub index_path : Bytes → Bytes
index_path path =
    if get_or path (length path - 1) 0 == b'/' then path ++ codes "index.html" else path

-- The comparison of the two positions, where none is `npos`, which is above every position.
abbrev is_after : Option ℕ → Option ℕ → Bool
is_after none slash = false
is_after (some dot) none = false
is_after (some dot) (some slash) = ltb slash dot

unfoldable pub extension_of : Bytes → Bytes
extension_of path = elim (find_last_of (b'.' ∷ []) path) [
  | none ↦ []
  | some dot ↦
      if is_after (some dot) (find_last_of (b'/' ∷ []) path) then drop (dot + 1) path else []
]

unfoldable pub found_reply : Bytes → Bytes → Response
found_reply path content = record {
  status = StatusType.ok;
  headers =
      record { name = content_length; value = decimal (length content) }
      ∷ record { name = content_type; value = extension_to_type (extension_of path) }
      ∷ [];
  content = content;
}

-- `c_str()` as the system reads it: up to the first zero byte.
unfoldable pub c_str : Bytes → Bytes
c_str s = (span_until 0 s).0

-- What follows the checks. The content: that of the map, else what the response held with the file
-- behind it.
unfoldable pub serve_path : (Bytes → Option Bytes) → FileServer → Bytes → Response → Response
serve_path read_file server path rep = elim (find path server.files) [
  | some content ↦ found_reply path content
  | none ↦ elim (read_file (c_str (server.root ++ path))) [
    | none ↦ stock_reply StatusType.not_found
    | some content ↦ found_reply path (rep.content ++ content)
  ]
]

unfoldable pub serve_http : (Bytes → Option Bytes) → FileServer → Request → Response → Response
serve_http read_file server req rep =
    if is_refused req.subpath
    then stock_reply StatusType.bad_request
    else serve_path read_file server (index_path req.subpath) rep

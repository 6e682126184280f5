-- ===== src/Http/Request.antt =====
-- cppboot/net/http/header.h, request.h and request.cc.
use altas.Prelude.{
  ℕ, List, [], ◌∷◌, ◌++◌, Option, none, some, Bytes, codes, decimal, is_empty, length,
  if◌then◌else◌, bytes_eq,
}
use altas.Http.FormData.{FormData, CString}
use altas.Http.FormData
use altas.Http.Url.{Url, empty_url, is_valid, new_url}

pub record Header : Type 0 where
  pub name : Bytes
  pub value : Bytes

-- The two version numbers are bit patterns of 32 bits.
pub record Request : Type 0 where
  pub method : Bytes
  pub uri : Bytes
  pub http_version_major : ℕ
  pub http_version_minor : ℕ
  pub headers : List Header
  pub content : Bytes
  pub path : Bytes
  pub subpath : Bytes
  pub params : FormData
  pub host : Bytes
  pub url : Url

-- `Request()`. It leaves the version numbers as they were in memory: arguments here.
unfoldable pub default_request : ℕ → ℕ → Request
default_request major minor = record {
  method = [];
  uri = [];
  http_version_major = major;
  http_version_minor = minor;
  headers = [];
  content = [];
  path = [];
  subpath = [];
  params = record { values = [] };
  host = [];
  url = empty_url;
}

with_url : Request → Url → Request
with_url r u =
    if is_valid u
    then record r {
      url = u;
      path = u.raw_path;
      uri = if is_empty u.raw_query then u.raw_path else u.raw_path ++ (b'?' ∷ u.raw_query);
      host = u.host;
    }
    else record r { url = u }

-- `Request(method, raw_url)`, where the constructor of the URL may read outside of its text.
unfoldable pub new_request : ℕ → ℕ → Bytes → Bytes → Option Request
unfolding with_url default_request
new_request major minor method raw_url = elim (new_url raw_url) [
  | none ↦ none
  | some u ↦ some (with_url (record (default_request major minor) { method = method }) u)
]

unfoldable pub set_header_in : Bytes → Bytes → List Header → List Header
set_header_in name value [] = record { name = name; value = value } ∷ []
set_header_in name value (h ∷ hs) =
    if bytes_eq h.name name
    then record h { value = value } ∷ hs
    else h ∷ set_header_in name value hs

unfoldable pub set_header : Bytes → Bytes → Request → Request
unfolding set_header_in
set_header name value r = record r { headers = set_header_in name value r.headers }

unfoldable pub param : CString → Request → Bytes
param key r = FormData.get key r.params

abbrev pub crlf : Bytes
crlf = b'\r' ∷ b'\n' ∷ []

-- What `to_buffers` writes: the request on the wire.
unfoldable pub to_buffers : Request → Bytes
to_buffers r =
    r.method
    ++ (b' '
        ∷ (r.url.raw_path
            ++ ((if is_empty r.url.raw_query then [] else b'?' ∷ r.url.raw_query)
                ++ (codes " HTTP/1.0\r\n"
                    ++ (codes "Host: "
                        ++ (r.url.host
                            ++ (crlf
                                ++ (codes "Accept: */*\r\n"
                                    ++ ((if is_empty r.content
                                          then []
                                          else codes "Content-Length: "
                                            ++ (decimal (length r.content) ++ crlf))
                                        ++ (codes "TcpConnection: close\r\n\r\n"
                                            ++ r.content))))))))))

-- ===== src/Http/Client.antt =====
-- cppboot/net/http/client.cc. The sockets of the asio library are parameters: a read is one chunk
-- of the bytes that come, and behind the last one stands what ends them. The extractions of a
-- stream are those of the standard library in the "C" locale.
pub mod Chunks
pub mod Reading
use altas.Prelude.{
  concat, ℕ, ◌+◌, ◌-◌, ◌*◌, ◌%◌, ◌≡◌, Bool, true, false, not, ◌&&◌, ◌||◌, List, [], ◌∷◌, ◌++◌,
  Option, none, some, Bytes, codes, is_empty, take, drop, decimal, bytes_eq, span_until,
  if◌then◌else◌, ◌==◌, leb, ltb,
}
use altas.Words.{u32_mod}
use altas.StrUtil.{begins, str_trim, find_first_of, find_last_of}
use altas.Status.{Status, ok_status, invalid_argument_error, cancelled_error}
use altas.Http.FormData.{FormData, encode}
use altas.Http.Url.{Url}
use altas.Http.Request.{Request, new_request, to_buffers, set_header}
use altas.Http.Response.{Response, StatusType}
use altas.Http.Response

unfoldable pub holds : Bytes → Bytes → Bool
holds delimiter [] = is_empty delimiter
holds delimiter (c ∷ cs) = begins delimiter (c ∷ cs) || holds delimiter cs

-- `asio::read_until` on a buffer: the buffer and the reads that are left. None is an exception.
unfoldable pub read_until : Bytes → Bytes → List Bytes → Option (Bytes × List Bytes)
read_until delimiter buffer [] = if holds delimiter buffer then some (buffer, []) else none
read_until delimiter buffer (chunk ∷ chunks) =
    let later = read_until delimiter (buffer ++ chunk) chunks in
    if holds delimiter buffer then some (buffer, chunk ∷ chunks) else later

unfoldable pub is_space : ℕ → Bool
is_space c = c == 32 || (leb 9 c && leb c 13)

unfoldable pub skip_space : Bytes → Bytes
skip_space [] = []
skip_space (c ∷ cs) = if is_space c then skip_space cs else c ∷ cs

unfoldable pub word : Bytes → Bytes × Bytes
word [] = ([], [])
word (c ∷ cs) = let (w, rest) = word cs in if is_space c then ([], c ∷ cs) else (c ∷ w, rest)

-- `stream >> text`, where none sets the failbit.
unfoldable pub extract_string : Bytes → Option (Bytes × Bytes)
extract_string s = if is_empty (skip_space s) then none else some (word (skip_space s))

is_digit : ℕ → Bool
is_digit c = leb b'0' c && leb c b'9'

-- The digits at the front, onto the number read so far, and whether there are any.
digits : ℕ → Bool → Bytes → ℕ × Bool × Bytes
unfolding is_digit
digits n any [] = (n, any, [])
digits n any (c ∷ cs) =
    let more = digits (n * 10 + (c - b'0')) true cs in if is_digit c then more else (n, any, c ∷ cs)

-- A number that does not fit sets the failbit; a negative one wraps around.
in_range : Bool → ℕ × Bool × Bytes → Option (ℕ × Bytes)
in_range minus (n, any, rest) =
    if any && ltb n u32_mod then some (if minus then (u32_mod - n) % u32_mod else n, rest) else none

signed : Bytes → Option (ℕ × Bytes)
unfolding digits in_range
signed [] = none
signed (c ∷ cs) =
    if c == b'-'
    then in_range true (digits 0 false cs)
    else if c == b'+'
    then in_range false (digits 0 false cs)
    else in_range false (digits 0 false (c ∷ cs))

-- `stream >> number` of an `unsigned int`
unfoldable pub extract_unsigned : Bytes → Option (ℕ × Bytes)
unfolding signed
extract_unsigned s = signed (skip_space s)

-- `std::getline`: the line and what follows its newline.
unfoldable pub get_line : Bytes → Option (Bytes × Bytes)
get_line [] = none
get_line (c ∷ cs) = let (line, rest) = span_until b'\n' (c ∷ cs) in some (line, drop 1 rest)

-- The version, the code and what follows the status line.
unfoldable pub status_line : Bytes → Option (Bytes × ℕ × Bytes)
status_line s = elim (extract_string s) [
  | none ↦ none
  | some (version, s') ↦ elim (extract_unsigned s') [
    | none ↦ none
    | some (code, s'') ↦ elim (get_line s'') [
      | none ↦ none
      | some (message, rest) ↦ some (version, code, rest)
    ]
  ]
]

unfoldable pub add_line : Bytes → Response → Response
add_line header resp = elim (find_first_of (codes ":") header 0) [
  | none ↦ resp
  | some colon ↦
      Response.set_header (take colon header) (str_trim (drop (colon + 1) header) []) resp
]

-- The loop over the header lines, where `line` is the part of the current one that was read.
unfoldable pub header_lines : Bytes → Bytes → Response → Response × Bytes
header_lines line [] resp =
    if is_empty line || bytes_eq line (codes "\r") then (resp, []) else (add_line line resp, [])
header_lines line (c ∷ cs) resp =
    let next = header_lines [] cs (add_line line resp) in
    let longer = header_lines (line ++ c ∷ []) cs resp in
    if c == b'\n' then (if bytes_eq line (codes "\r") then (resp, cs) else next) else longer

-- What ends the bytes: the end of the connection, or another error. `what` is the message of the
-- exception.
pub record Ending : Type 0 where
  pub is_eof : Bool
  pub what : Bytes

-- Behind the headers: the rest of the buffer and all further reads.
read_content : Ending → List Bytes → Response × Bytes → Status × Response
read_content ending chunks (resp, rest) =
    if ending.is_eof
    then (ok_status, record resp { status = StatusType.ok; content = rest ++ concat chunks })
    else (cancelled_error ending.what, resp)

read_headers : Ending → Bytes → List Bytes → Response → Status × Response
unfolding read_content
read_headers ending rest chunks resp = elim (read_until (codes "\r\n\r\n") rest chunks) [
  | none ↦ (cancelled_error ending.what, resp)
  | some (buffer, chunks') ↦ read_content ending chunks' (header_lines [] buffer resp)
]

-- Behind the first line.
check_status : Ending → List Bytes → Response → Option (Bytes × ℕ × Bytes) → Status × Response
unfolding read_headers
check_status ending chunks resp none = (invalid_argument_error (codes "Invalid response"), resp)
check_status ending chunks resp (some (version, code, rest)) =
    if not (bytes_eq (take 5 version) (codes "HTTP/"))
    then (invalid_argument_error (codes "Invalid response"), resp)
    else if not (code == 200)
    then (
      invalid_argument_error (codes "Response returned with status code " ++ decimal code),
      resp,
    )
    else read_headers ending rest chunks resp

unfoldable pub read_response : Ending → List Bytes → Response → Status × Response
unfolding check_status
read_response ending chunks resp = elim (read_until (codes "\r\n") [] chunks) [
  | none ↦ (cancelled_error ending.what, resp)
  | some (buffer, chunks') ↦ check_status ending chunks' resp (status_line buffer)
]

-- The host and the service that are resolved. The position of a missing colon is the greatest
-- number, so `substr` up to it is the whole host, and one above it is 0.
unfoldable pub endpoint_from_url : Url → Bytes × Bytes
endpoint_from_url url = elim (find_last_of (codes ":") url.host) [
  | none ↦ (if is_empty url.host then codes "0.0.0.0" else url.host, url.host)
  | some colon ↦
      if colon == 0
      then (url.host, url.scheme)
      else (take colon url.host, drop (colon + 1) url.host)
]

-- The network: the reads that come back from a host and a service for a text that is written to it.
abbrev pub Network : Type 0
Network = Bytes × Bytes → Bytes → Ending × List Bytes

unfoldable pub do_request : Network → Request → Response → Status × Response
do_request network req resp =
    let (ending, chunks) = network (endpoint_from_url req.url) (to_buffers req) in
    read_response ending chunks resp

sent_by : Network → Response → (Request → Request) → Option Request → Option (Status × Response)
sent_by network resp f none = none
sent_by network resp f (some req) = some (do_request network (f req) resp)

-- The version numbers of the request are as they were in memory. None is a read outside of the URL.
unfoldable pub get : Network → ℕ → ℕ → Bytes → Response → Option (Status × Response)
unfolding sent_by
get network major minor url resp =
    sent_by network resp (λ req. req) (new_request major minor (codes "GET") url)

with_content : Bytes → Bytes → Request → Request
with_content type content req =
    set_header (codes "Content-Type") type (record req { content = content })

unfoldable pub post : Network → ℕ → ℕ → Bytes → Bytes → Response → Option (Status × Response)
unfolding sent_by with_content
post network major minor url content resp =
    sent_by network resp (with_content (codes "text/plain") content)
      (new_request major minor (codes "POST") url)

-- The text of the JSON document is an argument.
unfoldable pub post_json : Network → ℕ → ℕ → Bytes → Bytes → Response → Option (Status × Response)
unfolding sent_by with_content
post_json network major minor url text resp =
    sent_by network resp (with_content (codes "application/json") text)
      (new_request major minor (codes "POST") url)

unfoldable pub post_form :
    Network → ℕ → ℕ → Bytes → FormData → Response → Option (Status × Response)
unfolding sent_by with_content
post_form network major minor url form resp =
    sent_by network resp (with_content (codes "text/html") (encode form))
      (new_request major minor (codes "POST") url)

-- ===== src/Http/Client/Reading.antt =====
-- A response that the server writes, read by the client.
use altas.Prelude.{
  All-map, concat, ℕ, ◌+◌, ◌≡◌, refl, sym, ap, ◌∙◌, inl, inr, Bool-cases, true, false, List, [],
  ◌∷◌, ◌++◌, append_assoc, append-nil, some, Bytes, codes, bytes_eq, bytes_eq_sound, length, drop,
  take-append, drop-append, length-append, ◌==◌, arith, All, Free, Free-append, span_until,
}
use altas.StrUtil.{str_trim, find_first_of, contains_byte}
use altas.StrUtil.Trim.{Stays, str_trim_lem, first_from-some}
use altas.Status.{Status, ok_status}
use altas.Http.Request.{Header}
use altas.Http.Response.{Response, StatusType, to_buffers, to_buffer}
use altas.Http.Response.Laws.{line_of, head_text, to_buffers-text}
use altas.Http.Response
use altas.Http.Client.Chunks.{
  read_until_lem, cut_cases, Free-short, Free-holds, blank_line, head_short,
}
use altas.StrUtil.{begins}
use altas.Http.Client.{
  holds, add_line, header_lines, Ending, read_content, read_headers, check_status, read_response,
  status_line, extract_string, extract_unsigned, get_line, skip_space, is_space, word,
}

-- A header that is read back: no ':' and no newline in its name, no newline in its value, and the
-- value begins and ends with bytes that trimming keeps.
abbrev pub IsPlain : Header → Type 0
IsPlain h =
    Free b':' h.name
    × Free b'\n' h.name
    × Free b'\n' h.value
    × ((c d : ℕ) × (t u : Bytes) × (h.value ≡ c ∷ t)
        × (h.value ≡ u ++ d ∷ [])
        × Stays [] c
        × Stays [] d)

-- What reading the headers makes of a response.
abbrev pub set_headers : List Header → Response → Response
set_headers [] resp = resp
set_headers (h ∷ hs) resp = set_headers hs (Response.set_header h.name h.value resp)

drop_past : (xs : Bytes) (c : ℕ) (ys : Bytes) → drop (length xs + 1) (xs ++ c ∷ ys) ≡ ys
drop_past xs c ys =
    ap (drop (length xs + 1)) (sym (append_assoc xs (c ∷ []) ys))
    ∙ drop-append (xs ++ c ∷ []) ys _ (omega (arith, length-append xs (c ∷ [])))

no_colon : (s : Bytes) → Free b':' s → All (λ c. contains_byte (codes ":") c ≡ false) s
no_colon [] f = tt
no_colon (c ∷ s) (n, f) = (ground arith, no_colon s f)

first_colon :
    (name rest : Bytes)
    → Free b':' name
    → find_first_of (codes ":") (name ++ b':' ∷ rest) 0 ≡ some (length name)
first_colon name rest f =
    first_from-some (contains_byte (codes ":")) 0 name rest b':' (no_colon name f) refl
    ∙ ap some (omega arith)

add_line_of :
    (h : Header) (resp : Response)
    → IsPlain h
    → add_line (line_of h) resp ≡ Response.set_header h.name h.value resp
unfolding add_line
add_line_of h resp (colon, n, v, (c, d, t, u, e, g, p, q)) =
    let value =
      (str_trim_lem [] (b' ' ∷ []) h.value (b'\r' ∷ []) t u c d (refl, tt) (refl, tt) e g p q).0 in
    let rest = b' ' ∷ (h.value ++ b'\r' ∷ []) in
    rw (first_colon h.name rest colon, add_line)
      (ap
          (λ z.
            Response.set_header z (str_trim (drop (length h.name + 1) (h.name ++ b':' ∷ rest)) [])
              resp)
          (take-append h.name (b':' ∷ rest) (length h.name) refl)
        ∙ ap (λ z. Response.set_header h.name (str_trim z []) resp) (drop_past h.name b':' rest)
        ∙ ap (λ z. Response.set_header h.name z resp) value)

-- A text without a newline is added to the line.
line_read :
    (line text rest : Bytes) (resp : Response)
    → Free b'\n' text
    → header_lines line (text ++ rest) resp ≡ header_lines (line ++ text) rest resp
unfolding header_lines
line_read line [] rest resp f = ap (λ z. header_lines z rest resp) (sym (append-nil line))
line_read line (c ∷ text) rest resp (n, f) =
    let other : (c == b'\n') ≡ false = ground arith in
    rw other (
      line_read (line ++ c ∷ []) text rest resp f
      ∙ ap (λ z. header_lines z rest resp) (append_assoc line (c ∷ []) text))

Free-line : (h : Header) → IsPlain h → Free b'\n' (line_of h)
Free-line h (colon, n, v, p) =
    Free-append b'\n' h.name _ n
      (ground arith, (ground arith, Free-append b'\n' h.value (b'\r' ∷ []) v (ground arith, tt)))

not_blank : (h : Header) → bytes_eq (line_of h) (codes "\r") ≡ false
not_blank h = elim (Bool-cases (bytes_eq (line_of h) (codes "\r"))) [
  | inl e ↦
      let same = ap length (bytes_eq_sound (line_of h) (codes "\r") e) in
      absurd (omega (arith, same, length-append h.name (b':' ∷ b' ' ∷ (h.value ++ b'\r' ∷ []))))
  | inr e ↦ e
]

line_ends :
    (line rest : Bytes) (resp : Response)
    → bytes_eq line (codes "\r") ≡ false
    → header_lines line (b'\n' ∷ rest) resp ≡ header_lines [] rest (add_line line resp)
unfolding header_lines
line_ends line rest resp e = rw e refl

-- The loop reads all headers and the empty line.
headers_read :
    (hs : List Header) (rest : Bytes) (resp : Response)
    → All IsPlain hs
    → header_lines [] (head_text hs ++ (b'\r' ∷ b'\n' ∷ rest)) resp ≡ (set_headers hs resp, rest)
headers_read [] rest resp a = unfold header_lines bytes_eq in refl
headers_read (h ∷ hs) rest resp (p, a) =
    let more = head_text hs ++ (b'\r' ∷ b'\n' ∷ rest) in
    ap (λ z. header_lines [] z resp)
      (append_assoc (line_of h) (b'\n' ∷ head_text hs) (b'\r' ∷ b'\n' ∷ rest))
    ∙ line_read [] (line_of h) (b'\n' ∷ more) resp (Free-line h p)
    ∙ line_ends (line_of h) more resp (not_blank h)
    ∙ ap (header_lines [] more) (add_line_of h resp p)
    ∙ headers_read hs rest (Response.set_header h.name h.value resp) a

begins_self : (d rest : Bytes) → begins d (d ++ rest) ≡ true
unfolding begins
begins_self [] rest = refl
begins_self (c ∷ d) rest = ground (arith, begins_self d rest)

holds-append : (c : ℕ) (d before after : Bytes) → holds (c ∷ d) (before ++ (c ∷ d ++ after)) ≡ true
unfolding holds
holds-append c d [] after = rw (begins_self (c ∷ d) after) refl
holds-append c d (b ∷ before) after = ground (arith, holds-append c d before after)

-- Behind the last header there is an empty line.
ends_blank :
    (h : Header) (hs : List Header) (rest : Bytes)
    → (a : Bytes) × (head_text (h ∷ hs) ++ (b'\r' ∷ b'\n' ∷ rest) ≡ a ++ (codes "\r\n\r\n" ++ rest))
ends_blank h [] rest = (h.name ++ b':' ∷ b' ' ∷ h.value, simp append_assoc)
ends_blank h (g ∷ hs) rest =
    let (a, e) = ends_blank g hs rest in
    (
      line_of h ++ b'\n' ∷ a,
      append_assoc (line_of h) (b'\n' ∷ head_text (g ∷ hs)) (b'\r' ∷ b'\n' ∷ rest)
          ∙ ap (λ z. line_of h ++ b'\n' ∷ z) e
          ∙ sym (append_assoc (line_of h) (b'\n' ∷ a) (codes "\r\n\r\n" ++ rest)),
    )

status_read :
    (rest : Bytes)
    → status_line (codes "HTTP/1.0 200 OK\r\n" ++ rest) ≡ some (codes "HTTP/1.0", 200, rest)
unfolding status_line extract_string extract_unsigned get_line skip_space is_space word span_until
status_read rest = refl

-- The response of status 200 with these headers and this content.
abbrev pub ok_response : List Header → Bytes → Response
ok_response hs content = record { status = StatusType.ok; headers = hs; content = content }

module _ (ending : Ending) (h : Header) (hs : List Header) (content : Bytes) (resp : Response)
    (eof : ending.is_eof ≡ true) (plain : All IsPlain (h ∷ hs)) where
  abbrev after_status : Bytes
  after_status = head_text (h ∷ hs) ++ (b'\r' ∷ b'\n' ∷ content)

  abbrev whole_head : Bytes
  whole_head = head_text (h ∷ hs) ++ codes "\r\n"

  abbrev outcome : Status × Response
  outcome =
      (ok_status, record (set_headers (h ∷ hs) resp) { status = StatusType.ok; content = content })

  head_cut : after_status ≡ whole_head ++ content
  head_cut = sym (append_assoc (head_text (h ∷ hs)) (codes "\r\n") content)

  -- The whole head is in the buffer.
  rest_read :
      (w : Bytes) (rest : List Bytes)
      → w ++ concat rest ≡ content
      → read_content ending rest (header_lines [] (whole_head ++ w) resp) ≡ outcome
  unfolding read_content
  rest_read w rest e =
      let lines : header_lines [] (whole_head ++ w) resp ≡ (set_headers (h ∷ hs) resp, w) =
        ap (λ z. header_lines [] z resp) (append_assoc (head_text (h ∷ hs)) (codes "\r\n") w)
        ∙ headers_read (h ∷ hs) w resp plain in
      ap (read_content ending rest) lines ∙ rw (eof, e) refl

  -- Behind the status line.
  head_read :
      (w : Bytes) (rest : List Bytes)
      → w ++ concat rest ≡ after_status
      → read_headers ending w rest resp ≡ outcome
  unfolding read_headers
  head_read w rest e =
      let (a, k) = ends_blank h hs content in
      let full : holds blank_line (w ++ concat rest) ≡ true =
        ap (holds blank_line) (e ∙ k) ∙ holds-append b'\r' (codes "\n\r\n") a content in
      let (b, chunks, r, g, s) = read_until_lem blank_line w rest full in
      elim (cut_cases b (concat chunks) whole_head content (s ∙ e ∙ head_cut)) [
        | inl (w', f, c) ↦
            rw (r, read_headers)
              (ap (λ z. read_content ending chunks (header_lines [] z resp)) f
                ∙ rest_read w' chunks c)
        | inr (v, n, f) ↦
            let short = head_short (h ∷ hs) b v (All-map (h ∷ hs) Free-line plain) n f in
            absurd (let x : false ≡ true = sym short ∙ g in cc)
      ]

  status_ok :
      (w : Bytes) (rest : List Bytes)
      → check_status ending rest resp (some (codes "HTTP/1.0", 200, w))
        ≡ read_headers ending w rest resp
  unfolding check_status bytes_eq
  status_ok w rest = refl

  -- The client reads a response of status 200 that the server writes, with one header at least, in
  -- chunks of any lengths until the connection ends: the call is ok, the response has the server's
  -- headers set, one after the other, and the server's content. The names hold no ':' and no
  -- newline; the values hold no newline and begin and end with bytes other than blanks.
  pub read_response-to_buffers :
      (chunks : List Bytes)
      → concat chunks ≡ concat (to_buffers (ok_response (h ∷ hs) content))
      → read_response ending chunks resp ≡ outcome
  unfolding read_response to_buffer
  read_response-to_buffers chunks e =
      let line : Bytes = codes "HTTP/1.0 200 OK\r\n" in
      let text : concat chunks ≡ line ++ after_status =
        e ∙ to_buffers-text (ok_response (h ∷ hs) content) in
      let full : holds (codes "\r\n") (concat chunks) ≡ true =
        ap (holds (codes "\r\n")) text
        ∙ holds-append b'\r' (codes "\n") (codes "HTTP/1.0 200 OK") after_status in
      let (b, rest, r, g, s) = read_until_lem (codes "\r\n") [] chunks full in
      elim (cut_cases b (concat rest) line after_status (s ∙ text)) [
        | inl (w, f, c) ↦
            rw (r, read_response)
              (ap (check_status ending rest resp) (ap status_line f ∙ status_read w)
                ∙ status_ok w rest
                ∙ head_read w rest c)
        | inr (v, n, f) ↦
            let short =
              Free-holds [] b (Free-short b v (codes "HTTP/1.0 200 OK\r") (ground arith) n f) in
            absurd (let x : false ≡ true = sym short ∙ g in cc)
      ]

-- ===== src/Tests/Connections.antt =====
-- A server with one connection: cppboot/net/http/server.
use altas.Prelude.{true, ◌≡◌, concat, ℕ, refl, List, [], ◌∷◌, Bytes, codes, arith, take, drop}
use altas.Http.Request.{Header, Request, default_request}
use altas.Http.Request
use altas.Http.Response.{StatusType, to_buffers, to_buffer}
use altas.Http.Client.{Ending, read_response}
use altas.Http.Client.Reading.{ok_response, set_headers, read_response-to_buffers}
use altas.Status.{ok_status}
use altas.Http.ServeMux.{new_mux}
use altas.Http.Connections.{Server, Memory, no_error, first_reply, accept_done, shutdown}
use altas.Http.Connections.Steps.{Reach, here, next, accepts, shuts, listening}
use altas.Http.Connections.Laws.{IsServer, served-IsServer}

abbrev memory : ℕ → Memory
memory p = record { major = 7; minor = 7; status = StatusType.not_found }

abbrev accepted : Server
accepted = accept_done memory no_error (listening memory)

accepted-Reach : Reach memory new_mux (listening memory) accepted
accepted-Reach = next here (accepts no_error refl refl)

served-IsServer_example : IsServer memory new_mux (shutdown accepted)
served-IsServer_example = served-IsServer memory new_mux (next accepted-Reach (shuts refl))

abbrev get_request : Request
get_request = record (default_request 0 0) {
  method = codes "GET";
  content = [];
  url = record {
    scheme = codes "http";
    host = codes "h";
    raw_path = codes "/p";
    raw_query = codes "k";
  };
}

-- The text of the request in two chunks.
abbrev two_chunks : List Bytes
two_chunks = take 7 (Request.to_buffers get_request) ∷ drop 7 (Request.to_buffers get_request) ∷ []

-- The reply of the client's test, with one header, and its text in two reads.
abbrev text_header : Header
text_header = record { name = codes "Content-Type"; value = codes "text/plain" }

abbrev ended : Ending
ended = record { is_eof = true; what = [] }

abbrev reply_text : Bytes
reply_text = concat (to_buffers (ok_response (text_header ∷ []) (codes "hi")))

read_response-to_buffers_example :
    read_response ended (take 9 reply_text ∷ drop 9 reply_text ∷ []) (first_reply (memory 0)) ≡ (
      ok_status,
      record (set_headers (text_header ∷ []) (first_reply (memory 0))) {
        status = StatusType.ok;
        content = codes "hi";
      },
    )
unfolding to_buffers to_buffer
read_response-to_buffers_example =
    read_response-to_buffers ended text_header [] (codes "hi") (first_reply (memory 0)) refl
      (
        (
          ground arith,
          ground arith,
          ground arith,
          (b't', b'n', codes "ext/plain", codes "text/plai", refl, refl, refl, refl),
        ),
        tt,
      )
      (take 9 reply_text ∷ drop 9 reply_text ∷ []) refl

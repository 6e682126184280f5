-- ===== src/Http/Connections/Steps.antt =====
-- The steps of a server with its connections, in the order that the event loop takes them.
use altas.Prelude.{ℕ, ◌≡◌, true, false, List, [], Option, none, some, Bytes}
use altas.Http.Response.{bad_request, to_buffers, stock_reply}
use altas.Http.RequestParser.{good, bad, indeterminate, method_start}
use altas.Http.RequestParser.Run.{Parsed, parse}
use altas.Http.ServeMux.{ServeMux, serve_http}
use altas.Http.Connections.{
  ErrorCode, operation_aborted, reads, writes, TcpConnection, Server, Memory, first_request,
  first_reply, new_connection, accept_done, read_done, write_done, shutdown,
}

-- The operations of a socket are aborted by closing it.
abbrev pub May : ErrorCode → TcpConnection → Type 0
May operation_aborted c = c.is_open ≡ false
May _ c = Unit {0}

module _ (memory : ℕ → Memory) (mux : ServeMux) where
  -- The completion handlers run in the loop, each for an operation under way.
  pub data Step (s t : Server) : Type 0 where
    accepts : (ec : ErrorCode) → s.running ≡ true → t ≡ accept_done memory ec s → Step s t
    receives :
        (p : ℕ) (ec : ErrorCode) (chunk : Bytes)
        → s.running ≡ true
        → (s.heap p).pending ≡ reads
        → May ec (s.heap p)
        → read_done mux ec chunk p s ≡ some t
        → Step s t
    has_written :
        (p : ℕ) (b : List Bytes) (ec : ErrorCode)
        → s.running ≡ true
        → (s.heap p).pending ≡ writes b
        → May ec (s.heap p)
        → t ≡ write_done ec p s
        → Step s t
    shuts : t ≡ shutdown s → Step s t

  pub data Reach (s : Server) : Server → Type 0 where
    here : Reach s s
    next : {t u : Server} → Reach s t → Step t u → Reach s u

  pub Reach-trans : {s t u : Server} → Reach s t → Reach t u → Reach s u
  Reach-trans r here = r
  Reach-trans r (next q st) = next (Reach-trans r q) st

-- A server that listens, without a connection.
abbrev pub listening : (ℕ → Memory) → Server
listening memory = record {
  connections = [];
  heap = λ p. record (new_connection (memory p)) { is_open = false };
  next = 0;
  acceptor_open = true;
  running = true;
}

-- The reply to the request at the front of a text: that of the handlers, or that for a request that
-- is not well-formed. None while the request has not ended.
abbrev pub reply_to : ServeMux → Memory → Parsed → Option (List Bytes)
reply_to mux m none = none
reply_to mux m (some (good, rest, s, r)) = some (to_buffers (serve_http mux r (first_reply m)).1)
reply_to mux m (some (bad, rest, s, r)) = some (to_buffers (stock_reply bad_request))
reply_to mux m (some (indeterminate, rest, s, r)) = none

unfoldable pub answer : ServeMux → Memory → Bytes → Option (List Bytes)
answer mux m text = reply_to mux m (parse method_start (first_request m) text)

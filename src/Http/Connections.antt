-- ===== src/Http/Connections.antt =====
-- cppboot/net/http/server/connection.cc and connection_manager.cc, and the rest of
-- cppboot/net/http/server.cc. A pointer to a connection is a number. An operation of the asio library that is under
-- way is the `pending` field of its connection, and its completion handler is a function of the
-- error code and of what was read.
pub mod Steps
pub mod Laws
pub mod Answers
pub mod Exchange
use altas.Prelude.{
  ℕ, ◌+◌, ◌≡◌, Bool, true, false, List, [], ◌∷◌, ◌++◌, Option, none, some, Bytes, if◌then◌else◌,
  change, set_insert, set_erase,
}
use altas.Http.Request.{Request, default_request}
use altas.Http.Response.{Response, StatusType, bad_request, to_buffers, stock_reply}
use altas.Http.RequestParser.{ResultType, good, bad, indeterminate, State, method_start}
use altas.Http.RequestParser.Run.{Parsed, parse}
use altas.Http.ServeMux.{ServeMux, serve_http}

pub data ErrorCode : Type 0 where
  no_error operation_aborted other_error : ErrorCode

pub data Pending : Type 0 where
  nothing reads : Pending
  writes : (buffers : List Bytes) → Pending

-- `received` and `sent` are what was read so far, and the buffers of each write that has ended
-- without an error.
pub record TcpConnection : Type 0 where
  pub is_open : Bool
  pub state : State
  pub request : Request
  pub reply : Response
  pub pending : Pending
  pub received : Bytes
  pub sent : List (List Bytes)

-- `connections` is the set of the connection manager, `running` that of the event loop.
pub record Server : Type 0 where
  pub connections : List ℕ
  pub heap : ℕ → TcpConnection
  pub next : ℕ
  pub acceptor_open : Bool
  pub running : Bool

-- What a constructor leaves as it was in memory: the version of the request and the status of the
-- reply.
pub record Memory : Type 0 where
  pub major : ℕ
  pub minor : ℕ
  pub status : StatusType

abbrev pub first_request : Memory → Request
first_request m = default_request m.major m.minor

abbrev pub first_reply : Memory → Response
first_reply m = record { status = m.status; headers = []; content = [] }

unfoldable pub new_connection : Memory → TcpConnection
new_connection m = record {
  is_open = true;
  state = method_start;
  request = first_request m;
  reply = first_reply m;
  pending = nothing;
  received = [];
  sent = [];
}

unfoldable pub do_read : TcpConnection → TcpConnection
do_read c = record c { pending = reads }

unfoldable pub do_write : TcpConnection → TcpConnection
do_write c = record c { pending = writes (to_buffers c.reply) }

unfoldable pub stop : TcpConnection → TcpConnection
stop c = record c { is_open = false }

unfoldable pub manager_start : ℕ → Server → Server
manager_start p s = record s {
  connections = set_insert p s.connections;
  heap = change p do_read s.heap;
}

unfoldable pub manager_stop : ℕ → Server → Server
manager_stop p s = record s { connections = set_erase p s.connections; heap = change p stop s.heap }

stop_each : List ℕ → (ℕ → TcpConnection) → ℕ → TcpConnection
stop_each [] heap = heap
stop_each (p ∷ ps) heap = stop_each ps (change p stop heap)

unfoldable pub stop_all : Server → Server
unfolding stop_each
stop_all s = record s { connections = []; heap = stop_each s.connections s.heap }

unfoldable pub shutdown : Server → Server
shutdown s = record (stop_all s) { acceptor_open = false; running = false }

-- The handler of `DoAccept`, where the socket of the new connection is in the call.
unfoldable pub accept_done : (ℕ → Memory) → ErrorCode → Server → Server
accept_done memory ec s =
    if s.acceptor_open
    then elim ec [
      | no_error ↦ manager_start s.next (record s {
        heap = change s.next (λ c. new_connection (memory s.next)) s.heap;
        next = s.next + 1;
      })
      | _ ↦ s
    ]
    else s

-- What follows the parse of the bytes read.
unfoldable pub parsed : ServeMux → TcpConnection → Parsed → Option TcpConnection
parsed mux c none = none
parsed mux c (some (good, rest, s, r)) =
    let (request, reply) = serve_http mux r c.reply in
    some (do_write (record c { state = s; request = request; reply = reply }))
parsed mux c (some (bad, rest, s, r)) =
    some (do_write (record c { state = s; request = r; reply = stock_reply bad_request }))
parsed mux c (some (indeterminate, rest, s, r)) =
    some (do_read (record c { state = s; request = r }))

-- Put back the connection, where the parser has not failed.
put_back : ℕ → Server → Option TcpConnection → Option Server
put_back p s none = none
put_back p s (some c) = some (record s { heap = change p (λ d. c) s.heap })

abbrev pub took : Bytes → TcpConnection → TcpConnection
took chunk c = record c { pending = nothing; received = c.received ++ chunk }

-- The handler of `DoRead`. None is a fault of the parser.
unfoldable pub read_done : ServeMux → ErrorCode → Bytes → ℕ → Server → Option Server
unfolding put_back
read_done mux no_error chunk p s =
    let c = took chunk (s.heap p) in put_back p s (parsed mux c (parse c.state c.request chunk))
read_done mux operation_aborted chunk p s =
    some (record s { heap = change p (λ c. record c { pending = nothing }) s.heap })
read_done mux other_error chunk p s =
    some
      (manager_stop p (record s { heap = change p (λ c. record c { pending = nothing }) s.heap }))

abbrev pub buffers_of : Pending → List (List Bytes)
buffers_of (writes b) = b ∷ []
buffers_of _ = []

-- The handler of `DoWrite`. The shutdown of the socket does not close it.
unfoldable pub write_done : ErrorCode → ℕ → Server → Server
write_done no_error p s = manager_stop p (record s {
  heap =
      change p (λ c. record c { pending = nothing; sent = c.sent ++ buffers_of c.pending }) s.heap;
})
write_done operation_aborted p s = record s {
  heap = change p (λ c. record c { pending = nothing }) s.heap;
}
write_done other_error p s =
    manager_stop p (record s { heap = change p (λ c. record c { pending = nothing }) s.heap })

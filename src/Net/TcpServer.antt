-- ===== src/Net/TcpServer.antt =====
-- cppboot/net/tcp/server.cc and connection_manager.cc, and the server of examples/chat_room. The
-- connections in memory are a function of the pointer, and those from `next` on are free; the
-- manager has the pointers of its set. The callback on connections comes with its own state.
pub mod Laws
use altas.Prelude.{
  ℕ, ◌+◌, Bool, true, false, List, [], ◌∷◌, ◌++◌, Option, none, some, ◌>>=◌, Bytes, codes,
  if◌then◌else◌, change, set_insert, set_erase,
}
use altas.Net.Buffer.{append, retrive_all, str}
use altas.Net.TcpConn.{
  TcpConn, ErrorCode, no_error, operation_aborted, other_error, new_conn, start, stop, send,
}

-- `accepting` tells whether the acceptor waits for a connection.
pub record TcpServer : Type 0 where
  pub is_open : Bool
  pub accepting : Bool
  pub connections : List ℕ
  pub heap : ℕ → TcpConn
  pub next : ℕ

-- None is a failed assertion of a buffer.
unfoldable pub broadcast_to : Bytes → List ℕ → (ℕ → TcpConn) → Option (ℕ → TcpConn)
broadcast_to text [] heap = some heap
broadcast_to text (c ∷ connections) heap = elim (send text (heap c)) [
  | none ↦ none
  | some d ↦ broadcast_to text connections (change c (λ _. d) heap)
]

unfoldable pub broadcast : Bytes → TcpServer → Option TcpServer
broadcast text s = elim (broadcast_to text s.connections s.heap) [
  | none ↦ none
  | some heap ↦ some (record s { heap = heap })
]

module _ {S : Type 0} (conn_callback : TcpConn → S → S) where
  unfoldable pub manager_start : ℕ → TcpServer → S → TcpServer × S
  manager_start p s t =
      let (c, after) = start conn_callback (s.heap p) t in
      (
        record s { connections = set_insert p s.connections; heap = change p (λ _. c) s.heap },
        after,
      )

  unfoldable pub manager_stop : ℕ → TcpServer → S → TcpServer × S
  manager_stop p s t =
      let (c, after) = stop conn_callback (s.heap p) t in
      (record s { connections = set_erase p s.connections; heap = change p (λ _. c) s.heap }, after)

  unfoldable pub stop_each : List ℕ → (ℕ → TcpConn) → S → (ℕ → TcpConn) × S
  stop_each [] heap t = (heap, t)
  stop_each (p ∷ connections) heap t =
      let (c, after) = stop conn_callback (heap p) t in
      stop_each connections (change p (λ _. c) heap) after

  unfoldable pub stop_all : TcpServer → S → TcpServer × S
  stop_all s t =
      let (heap, after) = stop_each s.connections s.heap t in
      (record s { connections = []; heap = heap }, after)

  -- The handler of an accept, which does not look at its error code. The buffers of the new
  -- connection start with `size` bytes.
  unfoldable pub accept_done : ℕ → ErrorCode → TcpServer → S → TcpServer × S
  accept_done size ec s t =
      let made : TcpServer = record s {
        heap = change s.next (λ _. new_conn size) s.heap;
        next = s.next + 1;
      } in
      let (u, after) = manager_start s.next made t in
      if s.is_open
      then (record u { accepting = true }, after)
      else (record s { accepting = false }, t)

  -- The read handler of the connection `p`, where the callback is given the connection and the
  -- server. A connection that stops by itself stays in the manager's set.
  unfoldable pub read_at :
      (ℕ → TcpServer → S → Option (TcpServer × S))
      → ErrorCode
      → Bytes
      → ℕ
      → TcpServer
      → S
      → Option (TcpServer × S)
  read_at receive_callback no_error chunk p s t = elim (append chunk (s.heap p).input) [
    | none ↦ none
    | some b ↦
        receive_callback p
          (record s { heap = change p (λ (c : TcpConn). record c { input = b }) s.heap }) t
  ]
  read_at receive_callback operation_aborted chunk p s t = some (s, t)
  read_at receive_callback other_error chunk p s t =
      let (c, after) = stop conn_callback (s.heap p) t in
      some (record s { heap = change p (λ _. c) s.heap }, after)

-- `TcpServer::Stop` closes the acceptor.
unfoldable pub close_acceptor : TcpServer → TcpServer
close_acceptor s = record s { is_open = false }

unfoldable pub clear_input : TcpConn → TcpConn
clear_input c = record c { input = retrive_all c.input }

-- The chat room: what came goes to all, with the address that it came from.
unfoldable pub chat_reply : Bytes → Bytes → Bytes
chat_reply username text = (username ++ codes ": ") ++ text

unfoldable pub chat_receive :
    {S : Type 0} → (ℕ → Bytes) → ℕ → TcpServer → S → Option (TcpServer × S)
chat_receive remote_address p s t =
    elim (broadcast (chat_reply (remote_address p) (str (s.heap p).input)) s) [
      | none ↦ none
      | some u ↦ some (record u { heap = change p clear_input u.heap }, t)
    ]

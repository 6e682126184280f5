-- ===== src/Net/TcpConn.antt =====
-- cppboot/net/tcp/connection.cc and cppboot/net/connection.h. What the asio library does is
-- state: `posted` counts the calls of `WriteToSocket` that wait in the event loop, `writing` holds
-- the bytes of each write that was begun, and `wire` the bytes that the socket took. A write has the
-- bytes that could be read when it began. The state that callbacks keep is theirs.
pub mod Laws
pub mod Growth
use altas.Prelude.{
  ℕ, suc, ◌+◌, ◌-◌, ◌≡◌, Bool, true, false, List, [], ◌∷◌, ◌++◌, Option, none, some, Bytes, take,
  drop, if◌then◌else◌, ◌==◌,
}
use altas.Net.Buffer.{Buffer, new_buffer, append, retrive, readable_bytes, str}

pub data ErrorCode : Type 0 where
  no_error operation_aborted other_error : ErrorCode

pub data ConnState : Type 0 where
  k_disconnected k_connected : ConnState

-- `accepted` is all that was handed to `Send`.
pub record TcpConn : Type 0 where
  pub state : ConnState
  pub is_open : Bool
  pub input : Buffer
  pub output : Buffer
  pub posted : ℕ
  pub writing : List Bytes
  pub wire : Bytes
  pub accepted : Bytes

-- The socket that is handed over is open; the buffers have the size that they start with.
unfoldable pub new_conn : ℕ → TcpConn
new_conn size = record {
  state = k_disconnected;
  is_open = true;
  input = new_buffer size;
  output = new_buffer size;
  posted = 0;
  writing = [];
  wire = [];
  accepted = [];
}

-- The callbacks come with their own state.
module _ {S : Type 0} (conn_callback : TcpConn → S → S) where
  unfoldable pub start : TcpConn → S → TcpConn × S
  start c s = let d : TcpConn = record c { state = k_connected } in (d, conn_callback d s)

  unfoldable pub stop : TcpConn → S → TcpConn × S
  stop c s =
      let d : TcpConn = record c { state = k_disconnected } in
      (record d { is_open = false }, conn_callback d s)

  -- The handler of a read. None is a failed assertion of the buffer.
  unfoldable pub read_done :
      (TcpConn → Buffer → S → Buffer × S) → ErrorCode → Bytes → TcpConn → S → Option (TcpConn × S)
  read_done receive_callback no_error chunk c s = elim (append chunk c.input) [
    | none ↦ none
    | some input ↦ let (left, t) = receive_callback c input s in some (record c { input = left }, t)
  ]
  read_done receive_callback operation_aborted chunk c s = some (c, s)
  read_done receive_callback other_error chunk c s = some (stop c s)

-- None is a failed assertion of the buffer.
unfoldable pub send : Bytes → TcpConn → Option TcpConn
send text c = elim (append text c.output) [
  | none ↦ none
  | some output ↦
      some (record c { output = output; posted = c.posted + 1; accepted = c.accepted ++ text })
]

unfoldable pub write_to_socket : TcpConn → TcpConn
write_to_socket c =
    if readable_bytes c.output == 0
    then c
    else record c { writing = c.writing ++ str c.output ∷ [] }

-- The event loop runs a call that was posted.
unfoldable pub run_posted : TcpConn → TcpConn
run_posted c = write_to_socket (record c { posted = c.posted - 1 })

-- The handler of the oldest write, of which the socket took `n` bytes.
written : ℕ → List Bytes → TcpConn → TcpConn
written n [] c = c
written n (w ∷ ws) c =
    let d : TcpConn = record c {
      writing = ws;
      wire = c.wire ++ take n w;
      output = retrive n c.output;
    } in
    if readable_bytes d.output == 0 then d else write_to_socket d

-- The oldest write is over.
abbrev pub ended : TcpConn → TcpConn
ended c = record c { writing = drop 1 c.writing }

-- The handler of a write, of which the socket took `n` bytes if there was no error. After an error
-- what was not written stays in the buffer.
unfoldable pub write_done :
    {S : Type 0} → (TcpConn → S → S) → ErrorCode → ℕ → TcpConn → S → TcpConn × S
unfolding written
write_done conn_callback no_error n c s = (written n c.writing c, s)
write_done conn_callback operation_aborted n c s = (ended c, s)
write_done conn_callback other_error n c s = stop conn_callback (ended c) s

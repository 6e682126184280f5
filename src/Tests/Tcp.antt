-- ===== src/Tests/Tcp.antt =====
-- A connection that sends: cppboot/net/tcp/connection.cc.
use altas.Prelude.{
  false, ℕ, ◌≡◌, ◌>>=◌, refl, inl, true, [], ◌∷◌, ◌++◌, Option, none, some, Bytes, codes, has,
  change, arith,
}
use altas.Net.Buffer.{
  new_buffer, append, str, ensure_writable_bytes, writable_bytes, check_writable, has_written,
  retrive, retrive_all,
}
use altas.Net.TcpConn.{TcpConn, new_conn, send, run_posted, write_done, write_to_socket}
use altas.Net.TcpConn.Laws.{
  IsConn, IsConn-IsKept, IsIdle, succeeded, Reach, here, next, sends, runs, writes, Reach-delivers,
  two_sends,
}
use altas.Net.TcpServer.{TcpServer, broadcast, broadcast_to, chat_reply}
use altas.Net.TcpServer.Laws.{Takes, said, chat_read, broadcast_delivers, chat_read_lem}

abbrev fresh : TcpConn
fresh = new_conn 8

fresh-IsConn : IsConn fresh
unfolding new_conn new_buffer str
fresh-IsConn = record {
  in_order = ground arith;
  low = omega arith;
  nothing_lost = refl;
  in_flight = inl (refl, refl, refl);
}

two_sends_example :
    (d : TcpConn) × ((send (codes "a") fresh >>= send (codes "b")) ≡ some d)
    × ((succeeded 2 (succeeded 2 (run_posted (run_posted d)))).wire
        ≡ (fresh.wire ++ codes "ab") ++ codes "ab")
unfolding new_conn
two_sends_example =
    two_sends fresh (codes "a") (codes "b") fresh-IsConn (refl, refl) (omega arith) (omega arith)
      (omega arith)

abbrev got : Option TcpConn → TcpConn
got none = fresh
got (some c) = c

abbrev sent : TcpConn
sent = got (send (codes "ab") fresh)

-- The socket takes one byte, and then the other.
abbrev delivered : TcpConn
delivered = succeeded 1 (succeeded 1 (run_posted sent))

Reach-delivers_example :
    (delivered.wire ++ str delivered.output ≡ delivered.accepted)
    × (IsIdle delivered
        → delivered.is_open ≡ true
        → (delivered.wire ≡ delivered.accepted) × (str delivered.output ≡ []))
unfolding new_conn new_buffer str append send run_posted write_done ensure_writable_bytes
    writable_bytes check_writable has_written write_to_socket retrive retrive_all
Reach-delivers_example = Reach-delivers fresh delivered fresh-IsConn (
    next
      (next
        (next (next here (sends (codes "ab") (refl, refl) (omega arith) refl)) (runs 0 refl refl))
        (writes (codes "ab") [] 1 refl (omega arith) refl))
      (writes (codes "b") [] 1 refl (omega arith) refl))

-- Two connections on which nothing is under way.
abbrev room : TcpServer
room = record {
  is_open = true;
  accepting = true;
  connections = 1 ∷ 2 ∷ [];
  heap = λ _. fresh;
  next = 3;
}

fresh-Takes-hi : (q : ℕ) → has q room.connections ≡ true → Takes (codes "hi") (room.heap q)
unfolding new_conn
fresh-Takes-hi q h = record { in_order = IsConn-IsKept fresh fresh-IsConn; room = omega arith }

abbrev told_of : Option TcpServer → TcpServer
told_of none = room
told_of (some s) = s

abbrev told : TcpServer
told = told_of (broadcast (codes "hi") room)

abbrev heard : TcpConn
heard = succeeded 2 (run_posted (told.heap 2))

broadcast_delivers_example : (rest : Bytes) × (heard.wire ≡ (fresh.wire ++ codes "hi") ++ rest)
unfolding new_conn new_buffer str append send run_posted write_done ensure_writable_bytes
    writable_bytes check_writable has_written write_to_socket retrive retrive_all broadcast
    broadcast_to change has
broadcast_delivers_example =
    broadcast_delivers (codes "hi") room told 2 heard (refl, (refl, tt)) fresh-Takes-hi refl refl
      (refl, refl) refl
      (next (next here (runs 0 refl refl)) (writes (codes "hi") [] 2 refl (omega arith) refl))
      (refl, refl) refl

abbrev no_callback : TcpConn → ℕ → ℕ
no_callback c n = n

abbrev address_of : ℕ → Bytes
address_of p = codes "10.0.0.1:8"

said-Takes :
    (q : ℕ)
    → has q room.connections ≡ true
    → Takes (said no_callback address_of (codes "yo") 1 room) (room.heap q)
unfolding new_conn chat_reply str new_buffer
said-Takes q h = record { in_order = IsConn-IsKept fresh fresh-IsConn; room = omega arith }

abbrev yo : Bytes
yo = said no_callback address_of (codes "yo") 1 room

chat_read_lem_example :
    (v : TcpServer) × (chat_read no_callback address_of (codes "yo") 1 room 0 ≡ some (v, 0))
    × (v.connections ≡ room.connections)
    × (str (v.heap 1).input ≡ [])
    × ((q : ℕ) (d : TcpConn)
        → has q room.connections ≡ true
        → IsIdle (room.heap q)
        → (room.heap q).is_open ≡ true
        → Reach (v.heap q) d
        → IsIdle d
        → d.is_open ≡ true
        → (rest : Bytes) × (d.wire ≡ ((room.heap q).wire ++ yo) ++ rest))
    × ((q : ℕ)
        → has q room.connections ≡ false
        → ((v.heap q).output ≡ (room.heap q).output) × ((v.heap q).posted ≡ (room.heap q).posted))
unfolding new_conn new_buffer has
chat_read_lem_example =
    chat_read_lem no_callback address_of (codes "yo") 1 room 0 (refl, (refl, tt)) (omega arith)
      (omega arith) said-Takes

-- ===== src/Http/Connections/Laws.antt =====
-- What the server sends on its connections.
use altas.Prelude.{
  some_inj, ℕ, ◌≡◌, ◌⊎◌, inl, inr, refl, sym, ap, ◌∙◌, subst, Bool, Bool-cases, true, false, List,
  [], ◌∷◌, ◌++◌, Option, none, some, Bytes, arith, ◌==◌, if◌then◌else◌, has, change, has-set_insert,
  has-set_erase,
}
use altas.Http.Response.{to_buffers}
use altas.Http.RequestParser.{good, bad, indeterminate, method_start}
use altas.Http.RequestParser.Run.{Parsed, parse}
use altas.Http.RequestParser.Safety.{Sound, parse-Sound, default_request-Inv}
use altas.Http.RequestParser.Chunks.{parse-append}
use altas.Http.ServeMux.{ServeMux, serve_http}
use altas.Http.Connections.{
  ErrorCode, no_error, operation_aborted, other_error, Pending, nothing, reads, writes,
  TcpConnection, Server, Memory, first_request, first_reply, new_connection, do_read, do_write,
  stop, stop_each, stop_all, manager_start, manager_stop, put_back, took, buffers_of, parsed,
  accept_done, read_done, write_done, shutdown,
}
use altas.Http.Connections.Steps.{
  May, Step, accepts, receives, has_written, shuts, Reach, here, next, listening, answer,
}

module _ (mux : ServeMux) (m : Memory) where
  -- What a connection has received and sent. While it reads, the parser stands behind all that was
  -- received, which is not yet a request. What it writes, once, is the reply to what was received.
  abbrev pub Told : Pending → TcpConnection → Type 0
  Told reads c =
      (parse method_start (first_request m) c.received
        ≡ some (indeterminate, [], c.state, c.request))
      × (c.reply ≡ first_reply m)
      × (c.sent ≡ [])
  Told (writes b) c = (answer mux m c.received ≡ some b) × (c.sent ≡ [])
  Told nothing c =
      (c.is_open ≡ false)
      × ((c.sent ≡ [])
          ⊎ ((b : List Bytes) × (c.sent ≡ b ∷ []) × (answer mux m c.received ≡ some b)))

  -- What a parse leads to: a connection that goes on from all that was received.
  abbrev GoesOn : TcpConnection → Bytes → Option TcpConnection → Type 0
  GoesOn c chunk o =
      (d : TcpConnection) × (o ≡ some d)
      × Told d.pending d
      × (d.is_open ≡ c.is_open)
      × (d.received ≡ c.received ++ chunk)

  goes_on :
      (c : TcpConnection) (chunk : Bytes) (q : Parsed)
      → parse method_start (first_request m) (c.received ++ chunk) ≡ q
      → Sound q
      → c.reply ≡ first_reply m
      → c.sent ≡ []
      → GoesOn c chunk (parsed mux (took chunk c) q)
  unfolding parsed do_read do_write answer
  goes_on c chunk none e s r k = elim s [ ]
  goes_on c chunk (some (good, rest, st, q)) e s r k =
      (_, refl, (rw e (ap (λ z. some (to_buffers (serve_http mux q z).1)) (sym r)), k), refl, refl)
  goes_on c chunk (some (bad, rest, st, q)) e s r k = (_, refl, (rw e refl, k), refl, refl)
  goes_on c chunk (some (indeterminate, rest, st, q)) e s r k =
      let left : rest ≡ [] =
        (parse-append (c.received ++ chunk) [] rest method_start st (first_request m) q e).0 in
      (_, refl, (e ∙ ap (λ z. some (indeterminate, z, st, q)) left, r, k), refl, refl)

  pub read_chunk :
      (c : TcpConnection) (chunk : Bytes)
      → Told reads c
      → GoesOn c chunk (parsed mux (took chunk c) (parse c.state c.request chunk))
  read_chunk c chunk (e, r, k) =
      let joined =
        (parse-append c.received chunk [] method_start c.state (first_request m) c.request e).1 in
      goes_on c chunk (parse c.state c.request chunk) joined
        (subst Sound joined (
          parse-Sound (c.received ++ chunk) method_start (first_request m)
            (default_request-Inv m.major m.minor)))
        r k

module _ (memory : ℕ → Memory) (mux : ServeMux) where
  -- The manager lists the connections whose socket is open, and each has its history in order.
  pub record IsServer (s : Server) : Type 0 where
    pub listed : (p : ℕ) → has p s.connections ≡ (s.heap p).is_open
    pub told : (p : ℕ) → Told mux (memory p) (s.heap p).pending (s.heap p)

  listening-IsServer : IsServer (listening memory)
  unfolding has new_connection
  listening-IsServer = record { listed = λ p. refl; told = λ p. (refl, inl refl) }

  -- One connection has changed, and its place in the list with it.
  one_changed :
      (s t : Server) (p : ℕ) (d : TcpConnection)
      → ((q : ℕ) → has q t.connections ≡ (if p == q then d.is_open else has q s.connections))
      → ((q : ℕ) → t.heap q ≡ (if p == q then d else s.heap q))
      → Told mux (memory p) d.pending d
      → IsServer s
      → IsServer t
  one_changed s t p d l h o v = record {
    listed = λ q. elim (Bool-cases (p == q)) [
      | inl e ↦
          l q
          ∙ ap (λ b. if b then d.is_open else has q s.connections) e
          ∙ sym (ap (λ c. c.is_open) (h q ∙ ap (λ b. if b then d else s.heap q) e))
      | inr e ↦
          l q
          ∙ ap (λ b. if b then d.is_open else has q s.connections) e
          ∙ v.listed q
          ∙ sym (ap (λ c. c.is_open) (h q ∙ ap (λ b. if b then d else s.heap q) e))
    ];
    told = λ q. elim (Bool-cases (p == q)) [
      | inl e ↦
          let i : p ≡ q = ground arith in
          subst (λ z. Told mux (memory q) z.pending z)
            (sym (h q ∙ ap (λ b. if b then d else s.heap q) e))
            (subst (λ z. Told mux (memory z) d.pending d) i o)
      | inr e ↦
          subst (λ z. Told mux (memory q) z.pending z)
            (sym (h q ∙ ap (λ b. if b then d else s.heap q) e)) (v.told q)
    ];
  }

  -- The connection changes and stays listed as it is.
  stays :
      (s : Server) (p : ℕ) (f : TcpConnection → TcpConnection)
      → (f (s.heap p)).is_open ≡ (s.heap p).is_open
      → Told mux (memory p) (f (s.heap p)).pending (f (s.heap p))
      → IsServer s
      → IsServer (record s { heap = change p f s.heap })
  unfolding change
  stays s p f o t v =
      one_changed s _ p (f (s.heap p)) (λ q. ground (arith, v.listed p)) (λ q. ground arith) t v

  -- The connection changes and is stopped.
  stops :
      (s : Server) (p : ℕ) (f : TcpConnection → TcpConnection)
      → Told mux (memory p) (f (s.heap p)).pending (stop (f (s.heap p)))
      → IsServer s
      → IsServer (manager_stop p (record s { heap = change p f s.heap }))
  unfolding change manager_stop stop
  stops s p f t v =
      one_changed s _ p (stop (f (s.heap p))) (λ q. ground (arith, has-set_erase p q s.connections))
        (λ q. ground arith) t v

  either : (b : Bool) (s t : Server) → IsServer s → IsServer t → IsServer (if b then s else t)
  either true s t v w = v
  either false s t v w = w

  accept_done-IsServer :
      (s : Server) (ec : ErrorCode) → IsServer s → IsServer (accept_done memory ec s)
  unfolding accept_done manager_start change do_read new_connection parse
  accept_done-IsServer s no_error v =
      either s.acceptor_open _ s
        (one_changed s _ s.next (do_read (new_connection (memory s.next)))
          (λ q. ground (arith, has-set_insert s.next q s.connections)) (λ q. ground arith)
          (refl, refl, refl) v)
        v
  accept_done-IsServer s operation_aborted v = either s.acceptor_open s s v v
  accept_done-IsServer s other_error v = either s.acceptor_open s s v v

  stop_each_lem :
      (ps : List ℕ) (heap : ℕ → TcpConnection) (q : ℕ)
      → stop_each ps heap q ≡ (if has q ps then stop (heap q) else heap q)
  unfolding stop_each has change stop
  stop_each_lem [] heap q = refl
  stop_each_lem (p ∷ ps) heap q = ground (arith, stop_each_lem ps (change p stop heap) q)

  Told-stop :
      (m : Memory) (p : Pending) (c : TcpConnection) → Told mux m p c → Told mux m p (stop c)
  unfolding stop
  Told-stop m nothing c (o, t) = (refl, t)
  Told-stop m reads c t = t
  Told-stop m (writes b) c t = t

  Told-either :
      (m : Memory) (b : Bool) (c : TcpConnection)
      → Told mux m c.pending c
      → Told mux m (if b then stop c else c).pending (if b then stop c else c)
  unfolding stop
  Told-either m true c t = Told-stop m c.pending c t
  Told-either m false c t = t

  shutdown-IsServer : (s : Server) → IsServer s → IsServer (shutdown s)
  unfolding shutdown stop_all has stop
  shutdown-IsServer s v = record {
    listed = λ q. ground (arith, stop_each_lem s.connections s.heap q, v.listed q);
    told = λ q.
        subst (λ c. Told mux (memory q) c.pending c) (sym (stop_each_lem s.connections s.heap q))
          (Told-either (memory q) (has q s.connections) (s.heap q) (v.told q));
  }

  put_back-IsServer :
      (s t : Server) (p : ℕ) (o : Option TcpConnection) (chunk : Bytes)
      → GoesOn mux (memory p) (s.heap p) chunk o
      → put_back p s o ≡ some t
      → IsServer s
      → IsServer t
  unfolding put_back
  put_back-IsServer s t p none chunk g e v = absurd cc
  put_back-IsServer s t p (some c) chunk (d, i, o, k, r) e v =
      let same : c ≡ d = some_inj i in
      subst IsServer (some_inj e) (
        stays s p (λ z. c) (ap (λ z. z.is_open) same ∙ k)
          (subst (λ z. Told mux (memory p) z.pending z) (sym same) o) v)

  read_done-IsServer :
      (s t : Server) (p : ℕ) (ec : ErrorCode) (chunk : Bytes)
      → (s.heap p).pending ≡ reads
      → May ec (s.heap p)
      → read_done mux ec chunk p s ≡ some t
      → IsServer s
      → IsServer t
  unfolding read_done stop
  read_done-IsServer s t p no_error chunk e m r v =
      put_back-IsServer s t p _ chunk
        (read_chunk mux (memory p) (s.heap p) chunk
          (subst (λ z. Told mux (memory p) z (s.heap p)) e (v.told p)))
        r v
  read_done-IsServer s t p operation_aborted chunk e m r v =
      let (w, k, l) = subst (λ z. Told mux (memory p) z (s.heap p)) e (v.told p) in
      subst IsServer (some_inj r)
        (stays s p (λ c. record c { pending = nothing }) refl (m, inl l) v)
  read_done-IsServer s t p other_error chunk e m r v =
      let (w, k, l) = subst (λ z. Told mux (memory p) z (s.heap p)) e (v.told p) in
      subst IsServer (some_inj r) (stops s p (λ c. record c { pending = nothing }) (refl, inl l) v)

  write_done-IsServer :
      (s : Server) (p : ℕ) (b : List Bytes) (ec : ErrorCode)
      → (s.heap p).pending ≡ writes b
      → May ec (s.heap p)
      → IsServer s
      → IsServer (write_done ec p s)
  unfolding write_done stop
  write_done-IsServer s p b no_error e m v =
      let (w, l) = subst (λ z. Told mux (memory p) z (s.heap p)) e (v.told p) in
      stops s p (λ c. record c { pending = nothing; sent = c.sent ++ buffers_of c.pending })
        (refl, inr (b, ap (λ z. z ++ buffers_of (s.heap p).pending) l ∙ ap buffers_of e, w)) v
  write_done-IsServer s p b operation_aborted e m v =
      let (w, l) = subst (λ z. Told mux (memory p) z (s.heap p)) e (v.told p) in
      stays s p (λ c. record c { pending = nothing }) refl (m, inl l) v
  write_done-IsServer s p b other_error e m v =
      let (w, l) = subst (λ z. Told mux (memory p) z (s.heap p)) e (v.told p) in
      stops s p (λ c. record c { pending = nothing }) (refl, inl l) v

  Step-IsServer : (s t : Server) → IsServer s → Step memory mux s t → IsServer t
  Step-IsServer s t v (accepts ec n e) = subst IsServer (sym e) (accept_done-IsServer s ec v)
  Step-IsServer s t v (receives p ec chunk n e m r) = read_done-IsServer s t p ec chunk e m r v
  Step-IsServer s t v (has_written p b ec n e m r) =
      subst IsServer (sym r) (write_done-IsServer s p b ec e m v)
  Step-IsServer s t v (shuts e) = subst IsServer (sym e) (shutdown-IsServer s v)

  Reach-IsServer : {s t : Server} → IsServer s → Reach memory mux s t → IsServer t
  Reach-IsServer v here = v
  Reach-IsServer v (next {t} {u} r st) = Step-IsServer t u (Reach-IsServer v r) st

  -- In every state that a listening server reaches, the connection manager lists exactly the
  -- connections whose socket is open. A connection that is open has an operation under way: while
  -- it reads, its parser stands behind all that it has received, and no request has ended there;
  -- what it writes is the reply to the request in what it has received, however that was cut into
  -- chunks; and one that is neither reading nor writing is closed, having sent nothing or that
  -- reply, once.
  pub served-IsServer : {s : Server} → Reach memory mux (listening memory) s → IsServer s
  served-IsServer r = Reach-IsServer listening-IsServer r

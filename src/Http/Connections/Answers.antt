-- ===== src/Http/Connections/Answers.antt =====
-- That the server answers.
use altas.Prelude.{
  concat, some_inj, change_same, ℕ, ◌≡◌, ◌≢◌, ◌⊎◌, inl, inr, refl, sym, ap, ◌∙◌, subst, true, false,
  List, [], ◌∷◌, ◌++◌, append-nil, append_assoc, none, some, Bytes, arith, has, change,
  has-set_erase,
}
use altas.Http.RequestParser.{good, bad, indeterminate}
use altas.Http.RequestParser.Run.{Parsed}
use altas.Http.ServeMux.{ServeMux}
use altas.Http.Connections.{
  no_error, nothing, reads, writes, TcpConnection, Server, Memory, stop, manager_stop, put_back,
  do_read, do_write, buffers_of, parsed, read_done, write_done,
}
use altas.Http.Connections.Steps.{
  Step, receives, has_written, Reach, Reach-trans, here, next, listening, answer, reply_to,
}
use altas.Http.Connections.Laws.{IsServer, Told, read_chunk, served-IsServer}

-- The connection has sent its reply and is closed.
abbrev pub IsAnswered : ServeMux → Memory → ℕ → Server → Type 0
IsAnswered mux m p s =
    (b : List Bytes) × ((s.heap p).sent ≡ b ∷ [])
    × (answer mux m (s.heap p).received ≡ some b)
    × ((s.heap p).is_open ≡ false)
    × (has p s.connections ≡ false)

module _ (memory : ℕ → Memory) (mux : ServeMux) (p : ℕ) where
  -- A connection that writes can end its write.
  write_ends :
      (s : Server) (b : List Bytes)
      → IsServer memory mux s
      → s.running ≡ true
      → (s.heap p).pending ≡ writes b
      → (t : Server) × Reach memory mux s t
        × ((t.heap p).received ≡ (s.heap p).received)
        × IsAnswered mux (memory p) p t
  unfolding write_done manager_stop change stop
  write_ends s b v n e =
      let (w, l) = subst (λ z. Told mux (memory p) z (s.heap p)) e (v.told p) in
      let f : TcpConnection → TcpConnection =
        λ c. record c { pending = nothing; sent = c.sent ++ buffers_of c.pending } in
      let at : (write_done no_error p s).heap p ≡ stop (f (s.heap p)) =
        change_same p stop (change p f s.heap) ∙ ap stop (change_same p f s.heap) in
      (
        write_done no_error p s,
        next here (has_written p b no_error n e tt refl),
        ap (λ c. c.received) at,
        (
          b,
          ap (λ c. c.sent) at ∙ ap (λ z. z ++ buffers_of (s.heap p).pending) l ∙ ap buffers_of e,
          ap (λ c. answer mux (memory p) c.received) at ∙ w,
          ap (λ c. c.is_open) at,
          ground (arith, has-set_erase p p s.connections),
        ),
      )

  -- A read leads to another read or to the write of a reply.
  abbrev IsBusy : TcpConnection → Type 0
  IsBusy c = (c.pending ≡ reads) ⊎ ((b : List Bytes) × (c.pending ≡ writes b))

  parsed-IsBusy : (c d : TcpConnection) (q : Parsed) → parsed mux c q ≡ some d → IsBusy d
  unfolding parsed do_read do_write
  parsed-IsBusy c d none e = absurd cc
  parsed-IsBusy c d (some (good, rest, s, r)) e = inr (_, sym (ap (λ z. z.pending) (some_inj e)))
  parsed-IsBusy c d (some (bad, rest, s, r)) e = inr (_, sym (ap (λ z. z.pending) (some_inj e)))
  parsed-IsBusy c d (some (indeterminate, rest, s, r)) e =
      inl (sym (ap (λ z. z.pending) (some_inj e)))

  -- In a state that is in order, the read of a chunk does not fault.
  read_ends :
      (s : Server) (chunk : Bytes)
      → IsServer memory mux s
      → s.running ≡ true
      → (s.heap p).pending ≡ reads
      → (t : Server) × Step memory mux s t
        × (t.running ≡ true)
        × ((t.heap p).received ≡ (s.heap p).received ++ chunk)
        × IsBusy (t.heap p)
  unfolding read_done put_back
  read_ends s chunk v n e =
      let (d, i, o, k, r) =
        read_chunk mux (memory p) (s.heap p) chunk
          (subst (λ z. Told mux (memory p) z (s.heap p)) e (v.told p)) in
      let t : Server = record s { heap = change p (λ z. d) s.heap } in
      let at : t.heap p ≡ d = change_same p (λ z. d) s.heap in
      (
        t,
        receives p no_error chunk n e tt (ap (put_back p s) i),
        n,
        ap (λ c. c.received) at ∙ r,
        subst IsBusy (sym at) (parsed-IsBusy _ d _ i),
      )

  -- While the event loop runs, a connection that reads and to which a text comes, in chunks of
  -- any lengths, that ends its request or makes it one that is not well-formed, can get to the
  -- end of its write: then it has sent one reply, that to what it has received, its socket is
  -- closed and the manager has forgotten it. What it has received by then is the beginning of the text.
  pub reads-IsAnswered :
      (chunks : List Bytes) (s : Server)
      → Reach memory mux (listening memory) s
      → s.running ≡ true
      → (s.heap p).pending ≡ reads
      → answer mux (memory p) ((s.heap p).received ++ concat chunks) ≢ none
      → (t : Server) × Reach memory mux s t
        × ((rest : Bytes) × ((t.heap p).received ++ rest ≡ (s.heap p).received ++ concat chunks))
        × IsAnswered mux (memory p) p t
  unfolding answer
  reads-IsAnswered [] s r n e a =
      let (w, k, l) =
        subst (λ z. Told mux (memory p) z (s.heap p)) e ((served-IsServer memory mux r).told p) in
      absurd (
        a (
          ap (answer mux (memory p)) (append-nil (s.heap p).received)
          ∙ ap (reply_to mux (memory p)) w))
  reads-IsAnswered (x ∷ chunks) s r n e a =
      let (t, st, m, got, busy) = read_ends s x (served-IsServer memory mux r) n e in
      let joined : (t.heap p).received ++ concat chunks
          ≡ (s.heap p).received ++ (x ++ concat chunks) =
        ap (λ z. z ++ concat chunks) got ∙ append_assoc (s.heap p).received x (concat chunks) in
      elim busy [
        | inl f ↦
            let (u, q, (rest, h), done) =
              reads-IsAnswered chunks t (next r st) m f
                (λ z. a (ap (answer mux (memory p)) (sym joined) ∙ z)) in
            (u, Reach-trans memory mux (next here st) q, (rest, h ∙ joined), done)
        | inr (b, f) ↦
            let (u, q, h, done) = write_ends t b (served-IsServer memory mux (next r st)) m f in
            (
              u,
              Reach-trans memory mux (next here st) q,
              (concat chunks, ap (λ z. z ++ concat chunks) h ∙ joined),
              done,
            )
      ]

-- ===== src/Net/TcpConn/Growth.antt =====
-- What a connection has accepted only grows.
use altas.Prelude.{
  ℕ, ◌+◌, ◌-◌, ◌≡◌, refl, sym, ap, ◌∙◌, inl, inr, Bool-cases, Option-cases, List, [], ◌∷◌, ◌++◌,
  append_assoc, append-nil, none, some, some_inj, Bytes, take, ◌==◌,
}
use altas.Net.Buffer.{append, retrive, readable_bytes}
use altas.Net.TcpConn.{TcpConn, send, write_to_socket, run_posted, written, write_done, stop}
use altas.Net.TcpConn.Laws.{
  Step, sends, runs, writes, fails, aborts, stops, reads, Reach, here, next,
}

pub send-accepted :
    (text : Bytes) (c d : TcpConn) → send text c ≡ some d → d.accepted ≡ c.accepted ++ text
unfolding send
send-accepted text c d e = elim (Option-cases (append text c.output)) [
  | inl n ↦ absurd (let z : none ≡ some d = sym (rw (n, send) refl) ∙ e in cc)
  | inr (b, m) ↦
      let z : some (record c { output = b; posted = c.posted + 1; accepted = c.accepted ++ text })
          ≡ some d =
        sym (rw (m, send) refl) ∙ e in
      sym (ap (λ (x : TcpConn). x.accepted) (some_inj z))
]

write_to_socket-accepted : (c : TcpConn) → (write_to_socket c).accepted ≡ c.accepted
unfolding write_to_socket
write_to_socket-accepted c = elim (Bool-cases (readable_bytes c.output == 0)) [
  | inl e ↦ rw e refl
  | inr e ↦ rw e refl
]

written-accepted : (n : ℕ) (ws : List Bytes) (c : TcpConn) → (written n ws c).accepted ≡ c.accepted
unfolding written
written-accepted n [] c = refl
written-accepted n (w ∷ ws) c =
    let d : TcpConn = record c {
      writing = ws;
      wire = c.wire ++ take n w;
      output = retrive n c.output;
    } in
    elim (Bool-cases (readable_bytes (retrive n c.output) == 0)) [
      | inl e ↦ rw e refl
      | inr e ↦ rw e (write_to_socket-accepted d)
    ]

abbrev pub Grows : TcpConn → TcpConn → Type 0
Grows c d = (rest : Bytes) × (d.accepted ≡ c.accepted ++ rest)

same-Grows : (c d : TcpConn) → d.accepted ≡ c.accepted → Grows c d
same-Grows c d e = ([], e ∙ sym (append-nil c.accepted))

Step-Grows : (c d : TcpConn) → Step c d → Grows c d
unfolding run_posted write_done stop
Step-Grows c d (sends text i f e) = (text, send-accepted text c d e)
Step-Grows c d (runs n p e) = same-Grows c d (
    ap (λ (x : TcpConn). x.accepted) e
    ∙ write_to_socket-accepted (record c { posted = c.posted - 1 }))
Step-Grows c d (writes w ws n p l e) =
    same-Grows c d (ap (λ (x : TcpConn). x.accepted) e ∙ written-accepted n c.writing c)
Step-Grows c d (fails e) = same-Grows c d (ap (λ (x : TcpConn). x.accepted) e)
Step-Grows c d (aborts o e) = same-Grows c d (ap (λ (x : TcpConn). x.accepted) e)
Step-Grows c d (stops e) = same-Grows c d (ap (λ (x : TcpConn). x.accepted) e)
Step-Grows c d (reads b e) = same-Grows c d (ap (λ (x : TcpConn). x.accepted) e)

pub Reach-Grows : {c d : TcpConn} → Reach c d → Grows c d
Reach-Grows {c} here = same-Grows c c refl
Reach-Grows {c} (next {d} {e} r st) =
    let (x, p) = Reach-Grows r in
    let (y, q) = Step-Grows d e st in (x ++ y, q ∙ ap (λ z. z ++ y) p ∙ append_assoc c.accepted x y)

pub Reach-first : {c d e : TcpConn} → Step c d → Reach d e → Reach c e
Reach-first st here = next here st
Reach-first st (next r su) = next (Reach-first st r) su

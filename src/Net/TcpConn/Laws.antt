-- ===== src/Net/TcpConn/Laws.antt =====
-- What a connection puts on the wire.
use altas.Prelude.{
  ℕ, suc, ◌+◌, ◌-◌, ◌≡◌, ◌≤◌, ◌<◌, ◌⊎◌, inl, inr, refl, sym, ap, ◌∙◌, subst, Bool-cases, true,
  false, List, [], ◌∷◌, ◌++◌, append_assoc, append-nil, some, ◌>>=◌, some_inj, Bytes, length,
  length-append, length-drop, take, take_all, drop, take-append-drop, if◌then◌else◌, ◌==◌, arith,
}
use altas.Net.Buffer.{Buffer, cheap_prepend, retrive, readable_bytes, str}
use altas.Net.Buffer.Laws.{IsBuffer, max_size, append_lem, readable_bytes-str}
use altas.Net.Buffer.Retrive.{retrive_lem, retrive_low}
use altas.Net.TcpConn.{
  TcpConn, no_error, operation_aborted, other_error, stop, send, write_to_socket, run_posted,
  written, write_done,
}

-- No write is posted or under way.
abbrev pub IsIdle : TcpConn → Type 0
IsIdle c = (c.posted ≡ 0) × (c.writing ≡ [])

abbrev pub Fits : Bytes → TcpConn → Type 0
Fits text c = cheap_prepend + length (c.accepted ++ text) < max_size

-- What the handler of a write leaves of the connection, whatever the callback does with its state.
abbrev pub quiet : TcpConn → Unit {0} → Unit {0}
quiet c u = u

-- A write of which `n` bytes were taken, and one that failed.
abbrev pub succeeded : ℕ → TcpConn → TcpConn
succeeded n c = (write_done quiet no_error n c tt).0

abbrev pub aborted : TcpConn → TcpConn
aborted c = (write_done quiet operation_aborted 0 c tt).0

abbrev pub failed : TcpConn → TcpConn
failed c = (write_done quiet other_error 0 c tt).0

abbrev pub stopped : TcpConn → TcpConn
stopped c = (stop quiet c tt).0

-- What happens to a connection, where nobody sends before what was sent before is not under way any
-- more: sends, calls that were posted, writes that succeed, fail, or are aborted because the socket
-- was closed, stops, and changes of the input. A write that the socket took before it was closed may
-- still report so afterwards.
pub data Step (c d : TcpConn) : Type 0 where
  sends : (text : Bytes) → IsIdle c → Fits text c → send text c ≡ some d → Step c d
  runs : (n : ℕ) → c.posted ≡ suc n → d ≡ run_posted c → Step c d
  writes :
      (w : Bytes) (ws : List Bytes) (n : ℕ)
      → c.writing ≡ w ∷ ws
      → n ≤ length w
      → d ≡ succeeded n c
      → Step c d
  fails : d ≡ failed c → Step c d
  aborts : c.is_open ≡ false → d ≡ aborted c → Step c d
  stops : d ≡ stopped c → Step c d
  reads : (b : Buffer) → d ≡ record c { input = b } → Step c d

pub data Reach (c : TcpConn) : TcpConn → Type 0 where
  here : Reach c c
  next : {d e : TcpConn} → Reach c d → Step d e → Reach c e

-- Nothing, one call, or one write of all that waits is under way. In the first case nothing waits, if
-- the connection is open.
abbrev InFlight : Type 0 → ℕ → List Bytes → Bytes → Type 0
InFlight Settled posted writing waits =
    ((posted ≡ 0) × (writing ≡ []) × Settled)
    ⊎ (((posted ≡ 1) × (writing ≡ [])) ⊎ ((posted ≡ 0) × (writing ≡ waits ∷ [])))

pub record IsConn (c : TcpConn) : Type 0 where
  pub in_order : IsBuffer c.output
  pub low : c.output.writer ≤ cheap_prepend + length c.accepted
  pub nothing_lost : c.wire ++ str c.output ≡ c.accepted
  pub in_flight : InFlight (str c.output ≡ []) c.posted c.writing (str c.output)

-- The same of a connection that may have been closed.
pub record IsKept (c : TcpConn) : Type 0 where
  pub in_order : IsBuffer c.output
  pub low : c.output.writer ≤ cheap_prepend + length c.accepted
  pub nothing_lost : c.wire ++ str c.output ≡ c.accepted
  pub in_flight : InFlight (c.is_open ≡ true → str c.output ≡ []) c.posted c.writing (str c.output)

pub IsConn-IsKept : (c : TcpConn) → IsConn c → IsKept c
IsConn-IsKept c v = record {
  in_order = v.in_order;
  low = v.low;
  nothing_lost = v.nothing_lost;
  in_flight = elim v.in_flight [ inl (p, w, x) ↦ inl (p, w, (λ o. x)) | inr h ↦ inr h ];
}

nil_of_readable : (b : Buffer) → IsBuffer b → (readable_bytes b == 0) ≡ true → str b ≡ []
nil_of_readable b h e = nil_of_length (str b) (ground (arith, readable_bytes-str b h))
  where
    nil_of_length : (s : Bytes) → length s ≡ 0 → s ≡ []
    nil_of_length [] l = refl
    nil_of_length (c ∷ s) l = absurd (omega arith)

-- A send: the bytes wait behind the others, and one call more is posted.
pub send_lem :
    (text : Bytes) (c : TcpConn)
    → IsBuffer c.output
    → c.output.writer ≤ cheap_prepend + length c.accepted
    → Fits text c
    → (b : Buffer) × (send text c
        ≡ some (record c { output = b; posted = c.posted + 1; accepted = c.accepted ++ text }))
      × IsBuffer b
      × (str b ≡ str c.output ++ text)
      × (b.writer ≤ cheap_prepend + length (c.accepted ++ text))
unfolding send
send_lem text c h l f =
    let (b, e, k, s, w) =
      append_lem text c.output h (omega (arith, length-append c.accepted text)) in
    (b, rw (e, send) refl, k, s, omega (arith, length-append c.accepted text))

-- The write of what waits, where none is under way.
write_one :
    (c : TcpConn)
    → IsBuffer c.output
    → c.output.writer ≤ cheap_prepend + length c.accepted
    → c.wire ++ str c.output ≡ c.accepted
    → c.posted ≡ 0
    → c.writing ≡ []
    → IsKept (write_to_socket c)
unfolding write_to_socket
write_one c h l k p w = elim (Bool-cases (readable_bytes c.output == 0)) [
  | inl e ↦
      subst IsKept
        (sym (ap (λ b. if b then c else record c { writing = c.writing ++ str c.output ∷ [] }) e))
        (record {
          in_order = h;
          low = l;
          nothing_lost = k;
          in_flight = inl (p, w, (λ o. nil_of_readable c.output h e));
        })
  | inr e ↦
      subst IsKept
        (sym (ap (λ b. if b then c else record c { writing = c.writing ++ str c.output ∷ [] }) e))
        (record {
          in_order = h;
          low = l;
          nothing_lost = k;
          in_flight = inr (inr (p, ap (λ z. z ++ str c.output ∷ []) w));
        })
]

send-IsKept :
    (c d : TcpConn) (text : Bytes)
    → IsIdle c
    → Fits text c
    → send text c ≡ some d
    → IsKept c
    → IsKept d
send-IsKept c d text (p, w) f e v =
    let (b, g, k, s, l) = send_lem text c v.in_order v.low f in
    subst IsKept (some_inj (sym g ∙ e)) (record {
      in_order = k;
      low = l;
      nothing_lost =
          ap (λ z. c.wire ++ z) s
          ∙ sym (append_assoc c.wire (str c.output) text)
          ∙ ap (λ z. z ++ text) v.nothing_lost;
      in_flight = inr (inl (ap (λ z. z + 1) p, w));
    })

run_posted-IsKept : (c : TcpConn) (n : ℕ) → c.posted ≡ suc n → IsKept c → IsKept (run_posted c)
unfolding run_posted
run_posted-IsKept c n e v = elim v.in_flight [
  | inl (p, w, x) ↦ absurd (omega arith)
  | inr (inl (p, w)) ↦
      write_one (record c { posted = c.posted - 1 }) v.in_order v.low v.nothing_lost (omega arith) w
  | inr (inr (p, w)) ↦ absurd (omega arith)
]

-- After the write of all that waits, of which `n` bytes were taken.
taken : ℕ → TcpConn → TcpConn
taken n c = record c {
  writing = [];
  wire = c.wire ++ take n (str c.output);
  output = retrive n c.output;
}

written-IsKept :
    (c : TcpConn) (n : ℕ) → c.posted ≡ 0 → IsKept c → IsKept (written n (str c.output ∷ []) c)
unfolding written taken
written-IsKept c n p v =
    let (k, s) = retrive_lem n c.output v.in_order in
    let kept : (c.wire ++ take n (str c.output)) ++ str (retrive n c.output) ≡ c.accepted =
      ap (λ z. (c.wire ++ take n (str c.output)) ++ z) s
      ∙ append_assoc c.wire (take n (str c.output)) (drop n (str c.output))
      ∙ ap (λ z. c.wire ++ z) (take-append-drop n (str c.output))
      ∙ v.nothing_lost in
    let lower : (retrive n c.output).writer ≤ cheap_prepend + length c.accepted =
      omega (arith, retrive_low n c.output v.in_order, v.low) in
    elim (Bool-cases (readable_bytes (retrive n c.output) == 0)) [
      | inl e ↦
          subst IsKept (sym (ap (λ b. if b then taken n c else write_to_socket (taken n c)) e))
            (record {
              in_order = k;
              low = lower;
              nothing_lost = kept;
              in_flight = inl (p, refl, (λ o. nil_of_readable _ k e));
            })
      | inr e ↦
          subst IsKept (sym (ap (λ b. if b then taken n c else write_to_socket (taken n c)) e))
            (write_one (taken n c) k lower kept p refl)
    ]

-- The one write under way takes a part of what waits.
succeeded-IsKept :
    (c : TcpConn) (w : Bytes) (ws : List Bytes) (n : ℕ)
    → c.writing ≡ w ∷ ws
    → n ≤ length w
    → IsKept c
    → IsKept (succeeded n c)
unfolding write_done
succeeded-IsKept c w ws n e l v = elim v.in_flight [
  | inl (p, x, y) ↦ absurd (let z : w ∷ ws ≡ [] = sym e ∙ x in cc)
  | inr (inl (p, x)) ↦ absurd (let z : w ∷ ws ≡ [] = sym e ∙ x in cc)
  | inr (inr (p, x)) ↦ subst (λ z. IsKept (written n z c)) (sym x) (written-IsKept c n p v)
]

closed_flight :
    (Settled : Type 0) (posted : ℕ) (writing : List Bytes) (waits : Bytes)
    → InFlight Settled posted writing waits
    → InFlight (false ≡ true → waits ≡ []) posted (drop 1 writing) waits
closed_flight Settled posted writing waits (inl (p, w, x)) =
    inl (p, ap (drop 1) w, (λ e. absurd (cc)))
closed_flight Settled posted writing waits (inr (inl (p, w))) = inr (inl (p, ap (drop 1) w))
closed_flight Settled posted writing waits (inr (inr (p, w))) =
    inl (p, ap (drop 1) w, (λ e. absurd (cc)))

failed-IsKept : (c : TcpConn) → IsKept c → IsKept (failed c)
unfolding write_done stop
failed-IsKept c v = record {
  in_order = v.in_order;
  low = v.low;
  nothing_lost = v.nothing_lost;
  in_flight = closed_flight _ c.posted c.writing (str c.output) v.in_flight;
}

aborted-IsKept : (c : TcpConn) → c.is_open ≡ false → IsKept c → IsKept (aborted c)
unfolding write_done
aborted-IsKept c o v = record {
  in_order = v.in_order;
  low = v.low;
  nothing_lost = v.nothing_lost;
  in_flight =
      subst
        (λ b. InFlight (b ≡ true → str c.output ≡ []) c.posted (drop 1 c.writing) (str c.output))
        (sym o) (closed_flight _ c.posted c.writing (str c.output) v.in_flight);
}

stopped-IsKept : (c : TcpConn) → IsKept c → IsKept (stopped c)
unfolding stop
stopped-IsKept c v = record {
  in_order = v.in_order;
  low = v.low;
  nothing_lost = v.nothing_lost;
  in_flight = elim v.in_flight [ inl (p, w, x) ↦ inl (p, w, (λ e. absurd (cc))) | inr h ↦ inr h ];
}

input-IsKept : (c : TcpConn) (b : Buffer) → IsKept c → IsKept (record c { input = b })
input-IsKept c b v = record {
  in_order = v.in_order;
  low = v.low;
  nothing_lost = v.nothing_lost;
  in_flight = v.in_flight;
}

pub Step-IsKept : (c d : TcpConn) → IsKept c → Step c d → IsKept d
Step-IsKept c d v (sends text i f e) = send-IsKept c d text i f e v
Step-IsKept c d v (runs n p e) = subst IsKept (sym e) (run_posted-IsKept c n p v)
Step-IsKept c d v (writes w ws n p l e) = subst IsKept (sym e) (succeeded-IsKept c w ws n p l v)
Step-IsKept c d v (fails e) = subst IsKept (sym e) (failed-IsKept c v)
Step-IsKept c d v (aborts o e) = subst IsKept (sym e) (aborted-IsKept c o v)
Step-IsKept c d v (stops e) = subst IsKept (sym e) (stopped-IsKept c v)
Step-IsKept c d v (reads b e) = subst IsKept (sym e) (input-IsKept c b v)

pub Reach-IsKept : {c d : TcpConn} → IsKept c → Reach c d → IsKept d
Reach-IsKept v here = v
Reach-IsKept v (next {d} {e} r st) = Step-IsKept d e (Reach-IsKept v r) st

pub settled :
    (d : TcpConn)
    → IsKept d
    → IsIdle d
    → d.is_open ≡ true
    → (d.wire ≡ d.accepted) × (str d.output ≡ [])
settled d w (p, q) o = elim w.in_flight [
  | inl (x, y, z) ↦
      (sym (append-nil d.wire) ∙ ap (λ t. d.wire ++ t) (sym (z o)) ∙ w.nothing_lost, z o)
  | inr (inl (x, y)) ↦ absurd (omega arith)
  | inr (inr (x, y)) ↦ absurd (let z : str d.output ∷ [] ≡ [] = sym y ∙ q in cc)
]

-- From a connection in order, with sends that wait until nothing is under way, and whatever writes
-- succeed or fail: what is on the wire is at all times a beginning of what was handed to `Send`, in
-- its order, and the rest waits in the buffer; and whenever nothing is under way and the connection
-- was not closed, all of it is on the wire, and nothing waits.
pub Reach-delivers :
    (c d : TcpConn)
    → IsConn c
    → Reach c d
    → (d.wire ++ str d.output ≡ d.accepted)
      × (IsIdle d → d.is_open ≡ true → (d.wire ≡ d.accepted) × (str d.output ≡ []))
Reach-delivers c d v r = let w = Reach-IsKept (IsConn-IsKept c v) r in (w.nothing_lost, settled d w)

-- A connection in order on which nothing is under way.
pub idle_lem : (c : TcpConn) → IsConn c → IsIdle c → (c.wire ≡ c.accepted) × (str c.output ≡ [])
idle_lem c v (p, q) = elim v.in_flight [
  | inl (x, y, z) ↦ (sym (append-nil c.wire) ∙ ap (λ t. c.wire ++ t) (sym z) ∙ v.nothing_lost, z)
  | inr (inl (x, y)) ↦ absurd (omega arith)
  | inr (inr (x, y)) ↦ absurd (let z : str c.output ∷ [] ≡ [] = sym y ∙ q in cc)
]

idle_waits : (c : TcpConn) → IsConn c → IsIdle c → str c.output ≡ []
idle_waits c v i = (idle_lem c v i).1

write_busy :
    (c : TcpConn)
    → (readable_bytes c.output == 0) ≡ false
    → write_to_socket c ≡ record c { writing = c.writing ++ str c.output ∷ [] }
unfolding write_to_socket
write_busy c e = ap (λ b. if b then c else record c { writing = c.writing ++ str c.output ∷ [] }) e

write_last :
    (c : TcpConn) (w : Bytes) (ws : List Bytes) (n : ℕ)
    → c.writing ≡ w ∷ ws
    → (readable_bytes (retrive n c.output) == 0) ≡ true
    → succeeded n c
      ≡ record c { writing = ws; wire = c.wire ++ take n w; output = retrive n c.output }
unfolding write_done written
write_last c w ws n e r =
    let d : TcpConn = record c {
      writing = ws;
      wire = c.wire ++ take n w;
      output = retrive n c.output;
    } in
    ap (λ z. written n z c) e ∙ ap (λ b. if b then d else write_to_socket d) r

emptied :
    (b : Buffer) (n : ℕ)
    → IsBuffer b
    → length (str b) ≤ n
    → (readable_bytes (retrive n b) == 0) ≡ true
emptied b n h l =
    let (k, s) = retrive_lem n b h in
    ground (arith, readable_bytes-str (retrive n b) k, ap length s, length-drop n (str b))

-- Two calls that were posted, on an output that is not empty and with no write under way: both
-- write all of it.
twice :
    (d : TcpConn) (text : Bytes)
    → IsBuffer d.output
    → str d.output ≡ text
    → 0 < length text
    → d.writing ≡ []
    → (succeeded (length text) (succeeded (length text) (run_posted (run_posted d)))).wire
      ≡ (d.wire ++ text) ++ text
unfolding run_posted
twice d text h e n w =
    let busy : (readable_bytes d.output == 0) ≡ false =
      ground (arith, readable_bytes-str d.output h, ap length e) in
    let one = write_busy (record d { posted = d.posted - 1 }) busy in
    let two =
      write_busy (record d { posted = d.posted - 1 - 1; writing = d.writing ++ str d.output ∷ [] })
        busy in
    let x = str d.output in
    let m = length text in
    let small : length x ≤ m = omega (arith, ap length e) in
    let all : take m x ≡ text = take_all m x small ∙ e in
    let d2 : TcpConn = record d {
      posted = d.posted - 1 - 1;
      writing = (d.writing ++ x ∷ []) ++ x ∷ [];
    } in
    let d3 : TcpConn = record d2 {
      writing = x ∷ [];
      wire = d.wire ++ take m x;
      output = retrive m d.output;
    } in
    let (k, s) = retrive_lem m d.output h in
    let first : succeeded m d2 ≡ d3 =
      write_last d2 x (x ∷ []) m (ap (λ z. (z ++ x ∷ []) ++ x ∷ []) w)
        (emptied d.output m h small) in
    let second =
      write_last d3 x [] m refl
        (emptied (retrive m d.output) m k (omega (arith, ap length s, length-drop m x))) in
    ap (λ z. (succeeded m (succeeded m z)).wire) (ap run_posted one ∙ two)
    ∙ ap (λ z. (succeeded m z).wire) first
    ∙ ap (λ z. z.wire) second
    ∙ ap (λ z. (d.wire ++ z) ++ z) all

-- Two sends in a row, before the event loop has run what the first one posted, on a connection in
-- order on which nothing is under way and with room for both texts: if the loop then runs both
-- posted calls and the socket takes all of each write, both texts are on the wire twice.
pub two_sends :
    (c : TcpConn) (a b : Bytes)
    → IsConn c
    → IsIdle c
    → Fits a c
    → cheap_prepend + length ((c.accepted ++ a) ++ b) < max_size
    → 0 < length (a ++ b)
    → (d : TcpConn) × ((send a c >>= send b) ≡ some d)
      × ((succeeded
            (length (a ++ b))
            (succeeded (length (a ++ b)) (run_posted (run_posted d)))).wire
          ≡ (c.wire ++ (a ++ b)) ++ (a ++ b))
two_sends c a b v i fa fb n =
    let (x, e, h, s, l) = send_lem a c v.in_order v.low fa in
    let c1 : TcpConn = record c { output = x; posted = c.posted + 1; accepted = c.accepted ++ a } in
    let (y, f, k, t, m) = send_lem b c1 h l fb in
    let d : TcpConn = record c1 {
      output = y;
      posted = c.posted + 1 + 1;
      accepted = (c.accepted ++ a) ++ b;
    } in
    let waits : str y ≡ a ++ b = t ∙ ap (λ z. z ++ b) (s ∙ ap (λ z. z ++ a) (idle_waits c v i)) in
    (d, ap (λ z. z >>= send b) e ∙ f, twice d (a ++ b) k waits n i.1)

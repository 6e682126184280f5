-- ===== src/Net/TcpServer/Laws.antt =====
-- What a broadcast puts on the wires.
use altas.Prelude.{
  ℕ, ◌+◌, ◌≡◌, ◌<◌, inl, inr, refl, sym, ap, ◌∙◌, subst, Bool-cases, true, false, Bool, List, [],
  ◌∷◌, ◌++◌, Option, some, some_inj, Bytes, length, if◌then◌else◌, ◌==◌, arith, change, change_same,
  has,
}
use altas.Net.Buffer.{Buffer, append, retrive_all, str}
use altas.Net.Buffer.Laws.{IsBuffer, max_size, append_lem}
use altas.Net.TcpConn.{TcpConn, no_error, send}
use altas.Net.TcpConn.Laws.{
  IsKept, IsIdle, Fits, sends, reads, Reach, Step-IsKept, Reach-IsKept, send_lem, settled,
}
use altas.Net.TcpConn.Growth.{send-accepted, Reach-Grows}
use altas.Net.TcpServer.{
  TcpServer, broadcast_to, broadcast, read_at, clear_input, chat_reply, chat_receive,
}

-- A set of pointers has each of them once.
abbrev pub HoldsOnce : List ℕ → Type 0
HoldsOnce [] = Unit {0}
HoldsOnce (p ∷ ps) = (has p ps ≡ false) × HoldsOnce ps

-- A connection that takes a text: it is in order, perhaps closed, and has room for it.
pub record Takes (text : Bytes) (c : TcpConn) : Type 0 where
  pub in_order : IsKept c
  pub room : Fits text c

send_total : (text : Bytes) (c : TcpConn) → Takes text c → (d : TcpConn) × (send text c ≡ some d)
send_total text c h =
    let (b, e, k, t, l) = send_lem text c h.in_order.in_order h.in_order.low h.room in (_, e)

change_other :
    {A : Type 0} (p q : ℕ) (f : A → A) (heap : ℕ → A)
    → (p == q) ≡ false
    → change p f heap q ≡ heap q
unfolding change
change_other p q f heap e = rw e refl

change_here :
    {A : Type 0} (p q : ℕ) (f : A → A) (heap : ℕ → A)
    → (p == q) ≡ true
    → change p f heap q ≡ f (heap q)
unfolding change
change_here p q f heap e = rw e refl

has_here : (p : ℕ) (ps : List ℕ) → has p (p ∷ ps) ≡ true
unfolding has
has_here p ps = ground arith

has_there : (p q : ℕ) (ps : List ℕ) → has q ps ≡ true → has q (p ∷ ps) ≡ true
unfolding has
has_there p q ps h = ground arith

has_else : (p q : ℕ) (ps : List ℕ) → (p == q) ≡ false → has q (p ∷ ps) ≡ has q ps
unfolding has
has_else p q ps h = ground arith

abbrev sent_if : Bytes → TcpConn → Bool → Option TcpConn
sent_if text c b = if b then send text c else some c

broadcast_step :
    (text : Bytes) (p : ℕ) (ps : List ℕ) (heap : ℕ → TcpConn) (d : TcpConn)
    → send text (heap p) ≡ some d
    → broadcast_to text (p ∷ ps) heap ≡ broadcast_to text ps (change p (λ _. d) heap)
unfolding broadcast_to
broadcast_step text p ps heap d e = rw (e, broadcast_to) refl

-- Each of the connections is sent the text once, and the others are left alone.
broadcast_to_lem :
    (text : Bytes) (ps : List ℕ) (heap : ℕ → TcpConn)
    → HoldsOnce ps
    → ((q : ℕ) → has q ps ≡ true → Takes text (heap q))
    → (after : ℕ → TcpConn) × (broadcast_to text ps heap ≡ some after)
      × ((q : ℕ) → sent_if text (heap q) (has q ps) ≡ some (after q))
unfolding broadcast_to
broadcast_to_lem text [] heap s h = (heap, refl, λ q. unfold has in refl)
broadcast_to_lem text (p ∷ ps) heap (fresh, s) h =
    let (d, e) = send_total text (heap p) (h p (has_here p ps)) in
    let clash = λ (q : ℕ) (same : (p == q) ≡ true).
      (let i : p ≡ q = ground arith in subst (λ z. has z ps ≡ false) i fresh) in
    let (after, f, g) = broadcast_to_lem text ps (change p (λ _. d) heap) s (λ q m.
      elim (Bool-cases (p == q)) [
        | inl same ↦ absurd (let z : false ≡ true = sym (clash q same) ∙ m in cc)
        | inr other ↦
            subst (Takes text) (sym (change_other p q (λ _. d) heap other))
              (h q (has_there p q ps m))
      ]) in
    (
      after,
      broadcast_step text p ps heap d e ∙ f,
      λ q. elim (Bool-cases (p == q)) [
        | inl same ↦
            let i : p ≡ q = ground arith in
            let last : some d ≡ some (after q) =
              ap some (sym (change_here p q (λ _. d) heap same))
              ∙ ap (sent_if text (change p (λ _. d) heap q)) (sym (clash q same))
              ∙ g q in
            subst (λ z. sent_if text (heap z) (has z (p ∷ ps)) ≡ some (after q)) i
              (ap (sent_if text (heap p)) (has_here p ps) ∙ e ∙ last)
        | inr other ↦
            ap (sent_if text (heap q)) (has_else p q ps other)
            ∙ ap (λ z. sent_if text z (has q ps)) (sym (change_other p q (λ _. d) heap other))
            ∙ g q
      ],
    )

-- A broadcast to connections that take the text fails no assertion, hands the text to each
-- connection of the manager once, and leaves all other connections and the set as they are.
pub broadcast_lem :
    (text : Bytes) (s : TcpServer)
    → HoldsOnce s.connections
    → ((q : ℕ) → has q s.connections ≡ true → Takes text (s.heap q))
    → (t : TcpServer) × (broadcast text s ≡ some t)
      × (t.connections ≡ s.connections)
      × ((q : ℕ) → sent_if text (s.heap q) (has q s.connections) ≡ some (t.heap q))
unfolding broadcast
broadcast_lem text s u h =
    let (after, e, g) = broadcast_to_lem text s.connections s.heap u h in
    (record s { heap = after }, rw (e, broadcast) refl, refl, g)

-- What is on the wire of a connection on which nothing was under way when it was handed a text: if
-- it is open and nothing is under way again, all that was there, then the text, then what was sent
-- later.
heard :
    (text : Bytes) (c m d : TcpConn)
    → IsKept c
    → IsIdle c
    → c.is_open ≡ true
    → IsKept m
    → m.accepted ≡ c.accepted ++ text
    → Reach m d
    → IsIdle d
    → d.is_open ≡ true
    → (rest : Bytes) × (d.wire ≡ (c.wire ++ text) ++ rest)
heard text c m d v i open_before k e r j o =
    let (rest, grown) = Reach-Grows r in
    (
      rest,
      (settled d (Reach-IsKept k r) j o).0
          ∙ grown
          ∙ ap (λ z. z ++ rest) (e ∙ ap (λ z. z ++ text) (sym (settled c v i open_before).0)),
    )

-- After a broadcast to connections that take the text, an open connection of the manager on which
-- nothing was under way has the text on its wire, behind all that was there, as soon as again nothing is
-- under way on it, if it was not closed; with sends that wait for that.
pub broadcast_delivers :
    (text : Bytes) (s t : TcpServer) (q : ℕ) (d : TcpConn)
    → HoldsOnce s.connections
    → ((q : ℕ) → has q s.connections ≡ true → Takes text (s.heap q))
    → broadcast text s ≡ some t
    → has q s.connections ≡ true
    → IsIdle (s.heap q)
    → (s.heap q).is_open ≡ true
    → Reach (t.heap q) d
    → IsIdle d
    → d.is_open ≡ true
    → (rest : Bytes) × (d.wire ≡ ((s.heap q).wire ++ text) ++ rest)
broadcast_delivers text s t q d u h e m i open_before r j o =
    let (t', f, k, g) = broadcast_lem text s u h in
    let same : t' ≡ t = some_inj (sym f ∙ e) in
    let sent : send text (s.heap q) ≡ some (t.heap q) =
      ap (sent_if text (s.heap q)) (sym m) ∙ g q ∙ ap (λ (z : TcpServer). some (z.heap q)) same in
    let takes = h q m in
    let kept = Step-IsKept (s.heap q) (t.heap q) takes.in_order (sends text i takes.room sent) in
    heard text (s.heap q) (t.heap q) d takes.in_order i open_before kept
      (send-accepted text (s.heap q) (t.heap q) sent) r j o

-- A change that leaves a part of a connection leaves it of all.
change-keeps :
    {A : Type 0} (part : TcpConn → A) (p q : ℕ) (f : TcpConn → TcpConn) (heap : ℕ → TcpConn)
    → ((c : TcpConn) → part (f c) ≡ part c)
    → part (change p f heap q) ≡ part (heap q)
change-keeps part p q f heap h = elim (Bool-cases (p == q)) [
  | inl e ↦ ap part (change_here p q f heap e) ∙ h (heap q)
  | inr e ↦ ap part (change_other p q f heap e)
]

with_input : Buffer → TcpConn → TcpConn
with_input b c = record c { input = b }

with_input-Takes :
    (text : Bytes) (b : Buffer) (c : TcpConn) → Takes text c → Takes text (with_input b c)
unfolding with_input
with_input-Takes text b c h = record {
  in_order = record {
    in_order = h.in_order.in_order;
    low = h.in_order.low;
    nothing_lost = h.in_order.nothing_lost;
    in_flight = h.in_order.in_flight;
  };
  room = h.room;
}

change-Takes :
    (text : Bytes) (p q : ℕ) (b : Buffer) (heap : ℕ → TcpConn)
    → Takes text (heap q)
    → Takes text (change p (with_input b) heap q)
change-Takes text p q b heap h = elim (Bool-cases (p == q)) [
  | inl e ↦
      subst (Takes text) (sym (change_here p q (with_input b) heap e))
        (with_input-Takes text b (heap q) h)
  | inr e ↦ subst (Takes text) (sym (change_other p q (with_input b) heap e)) h
]

str-retrive_all : (b : Buffer) → str (retrive_all b) ≡ []
unfolding str retrive_all
str-retrive_all b = refl

module _ {S : Type 0} (conn_callback : TcpConn → S → S) (remote_address : ℕ → Bytes) where
  -- What the chat room says when `chunk` comes from the connection `p`.
  abbrev pub said : Bytes → ℕ → TcpServer → Bytes
  said chunk p s = chat_reply (remote_address p) (str (s.heap p).input ++ chunk)

  abbrev pub chat_read : Bytes → ℕ → TcpServer → S → Option (TcpServer × S)
  chat_read chunk p s t = read_at conn_callback (chat_receive remote_address) no_error chunk p s t

  read_in_order :
      (chunk : Bytes) (p : ℕ) (s : TcpServer) (t : S) (b : Buffer)
      → append chunk (s.heap p).input ≡ some b
      → chat_read chunk p s t
        ≡ chat_receive remote_address p (record s { heap = change p (with_input b) s.heap }) t
  unfolding read_at with_input
  read_in_order chunk p s t b e = rw (e, read_at) refl

  answers :
      (p : ℕ) (s : TcpServer) (t : S) (text : Bytes) (v : TcpServer)
      → str (s.heap p).input ≡ text
      → broadcast (chat_reply (remote_address p) text) s ≡ some v
      → chat_receive remote_address p s t
        ≡ some (record v { heap = change p clear_input v.heap }, t)
  unfolding chat_receive
  answers p s t text v e f =
      let g : broadcast (chat_reply (remote_address p) (str (s.heap p).input)) s ≡ some v =
        ap (λ z. broadcast (chat_reply (remote_address p) z) s) e ∙ f in
      rw (g, chat_receive) refl

  change-IsKept :
      (p q : ℕ) (f : TcpConn → TcpConn) (heap : ℕ → TcpConn)
      → ((c : TcpConn) → IsKept c → IsKept (f c))
      → IsKept (heap q)
      → IsKept (change p f heap q)
  change-IsKept p q f heap h k = elim (Bool-cases (p == q)) [
    | inl e ↦ subst IsKept (sym (change_here p q f heap e)) (h (heap q) k)
    | inr e ↦ subst IsKept (sym (change_other p q f heap e)) k
  ]

  clear-IsKept : (c : TcpConn) → IsKept c → IsKept (clear_input c)
  unfolding clear_input
  clear-IsKept c k = Step-IsKept c _ k (reads (retrive_all c.input) refl)

  input-IsKept : (b : Buffer) (c : TcpConn) → IsKept c → IsKept (with_input b c)
  unfolding with_input
  input-IsKept b c k = Step-IsKept c _ k (reads b refl)

  input-IsIdle :
      (p q : ℕ) (b : Buffer) (heap : ℕ → TcpConn)
      → IsIdle (heap q)
      → IsIdle (change p (with_input b) heap q)
  unfolding with_input
  input-IsIdle p q b heap i = (
    change-keeps (λ c. c.posted) p q (with_input b) heap (λ c. refl) ∙ i.0,
    change-keeps (λ c. c.writing) p q (with_input b) heap (λ c. refl) ∙ i.1,
  )

  -- When bytes come from a connection of the chat room, whose input buffer is in order and has room
  -- for them, and all connections take the reply: no assertion fails, the set of connections stays,
  -- and nothing is left in the input. An open connection of the manager on which nothing was under way
  -- has the reply on its wire, behind all that was there, as soon as again nothing is under way on it,
  -- if it was not closed, and with sends that wait for that; and nothing is sent to a connection
  -- that is not in the manager.
  pub chat_read_lem :
      (chunk : Bytes) (p : ℕ) (s : TcpServer) (t : S)
      → HoldsOnce s.connections
      → IsBuffer (s.heap p).input
      → (s.heap p).input.writer + length chunk < max_size
      → ((q : ℕ) → has q s.connections ≡ true → Takes (said chunk p s) (s.heap q))
      → (v : TcpServer) × (chat_read chunk p s t ≡ some (v, t))
        × (v.connections ≡ s.connections)
        × (str (v.heap p).input ≡ [])
        × ((q : ℕ) (d : TcpConn)
            → has q s.connections ≡ true
            → IsIdle (s.heap q)
            → (s.heap q).is_open ≡ true
            → Reach (v.heap q) d
            → IsIdle d
            → d.is_open ≡ true
            → (rest : Bytes) × (d.wire ≡ ((s.heap q).wire ++ said chunk p s) ++ rest))
        × ((q : ℕ)
            → has q s.connections ≡ false
            → ((v.heap q).output ≡ (s.heap q).output) × ((v.heap q).posted ≡ (s.heap q).posted))
  unfolding read_at chat_receive with_input clear_input
  chat_read_lem chunk p s t u k m h =
      let (b, e, j, w, l) = append_lem chunk (s.heap p).input k m in
      let s1 : TcpServer = record s { heap = change p (with_input b) s.heap } in
      let text = said chunk p s in
      let takes =
        λ (q : ℕ) (i : has q s.connections ≡ true). change-Takes text p q b s.heap (h q i) in
      let (v, f, c, g) = broadcast_lem text s1 u takes in
      (
        record v { heap = change p clear_input v.heap },
        read_in_order chunk p s t b e
            ∙ answers p s1 t (str (s.heap p).input ++ chunk) v
                (ap (λ (x : TcpConn). str x.input) (change_same p (with_input b) s.heap) ∙ w) f,
        c,
        ap (λ (x : TcpConn). str x.input) (change_same p clear_input v.heap)
            ∙ str-retrive_all (v.heap p).input,
        (λ q d i idle open_before r a o.
            let one = h q i in
            let sent : send text (s1.heap q) ≡ some (v.heap q) =
              ap (sent_if text (s1.heap q)) (sym i) ∙ g q in
            let kept =
              Step-IsKept (s1.heap q) (v.heap q) (takes q i).in_order
                (sends text (input-IsIdle p q b s.heap idle) (takes q i).room sent) in
            heard text (s.heap q) (change p clear_input v.heap q) d one.in_order idle open_before
              (change-IsKept p q clear_input v.heap clear-IsKept kept)
              (change-keeps (λ x. x.accepted) p q clear_input v.heap (λ x. refl)
                ∙ send-accepted text (s1.heap q) (v.heap q) sent
                ∙ ap (λ z. z ++ text)
                    (change-keeps (λ x. x.accepted) p q (with_input b) s.heap (λ x. refl)))
              r a o),
        (λ q i.
            let same : s1.heap q ≡ v.heap q =
              some_inj (ap (sent_if text (s1.heap q)) (sym i) ∙ g q) in
            (
              change-keeps (λ x. x.output) p q clear_input v.heap (λ x. refl)
                  ∙ ap (λ (x : TcpConn). x.output) (sym same)
                  ∙ change-keeps (λ x. x.output) p q (with_input b) s.heap (λ x. refl),
              change-keeps (λ x. x.posted) p q clear_input v.heap (λ x. refl)
                  ∙ ap (λ (x : TcpConn). x.posted) (sym same)
                  ∙ change-keeps (λ x. x.posted) p q (with_input b) s.heap (λ x. refl),
            )),
      )

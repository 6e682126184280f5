-- ===== src/Adv/Bus/Context.antt =====
-- cppboot/adv/bus/context.h and context.cc: messages taken out of the bytes that a connection has
-- received.
pub mod Laws
use altas.Prelude.{
  ℕ, ◌+◌, ◌≡◌, Bool, true, false, List, [], ◌∷◌, ◌++◌, Option, none, some, Bytes, length, take,
  drop, if◌then◌else◌, ltb, ◌==◌,
}
use altas.Words.{u32_at}
use altas.Net.Buffer.{Buffer, str, readable_bytes, retrive}
use altas.Adv.Bus.Msg.{Msg, Document, msg_magic, unpack}

pub data Result : Type 0 where
  k_continue k_bad k_good : Result

pub data ParseState : Type 0 where
  k_header k_body : ParseState

pub record BusContext : Type 0 where
  pub name : Bytes
  pub state : ParseState
  pub magic : ℕ
  pub len : ℕ

-- The constructor leaves the header as it was in memory: arguments here.
unfoldable pub new_context : ℕ → ℕ → BusContext
new_context magic len = record { name = []; state = k_header; magic = magic; len = len }

-- The result, and the context, the buffer and the message as they are then.
abbrev pub Parsed : Type 0
Parsed = Result × BusContext × Buffer × Msg

module _ (read : Bytes → Option Document) where
  unpacked : BusContext → Buffer → Msg → Option Msg → Parsed
  unpacked c b m none = (k_bad, c, b, m)
  unpacked c b m (some n) = (k_good, c, b, n)

  -- In the state `k_body`.
  unfoldable pub parse_body : BusContext → Buffer → Msg → Parsed
  unfolding unpacked
  parse_body c b m =
      if ltb (readable_bytes b) c.len
      then (k_continue, c, b, m)
      else unpacked (record c { state = k_header }) (retrive c.len b) m
          (unpack read (take c.len (str b)) m)

  -- In the state `k_header`.
  unfoldable pub parse_header : BusContext → Buffer → Msg → Parsed
  parse_header c b m =
      if ltb (readable_bytes b) 8
      then (k_continue, c, b, m)
      else let d : BusContext = record c {
        state = k_body;
        magic = u32_at 0 (str b);
        len = u32_at 4 (str b);
      } in
        if d.magic == msg_magic then parse_body d (retrive 8 b) m else (k_bad, d, retrive 8 b, m)

  unfoldable pub parse : BusContext → Buffer → Msg → Parsed
  parse c b m = elim c.state [ k_header ↦ parse_header c b m | k_body ↦ parse_body c b m ]

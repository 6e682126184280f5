-- ===== src/Adv/Bus/Msg.antt =====
-- cppboot/adv/bus/msg.h, msg.cc and msg_packer.cc. A connection is its number; none is a null
-- pointer. The JSON library is a parameter: `dump` writes the document that `Pack` builds, and
-- `read` parses one and takes its members out, where none is an exception.
pub mod Laws
use altas.Prelude.{
  ℕ, zero, suc, ◌+◌, ◌%◌, ◌≡◌, Bool, true, false, List, [], ◌∷◌, ◌++◌, Option, none, some, ◌>>=◌,
  Bytes, codes, is_empty, length, if◌then◌else◌, span_until, drop,
}
use altas.Words.{u32_mod, u32_to_bytes}
use altas.OrdMap.{OrdMap, find, insert}
use altas.Status.{Status, ok_status, invalid_argument_error}
use altas.Net.Buffer.{Buffer, new_buffer, append, str}

abbrev pub msg_magic : ℕ
msg_magic = 538185761

pub record Msg : Type 0 where
  pub src : Option ℕ
  pub id : ℕ
  pub is_request : Bool
  pub caller : Bytes
  pub method : Bytes
  pub method_provider : Bytes
  pub params : OrdMap Bytes

unfoldable pub new_msg : Msg
new_msg = record {
  src = none;
  id = 0;
  is_request = true;
  caller = [];
  method = [];
  method_provider = [];
  params = [];
}

-- `Params`
unfoldable pub has : Bytes → OrdMap Bytes → Bool
has key values =
    if is_empty key then false else elim (find key values) [ none ↦ false | some v ↦ true ]

unfoldable pub set : Bytes → Bytes → OrdMap Bytes → OrdMap Bytes
set key value values = if is_empty key then values else insert key value values

unfoldable pub get : Bytes → OrdMap Bytes → Bytes
get key values = if is_empty key then [] else elim (find key values) [ none ↦ [] | some v ↦ v ]

unfoldable pub set_param : Bytes → Bytes → Msg → Msg
set_param key value m = record m { params = set key value m.params }

unfoldable pub param : Bytes → Msg → Bytes
param key m = get key m.params

-- The method up to the first '/', and from it on.
set_split : Bytes × Bytes → Msg → Msg
set_split (method, []) m = record m { method = method }
set_split (provider, c ∷ method) m = record m { method_provider = provider; method = method }

unfoldable pub set_method : Bytes → Msg → Msg
unfolding set_split
set_method method m = set_split (span_until b'/' method) m

-- The members of the JSON document of a message.
pub record Document : Type 0 where
  pub id : ℕ
  pub method : Bytes
  pub is_req : Bool
  pub caller : Bytes
  pub method_provider : Bytes
  pub param : List (Bytes × Bytes)

unfoldable pub document_of : Msg → Document
document_of m = record {
  id = m.id;
  method = m.method;
  is_req = m.is_request;
  caller = m.caller;
  method_provider = m.method_provider;
  param = m.params;
}

unfoldable pub set_params : List (Bytes × Bytes) → Msg → Msg
set_params [] m = m
set_params ((k, v) ∷ ps) m = set_params ps (set_param k v m)

unfoldable pub from_document : Document → Msg → Msg
from_document d m = set_params d.param (record (set_method d.method (record m { id = d.id })) {
  is_request = d.is_req;
  caller = d.caller;
  method_provider = d.method_provider;
})

unfoldable pub pack : (Document → Bytes) → Msg → Bytes
pack dump m = dump (document_of m)

-- The status is whether there was no exception; its message is the library's.
unfoldable pub unpack : (Bytes → Option Document) → Bytes → Msg → Option Msg
unpack read text m = elim (read text) [ none ↦ none | some d ↦ some (from_document d m) ]

-- `MsgHeader` in memory.
unfoldable pub header_bytes : ℕ → ℕ → Bytes
header_bytes magic len = u32_to_bytes magic ++ u32_to_bytes len

-- What `SendMessageToConnection` hands to the connection, where the body is what `Pack` wrote. The
-- byte behind the body is the zero that ends its text. None is a failed assertion of the buffer.
unfoldable pub frame : Bytes → Option Bytes
frame body = do
  started ←
      append (header_bytes msg_magic ((length body % u32_mod + 1) % u32_mod))
        (new_buffer (8 + length body + 1))
  filled ← append (body ++ 0 ∷ []) started
  some (str filled)

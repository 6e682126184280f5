-- ===== src/Adv/Bus/Client.antt =====
-- cppboot/adv/bus/client.h and client.cc, and `Call` of invoker.cc. A method of the service is a
-- function of its input and of the state it changes. What is sent goes to the one connection of the
-- client.
pub mod Laws
pub mod Start
use altas.Prelude.{
  ℕ, ◌≡◌, Bool, true, false, List, [], ◌∷◌, Option, none, some, Bytes, codes, if◌then◌else◌, change,
}
use altas.OrdMap.{OrdMap}
use altas.Status.{Status, already_exists_error}
use altas.Net.Buffer.{Buffer}
use altas.Adv.Bus.Msg.{Msg, Document, new_msg}
use altas.Adv.Bus.Context.{k_continue, k_bad, k_good, BusContext, Parsed, parse}
use altas.Adv.Bus.Server.{In, MethodFunc, set, empty_in, serve_msg}
use altas.Adv.Bus.Server
use altas.Adv.Bus.Invoker.{BusInvoker, Waiting, new_invoker}
use altas.Adv.Bus.Invoker

-- `gone` tells which results were destroyed.
pub record BusClient (S : Type 0) : Type 0 where
  pub name : Bytes
  pub methods : OrdMap (MethodFunc S)
  pub invoker : BusInvoker
  pub gone : ℕ → Bool
  pub stopped : Bool

module _ {S : Type 0} where
  unfoldable pub new_client : Bytes → (ℕ → Waiting) → BusClient S
  new_client name results = record {
    name = name;
    methods = [];
    invoker = new_invoker name results;
    gone = λ r. false;
    stopped = false;
  }

  -- The status, the messages that are written, and the client.
  unfoldable pub acall : Bytes → In → Option ℕ → BusClient S → Status × List Msg × BusClient S
  acall method i result c =
      let (st, sent, invoker) = Invoker.acall method i result c.invoker in
      (st, sent, record c { invoker = invoker })

  -- `Call` up to its wait, with its local `result` at that address. Without an `out` the call
  -- returns at once, and the result is gone.
  unfoldable pub call :
      Bytes → In → (has_out : Bool) → (result : ℕ) → BusClient S → Status × List Msg × BusClient S
  call method i has_out result c =
      let (st, sent, d) = acall method i (some result) c in
      (st, sent, if has_out then d else record d { gone = change result (λ g. true) d.gone })

  call_added :
      Bytes → ℕ → Bool × OrdMap (MethodFunc S) → BusClient S → Status × List Msg × BusClient S
  call_added name result (false, methods) c = (already_exists_error name, [], c)
  call_added name result (true, methods) c =
      call (codes "SvcMgr/AddMethod") (set (codes "MethodName") name empty_in) false result
        (record c { methods = methods })

  unfoldable pub add_method :
      Bytes → MethodFunc S → (result : ℕ) → BusClient S → Status × List Msg × BusClient S
  unfolding call_added
  add_method name func result c = call_added name result (Server.add_method name func c.methods) c

  unfoldable pub report_my_service_to_server :
      (result : ℕ) → BusClient S → Status × List Msg × BusClient S
  report_my_service_to_server result c =
      call (codes "RegisterService") (set (codes "ServiceName") c.name empty_in) false result c

  unfoldable pub start : (result : ℕ) → BusClient S → Status × List Msg × BusClient S
  start result c = report_my_service_to_server result c

  unfoldable pub stop : BusClient S → BusClient S
  stop c = record c { stopped = true }

  unfoldable pub handle_request_message : Msg → BusClient S → S → S × List Msg
  handle_request_message msg c s =
      let (t, resp) = serve_msg c.methods msg new_msg s in (t, resp ∷ [])

  -- Whether the response would be written to a result that is gone.
  dangles : Option ℕ → BusClient S → Bool
  dangles none c = false
  dangles (some result) c = c.gone result

  -- None is a write to a result that is gone.
  unfoldable pub handle_response_message : Msg → BusClient S → Option (BusClient S)
  unfolding dangles
  handle_response_message msg c =
      if dangles (c.invoker.waitings msg.id) c
      then none
      else some (record c { invoker = Invoker.handle_response_message msg c.invoker })

  abbrev respond : S → Option (BusClient S) → Option (BusClient S × S × List Msg)
  respond s none = none
  respond s (some c) = some (c, s, [])

  unfoldable pub handle_message : Msg → BusClient S → S → Option (BusClient S × S × List Msg)
  handle_message msg c s =
      if msg.is_request
      then (let (t, sent) = handle_request_message msg c s in some (c, t, sent))
      else respond s (handle_response_message msg c)

  -- The context and the buffer, and what the message leads to.
  received : BusClient S → S → Parsed → BusContext × Buffer × Option (BusClient S × S × List Msg)
  received c s (k_continue, ctx, buf, msg) = (ctx, buf, some (c, s, []))
  received c s (k_bad, ctx, buf, msg) = (ctx, buf, some (stop c, s, []))
  received c s (k_good, ctx, buf, msg) = (ctx, buf, handle_message msg c s)

  unfoldable pub on_transport_read_callback :
      (Bytes → Option Document)
      → BusContext
      → Buffer
      → BusClient S
      → S
      → BusContext × Buffer × Option (BusClient S × S × List Msg)
  unfolding received
  on_transport_read_callback read ctx buf c s = received c s (parse read ctx buf new_msg)

-- ===== src/Adv/Bus/Server.antt =====
-- cppboot/adv/bus/method.h, service.cc, router.cc and server.cc. A method is a function of its
-- input and of the state it changes; what the server sends is a list of connections and messages,
-- in their order.
pub mod Laws
use altas.Prelude.{
  ℕ, ◌≡◌, Bool, true, false, ◌||◌, List, [], ◌∷◌, ◌++◌, Option, none, some, Bytes, codes, is_empty,
  if◌then◌else◌, bytes_eq,
}
use altas.OrdMap.{OrdMap, find, insert, erase}
use altas.Net.Buffer.{Buffer}
use altas.Adv.Bus.Msg.{Msg, Document, new_msg, set_param, set_params}
use altas.Adv.Bus.Context.{Result, k_continue, k_bad, k_good, BusContext, Parsed, parse}

-- `In`, which is also `Out`.
pub record In : Type 0 where
  pub conn : Option ℕ
  pub values : OrdMap Bytes

abbrev pub get_or_empty : Option Bytes → Bytes
get_or_empty none = []
get_or_empty (some v) = v

unfoldable pub get : Bytes → In → Bytes
get key i = get_or_empty (find key i.values)

unfoldable pub set : Bytes → Bytes → In → In
set key value i = record i { values = insert key value i.values }

unfoldable pub set_all : OrdMap Bytes → In → In
set_all [] i = i
set_all ((k, v) ∷ ps) i = set_all ps (set k v i)

unfoldable pub empty_in : In
empty_in = record { conn = none; values = [] }

module _ (S : Type 0) where
  abbrev pub MethodFunc : Type 0
  MethodFunc = In → S → S × In

-- What is set in the reply whichever method is called.
answer : Msg → Msg → Msg
answer req resp = record resp { id = req.id; caller = req.caller; is_request = false }

module _ {S : Type 0} where
  unfoldable pub add_method :
      Bytes → MethodFunc S → OrdMap (MethodFunc S) → Bool × OrdMap (MethodFunc S)
  add_method name func methods = elim (find name methods) [
    | none ↦ (true, insert name func methods)
    | some f ↦ (false, methods)
  ]

  unfoldable pub serve_msg : OrdMap (MethodFunc S) → Msg → Msg → S → S × Msg
  unfolding answer
  serve_msg methods req resp s = elim (find req.method methods) [
    | none ↦ (s, answer req (set_param (codes "return") (codes "not found") resp))
    | some f ↦
        let (t, out) = f (set_all req.params (record empty_in { conn = req.src })) s in
        (t, answer req (set_params out.values resp))
  ]

-- `connections_`, a map whose order is not used. A null pointer is none.
abbrev pub Router : Type 0
Router = OrdMap (Option ℕ)

unfoldable pub add : Bytes → Option ℕ → Router → Router
add name conn router = insert name conn router

unfoldable pub remove : Bytes → Router → Router
remove name router = erase name router

unfoldable pub find_conn : Bytes → Router → Option ℕ
find_conn name router = elim (find name router) [ none ↦ none | some c ↦ c ]

unfoldable pub handle_register_method : MethodFunc Router
handle_register_method i router = (add (get (codes "ServiceName") i) i.conn router, empty_in)

-- The methods of the local service.
unfoldable pub local_methods : OrdMap (MethodFunc Router)
local_methods = (add_method (codes "RegisterService") handle_register_method []).1

abbrev pub Sent : Type 0
Sent = List (Option ℕ × Msg)

forward : Option ℕ → Msg → Sent
forward none m = []
forward (some c) m = (some c, m) ∷ []

unfoldable pub is_local : Bytes → Bool
is_local provider = is_empty provider || bytes_eq provider (codes "SvcMgr")

unfoldable pub handle_request_message : Msg → Router → Router × Sent
unfolding forward
handle_request_message req router =
    if is_local req.method_provider
    then (let (r, resp) = serve_msg local_methods req new_msg router in (r, (req.src, resp) ∷ []))
    else (router, forward (find_conn req.method_provider router) req)

unfoldable pub handle_response_message : Msg → Router → Router × Sent
unfolding forward
handle_response_message m router = (router, forward (find_conn m.caller router) m)

unfoldable pub handle_message : Msg → Router → Router × Sent
handle_message m router =
    if m.is_request then handle_request_message m router else handle_response_message m router

-- `HandleConnection` of a connection that is gone.
unfoldable pub handle_disconnected : Option BusContext → Router → Router
handle_disconnected none router = router
handle_disconnected (some ctx) router = remove ctx.name router

received : ℕ → Router → Parsed → BusContext × Buffer × Router × Sent
received conn router (k_continue, c, b, m) = (c, b, router, [])
received conn router (k_bad, c, b, m) = (c, b, router, [])
received conn router (k_good, c, b, m) =
    let (r, sent) = handle_message (record m { src = some conn }) router in (c, b, r, sent)

unfoldable pub on_receive :
    (Bytes → Option Document)
    → ℕ
    → BusContext
    → Buffer
    → Router
    → BusContext × Buffer × Router × Sent
unfolding received
on_receive read conn ctx buf router = received conn router (parse read ctx buf new_msg)

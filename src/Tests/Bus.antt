-- ===== src/Tests/Bus.antt =====
-- Clients of the bus: cppboot/adv/bus/client.cc.
use altas.Prelude.{
  ℕ, ◌≡◌, refl, true, false, [], ◌∷◌, none, some, codes, arith, bytes_eq, Bytes, Option, get_or,
  ◌++◌, ◌==◌, if◌then◌else◌, span_until,
}
use altas.OrdMap.{find, insert}
use altas.Status.{ok_status}
use altas.Adv.Bus.Msg.{Msg, Document, document_of, pack, new_msg, set_params, set_method}
use altas.Adv.Bus.Server.{
  In, MethodFunc, set, set_all, empty_in, Router, find_conn, is_local, serve_msg,
}
use altas.Adv.Bus.Server
use altas.Adv.Bus.Invoker.{Waiting, new_invoker, call_msg}
use altas.Adv.Bus.Client.{BusClient, new_client, acall, start, handle_message}
use altas.Adv.Bus.Client.Laws.{
  arrived, Crosses, request, performed, response, waiting, call_returns,
}
use altas.Adv.Bus.Client.Start.{report, reply, started, start_dangles}

abbrev asleep : ℕ → Waiting
asleep r = record { woken = false; out = empty_in }

abbrev caller : BusClient ℕ
caller = new_client (codes "a") asleep

-- It counts its calls.
abbrev count : MethodFunc ℕ
count i n = (n, set (codes "return") (codes "done") i)

abbrev provider : BusClient ℕ
provider = record (new_client (codes "b") asleep) { methods = (codes "count", count) ∷ [] }

abbrev routes : Router
routes = (codes "a", some 1) ∷ (codes "b", some 2) ∷ []

abbrev asked : Msg
asked = request caller (codes "b") (codes "count") empty_in

abbrev answered : Msg
answered = response provider asked 4

abbrev after_call : BusClient ℕ
after_call = waiting caller (codes "b") (codes "count") empty_in 0

-- A JSON library for these two messages.
abbrev dump : Document → Bytes
dump d = if d.is_req then codes "{}" else codes "[]"

abbrev read : Bytes → Option Document
read text =
    if get_or text 0 0 == b'{' then some (document_of asked) else some (document_of answered)

reads_answer : read (pack dump answered ++ 0 ∷ []) ≡ some (document_of answered)
unfolding pack document_of serve_msg find bytes_eq new_client new_invoker call_msg set_method
    set_params empty_in span_until
reads_answer = refl

call_returns_example :
    ((acall (codes "b/count") empty_in (some 0) caller) ≡ (ok_status, asked ∷ [], after_call))
    × (Server.handle_message (arrived (some 1) asked) routes
        ≡ (routes, (some 2, arrived (some 1) asked) ∷ []))
    × (handle_message (arrived none asked) provider 4
        ≡ some (provider, (performed count asked 4).0, answered ∷ []))
    × (Server.handle_message (arrived (some 2) answered) routes
        ≡ (routes, (some 1, arrived (some 2) answered) ∷ []))
    × ((c : BusClient ℕ) × (handle_message (arrived none answered) after_call 5 ≡ some (c, 5, []))
        × ((c.invoker.results 0).woken ≡ true)
        × ((c.invoker.results 0).out
            ≡ set_all
                (set_params (performed count asked 4).1.values new_msg).params
                (caller.invoker.results 0).out))
    × Crosses dump read asked
    × Crosses dump read answered
unfolding find bytes_eq is_local find_conn new_client new_invoker set_params empty_in set_method
    span_until
call_returns_example =
    call_returns caller provider 5 4 routes (codes "b") (codes "count") count empty_in 0 1 2
      (ground arith) refl refl refl refl refl (ground arith) dump read
      (unfold pack document_of call_msg in refl) reads_answer

start_dangles_example :
    ((start 0 caller).1 ≡ report caller ∷ [])
    × (Server.handle_message (arrived (some 7) (report caller)) []
        ≡ (insert (codes "a") (some 7) [], (some 7, reply caller 7 []) ∷ []))
    × (handle_message (arrived none (reply caller 7 [])) (started caller 0) 5 ≡ none)
unfolding new_client new_invoker
start_dangles_example = start_dangles caller 5 0 7 []

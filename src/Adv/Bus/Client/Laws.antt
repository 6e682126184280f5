-- ===== src/Adv/Bus/Client/Laws.antt =====
-- A call that goes over the bus, from client to client and back.
use altas.Prelude.{
  some_inj, sym, Bool-cases, is_empty, ℕ, suc, ◌≡◌, refl, ap, ◌∙◌, subst, inl, inr, true, false,
  List, [], ◌∷◌, ◌++◌, Option, none, some, Bytes, Free, if◌then◌else◌, arith,
}
use altas.OrdMap.{OrdMap, find, insert, IsSorted}
use altas.Status.{ok_status}
use altas.Adv.Bus.Msg.{
  Msg, Document, new_msg, document_of, set, set_method, set_params, set_param, pack, unpack,
}
use altas.Adv.Bus.Msg.Laws.{IsMsg, AllNamed, insert-AllNamed, set_method-provider, unpack-pack}
use altas.OrdMap.Laws.{insert-IsSorted}
use altas.Adv.Bus.Server.{In, MethodFunc, set_all, empty_in, serve_msg, Router, find_conn, is_local}
use altas.Adv.Bus.Server
use altas.Adv.Bus.Server.Laws.{serve_msg_answers, routed, serve_known}
use altas.Adv.Bus.Invoker.{BusInvoker, call_msg, put}
use altas.Adv.Bus.Invoker
use altas.Adv.Bus.Invoker.Laws.{reaches, put_same}
use altas.Adv.Bus.Client.{
  BusClient, acall, handle_request_message, dangles, handle_response_message, handle_message,
  respond,
}

-- The fields of a message besides the parameters.
abbrev SameHead : Msg → Msg → Type 0
SameHead m n =
    (m.id ≡ n.id)
    × (m.is_request ≡ n.is_request)
    × (m.caller ≡ n.caller)
    × (m.method ≡ n.method)
    × (m.method_provider ≡ n.method_provider)

set_params-SameHead : (ps : List (Bytes × Bytes)) (m : Msg) → SameHead (set_params ps m) m
unfolding set_params set_param
set_params-SameHead [] m = (refl, refl, refl, refl, refl)
set_params-SameHead ((k, v) ∷ ps) m = set_params-SameHead ps (set_param k v m)

-- "service/method"
abbrev pub full_name : Bytes → Bytes → Bytes
full_name service method = service ++ b'/' ∷ method

call_msg_head :
    (service method : Bytes) (i : In) (b : BusInvoker)
    → Free b'/' service
    → SameHead (call_msg (full_name service method) i b) (record new_msg {
      id = b.next_id;
      caller = b.name;
      is_request = true;
      method = method;
      method_provider = service;
    })
unfolding call_msg
call_msg_head service method i b f =
    let start : Msg = record new_msg { id = b.next_id; caller = b.name; is_request = true } in
    let split : set_method (full_name service method) start
        ≡ record start { method = method; method_provider = service } =
      set_method-provider service method start f in
    subst (λ z. SameHead (set_params i.values (set_method (full_name service method) start)) z)
      split (set_params-SameHead i.values (set_method (full_name service method) start))

-- A message that `Pack` and `Unpack` took over, with the connection that it came from, if that is
-- looked at.
abbrev pub arrived : Option ℕ → Msg → Msg
arrived conn m = record m { src = conn }

-- What `Unpack` makes of what `Pack` wrote for the message and the zero byte that ends it.
abbrev pub Crosses : (Document → Bytes) → (Bytes → Option Document) → Msg → Type 0
Crosses dump read m = unpack read (pack dump m ++ 0 ∷ []) new_msg ≡ some (arrived none m)

abbrev IsParams : OrdMap Bytes → Type 0
IsParams m = IsSorted m × AllNamed m

set-IsParams : (k v : Bytes) (m : OrdMap Bytes) → IsParams m → IsParams (set k v m)
unfolding set
set-IsParams k v m (s, n) = elim (Bool-cases (is_empty k)) [
  | inl e ↦ subst (λ b. IsParams (if b then m else insert k v m)) (sym e) (s, n)
  | inr e ↦
      subst (λ b. IsParams (if b then m else insert k v m)) (sym e)
        (insert-IsSorted k v m s, insert-AllNamed k v m e n)
]

set_params-IsMsg :
    (ps : List (Bytes × Bytes)) (m : Msg) → IsParams m.params → IsParams (set_params ps m).params
unfolding set_params set_param
set_params-IsMsg [] m h = h
set_params-IsMsg ((k, v) ∷ ps) m h =
    set_params-IsMsg ps (record m { params = set k v m.params }) (set-IsParams k v m.params h)

call_msg-IsMsg :
    (service method : Bytes) (i : In) (b : BusInvoker)
    → Free b'/' service
    → Free b'/' method
    → IsMsg (call_msg (full_name service method) i b)
unfolding call_msg new_msg
call_msg-IsMsg service method i b f g =
    let start : Msg = record new_msg { id = b.next_id; caller = b.name; is_request = true } in
    let split : set_method (full_name service method) start
        ≡ record start { method = method; method_provider = service } =
      set_method-provider service method start f in
    let (s, n) =
      subst (λ (z : Msg). IsParams (set_params i.values z).params) (sym split)
        (set_params-IsMsg i.values (record start { method = method; method_provider = service })
          (tt, tt)) in
    (subst (Free b'/') (sym (call_msg_head service method i b f).3) g, s, n)

abbrev pub request : {S : Type 0} → BusClient S → Bytes → Bytes → In → Msg
request a service method i = call_msg (full_name service method) i a.invoker

-- The state and the output of a method, called with the parameters of a request.
abbrev pub performed : {T : Type 0} → MethodFunc T → Msg → T → T × In
performed f req t = f (set_all req.params empty_in) t

abbrev pub response : {T : Type 0} → BusClient T → Msg → T → Msg
response b req t = (serve_msg b.methods (arrived none req) new_msg t).1

abbrev pub waiting : {S : Type 0} → BusClient S → Bytes → Bytes → In → ℕ → BusClient S
waiting a service method i result = (acall (full_name service method) i (some result) a).2

module _ {S T : Type 0} (a : BusClient S) (b : BusClient T) (s : S) (t : T) (router : Router)
    (service method : Bytes) (f : MethodFunc T) (i : In) (result to_a to_b : ℕ)
    (plain : Free b'/' service) (far : is_local service ≡ false)
    (b_route : find_conn service router ≡ some to_b)
    (a_route : find_conn a.invoker.name router ≡ some to_a) (known : find method b.methods ≡ some f)
    (alive : a.gone result ≡ false) (named : Free b'/' method) where
  abbrev req : Msg
  req = request a service method i

  abbrev done : T × In
  done = performed f req t

  abbrev resp : Msg
  resp = response b req t

  abbrev later : BusClient S
  later = waiting a service method i result

  head : SameHead req (record new_msg {
    id = a.invoker.next_id;
    caller = a.invoker.name;
    is_request = true;
    method = method;
    method_provider = service;
  })
  head = call_msg_head service method i a.invoker plain

  known_there : find req.method b.methods ≡ some f
  known_there = ap (λ z. find z b.methods) head.3 ∙ known

  served : serve_msg b.methods (arrived none req) new_msg t ≡ (done.0, resp)
  unfolding serve_msg empty_in
  served = ap (λ z. (z, resp)) (serve_known b.methods (arrived none req) new_msg t f known_there).0

  response_params : resp.params ≡ (set_params done.1.values new_msg).params
  unfolding empty_in
  response_params = (serve_known b.methods (arrived none req) new_msg t f (known_there)).1

  response-IsMsg : IsMsg resp
  unfolding empty_in new_msg
  response-IsMsg =
      let made = set_params done.1.values new_msg in
      let empty : resp.method ≡ [] =
        (serve_known b.methods (arrived none req) new_msg t f (known_there)).2
        ∙ (set_params-SameHead done.1.values new_msg).3 in
      let (s, n) =
        subst IsParams (sym response_params) (set_params-IsMsg done.1.values new_msg (tt, tt)) in
      (subst (Free b'/') (sym empty) tt, s, n)

  handled_there : handle_message (arrived none req) b t ≡ some (b, done.0, resp ∷ [])
  unfolding handle_message handle_request_message
  handled_there =
      ap
        (λ z.
          if z
          then (let (u, sent) = handle_request_message (arrived none req) b t in some (b, u, sent))
          else respond t (handle_response_message (arrived none req) b))
        head.1
      ∙ ap (λ z. some (b, z.0, z.1 ∷ [])) served

  response_head :
      (resp.id ≡ a.invoker.next_id) × (resp.caller ≡ a.invoker.name) × (resp.is_request ≡ false)
  response_head =
      let (e, c, r) = serve_msg_answers b.methods (arrived none req) new_msg t in
      (e ∙ head.0, c ∙ head.2, r)

  waits_there : later.invoker.waitings resp.id ≡ some result
  unfolding acall Invoker.acall
  waits_there =
      ap (put a.invoker.next_id (some result) a.invoker.waitings) response_head.0
      ∙ put_same a.invoker.next_id (some result) a.invoker.waitings

  waits_on : (o : Option ℕ) → o ≡ some result → dangles o later ≡ false
  unfolding dangles acall Invoker.acall
  waits_on none e = absurd cc
  waits_on (some r) e = ap a.gone (some_inj e) ∙ alive

  arrives :
      handle_response_message (arrived none resp) later
      ≡ some (record later {
        invoker = Invoker.handle_response_message (arrived none resp) later.invoker;
      })
  unfolding handle_response_message
  arrives =
      ap
        (λ z.
          if z
          then none
          else some (record later {
            invoker = Invoker.handle_response_message (arrived none resp) later.invoker;
          }))
        (waits_on (later.invoker.waitings resp.id) waits_there)

  results_kept : later.invoker.results ≡ a.invoker.results
  unfolding acall Invoker.acall
  results_kept = refl

  handled_here :
      (c : BusClient S) × (handle_message (arrived none resp) later s ≡ some (c, s, []))
      × ((c.invoker.results result).woken ≡ true)
      × ((c.invoker.results result).out
          ≡ set_all (set_params done.1.values new_msg).params (a.invoker.results result).out)
  unfolding handle_message
  handled_here =
      let (e, k, r) = response_head in
      let (w, o, x, y) =
        reaches (arrived none resp) later.invoker result (suc result) waits_there (omega arith) in
      (
        record later {
          invoker = Invoker.handle_response_message (arrived none resp) later.invoker;
        },
        ap
              (λ z.
                if z
                then (let (u, sent) = handle_request_message (arrived none resp) later s in
                    some (later, u, sent))
                else respond s (handle_response_message (arrived none resp) later))
              r
            ∙ ap (respond s) arrives,
        w,
        o
            ∙ ap (λ z. set_all z (later.invoker.results result).out) response_params
            ∙ ap (λ z. set_all (set_params done.1.values new_msg).params (z result).out)
                results_kept,
      )

  -- A call over the bus. The names of the service and of the method hold no '/', the service is not
  -- the bus itself, the server has routes to the service and to the caller, the service knows the
  -- method, the caller's result is still there, and the JSON library reads back what it wrote for
  -- the two messages. Then the caller sends one request; the server passes it on to
  -- the service; the service runs the method with the request's parameters and answers once; the
  -- server passes the answer on to the caller; and the caller's result is woken up, with what it
  -- held and the output of the method. Packing and unpacking on the way changes neither message but
  -- for its connection.
  pub call_returns :
      (dump : Document → Bytes) (read : Bytes → Option Document)
      → read (pack dump req ++ 0 ∷ []) ≡ some (document_of req)
      → read (pack dump resp ++ 0 ∷ []) ≡ some (document_of resp)
      → ((acall (full_name service method) i (some result) a) ≡ (ok_status, req ∷ [], later))
        × (Server.handle_message (arrived (some to_a) req) router
            ≡ (router, (some to_b, arrived (some to_a) req) ∷ []))
        × (handle_message (arrived none req) b t ≡ some (b, done.0, resp ∷ []))
        × (Server.handle_message (arrived (some to_b) resp) router
            ≡ (router, (some to_a, arrived (some to_b) resp) ∷ []))
        × ((c : BusClient S) × (handle_message (arrived none resp) later s ≡ some (c, s, []))
            × ((c.invoker.results result).woken ≡ true)
            × ((c.invoker.results result).out
                ≡ set_all (set_params done.1.values new_msg).params (a.invoker.results result).out))
        × Crosses dump read req
        × Crosses dump read resp
  unfolding acall Invoker.acall
  call_returns dump read reads_req reads_resp = (
    refl,
    routed service (arrived (some to_a) req) router to_b (inl (head.1, head.4, far)) b_route,
    handled_there,
    routed a.invoker.name (arrived (some to_b) resp) router to_a
        (inr (response_head.2, response_head.1)) a_route,
    handled_here,
    unpack-pack dump read req reads_req (call_msg-IsMsg service method i a.invoker plain named),
    unpack-pack dump read resp reads_resp response-IsMsg,
  )

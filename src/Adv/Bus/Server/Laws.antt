-- ===== src/Adv/Bus/Server/Laws.antt =====
-- Who gets a message.
use altas.Prelude.{
  ℕ, ◌≡◌, refl, sym, ap, ◌∙◌, ◌⊎◌, inl, inr, Bool, true, false, Option-cases, [], ◌∷◌, Option, some,
  Bytes, codes, if◌then◌else◌, bytes_eq, arith, lex_compare,
}
use altas.OrdMap.{OrdMap, find, insert}
use altas.OrdMap.Laws.{find-insert}
use altas.Adv.Bus.Msg.{Msg, new_msg, set_params}
use altas.Adv.Bus.Server.{
  get, set, set_all, empty_in, MethodFunc, add_method, answer, serve_msg, Router, add, find_conn,
  handle_register_method, local_methods, Sent, forward, is_local, handle_request_message,
  handle_response_message, handle_message,
}

-- The reply of a service has the request's id and caller and is no request, whether the method is
-- known or not.
pub serve_msg_answers :
    {S : Type 0} (methods : OrdMap (MethodFunc S)) (req resp : Msg) (s : S)
    → ((serve_msg methods req resp s).1.id ≡ req.id)
      × ((serve_msg methods req resp s).1.caller ≡ req.caller)
      × ((serve_msg methods req resp s).1.is_request ≡ false)
unfolding serve_msg answer
serve_msg_answers methods req resp s = elim (Option-cases (find req.method methods)) [
  | inl e ↦ rw (e, serve_msg) (refl, refl, refl)
  | inr (f, e) ↦ rw (e, serve_msg) (refl, refl, refl)
]

-- What a method that is known leaves and answers.
pub serve_known :
    {S : Type 0} (methods : OrdMap (MethodFunc S)) (req resp : Msg) (s : S) (f : MethodFunc S)
    → find req.method methods ≡ some f
    → let done = f (set_all req.params (record empty_in { conn = req.src })) s in
      ((serve_msg methods req resp s).0 ≡ done.0)
      × ((serve_msg methods req resp s).1.params ≡ (set_params done.1.values resp).params)
      × ((serve_msg methods req resp s).1.method ≡ (set_params done.1.values resp).method)
unfolding serve_msg answer
serve_known methods req resp s f e = rw (e, serve_msg) (refl, refl, refl)

-- A request to register a service under a name, from a connection.
abbrev pub registration : Msg → Bytes → ℕ → Msg
registration m name conn = record m {
  src = some conn;
  is_request = true;
  method = codes "RegisterService";
  method_provider = codes "SvcMgr";
  params = (codes "ServiceName", name) ∷ [];
}

after_registration :
    (m : Msg) (name : Bytes) (conn : ℕ) (router : Router)
    → (handle_message (registration m name conn) router).0 ≡ insert name (some conn) router
unfolding handle_message handle_request_message is_local bytes_eq serve_msg local_methods add_method
    find insert set_all set handle_register_method get add empty_in lex_compare
after_registration m name conn router = refl

-- A request for a service of a client, whose name is neither empty nor that of the bus itself.
abbrev pub IsRequestFor : Bytes → Msg → Type 0
IsRequestFor name m = (m.is_request ≡ true) × (m.method_provider ≡ name) × (is_local name ≡ false)

-- A response to a client.
abbrev pub IsResponseFor : Bytes → Msg → Type 0
IsResponseFor name m = (m.is_request ≡ false) × (m.caller ≡ name)

route_request :
    (name : Bytes) (m : Msg) (router : Router)
    → IsRequestFor name m
    → handle_message m router ≡ (router, forward (find_conn name router) m)
unfolding handle_message handle_request_message
route_request name m router (r, p, l) =
    ap (λ b. if b then handle_request_message m router else handle_response_message m router) r
    ∙ ap
        (λ b.
          if b
          then (let (t, resp) = serve_msg local_methods m new_msg router in (t, (m.src, resp) ∷ []))
          else (router, forward (find_conn m.method_provider router) m))
        (ap is_local p ∙ l)
    ∙ ap (λ z. (router, forward (find_conn z router) m)) p

route_response :
    (name : Bytes) (m : Msg) (router : Router)
    → IsResponseFor name m
    → handle_message m router ≡ (router, forward (find_conn name router) m)
unfolding handle_message handle_response_message
route_response name m router (r, p) =
    ap (λ b. if b then handle_request_message m router else handle_response_message m router) r
    ∙ ap (λ z. (router, forward (find_conn z router) m)) p

route :
    (name : Bytes) (m : Msg) (router : Router)
    → IsRequestFor name m ⊎ IsResponseFor name m
    → handle_message m router ≡ (router, forward (find_conn name router) m)
route name m router (inl h) = route_request name m router h
route name m router (inr h) = route_response name m router h

-- A message for a name that has a route.
pub routed :
    (name : Bytes) (m : Msg) (router : Router) (conn : ℕ)
    → IsRequestFor name m ⊎ IsResponseFor name m
    → find_conn name router ≡ some conn
    → handle_message m router ≡ (router, (some conn, m) ∷ [])
unfolding forward
routed name m router conn h e = route name m router h ∙ ap (λ c. (router, forward c m)) e

forward_if :
    (b : Bool) (conn : ℕ) (c : Option ℕ) (m : Msg) (s : Sent)
    → s ≡ forward c m
    → forward (if b then some conn else c) m ≡ (if b then (some conn, m) ∷ [] else s)
unfolding forward
forward_if true conn c m s e = refl
forward_if false conn c m s e = sym e

find_conn-add :
    (name k : Bytes) (conn : ℕ) (router : Router)
    → find_conn k (insert name (some conn) router)
      ≡ (if bytes_eq name k then some conn else find_conn k router)
unfolding find_conn
find_conn-add name k conn router = ground (arith, find-insert name k (some conn) router)

-- After a service has registered a name, a request for a service of that name, and a response to a
-- caller of that name, go to its connection unchanged, and those for any other name go where they
-- went before, where the name in a request is neither empty nor that of the bus itself; none of them
-- changes the routes.
pub handle_message_routes :
    (reg m : Msg) (name k : Bytes) (conn : ℕ) (router : Router)
    → IsRequestFor k m ⊎ IsResponseFor k m
    → let after = (handle_message (registration reg name conn) router).0 in
      handle_message m after
      ≡ (after, (if bytes_eq name k then (some conn, m) ∷ [] else (handle_message m router).1))
handle_message_routes reg m name k conn router h =
    let after = (handle_message (registration reg name conn) router).0 in
    route k m after h
    ∙ ap (λ c. (after, forward c m))
        (ap (find_conn k) (after_registration reg name conn router)
          ∙ find_conn-add name k conn router)
    ∙ ap (λ z. (after, z))
        (forward_if (bytes_eq name k) conn (find_conn k router) m _
          (ap (λ z. z.1) (route k m router h)))

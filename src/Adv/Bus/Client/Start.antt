-- ===== src/Adv/Bus/Client/Start.antt =====
-- What `Start` of a client leads to.
use altas.Prelude.{
  ℕ, ◌≡◌, refl, ap, ◌∙◌, true, false, [], ◌∷◌, Option, none, some, codes, bytes_eq, lex_compare,
  change, change_same, if◌then◌else◌, some_inj, span_until,
}
use altas.OrdMap.{find, insert}
use altas.Adv.Bus.Msg.{Msg, new_msg, set_method, set_params, set_param}
use altas.Adv.Bus.Msg
use altas.Adv.Bus.Server.{
  In, set_all, set, get, empty_in, serve_msg, Router, add, add_method, local_methods, is_local,
  handle_request_message, handle_register_method,
}
use altas.Adv.Bus.Server
use altas.Adv.Bus.Invoker.{BusInvoker, call_msg, put}
use altas.Adv.Bus.Invoker
use altas.Adv.Bus.Invoker.Laws.{put_same}
use altas.Adv.Bus.Client.{
  BusClient, acall, call, start, report_my_service_to_server, dangles, handle_response_message,
  handle_message, respond,
}
use altas.Adv.Bus.Client
use altas.Adv.Bus.Client.Laws.{arrived}

abbrev pub report : {S : Type 0} → BusClient S → Msg
report c = call_msg (codes "RegisterService") (set (codes "ServiceName") c.name empty_in) c.invoker

abbrev pub reply : {S : Type 0} → BusClient S → ℕ → Router → Msg
reply c conn router = (serve_msg local_methods (arrived (some conn) (report c)) new_msg router).1

abbrev pub started : {S : Type 0} → BusClient S → ℕ → BusClient S
started c result = (start result c).2

module _ {S : Type 0} (c : BusClient S) (s : S) (result conn : ℕ) (router : Router) where
  registered :
      Server.handle_message (arrived (some conn) (report c)) router
      ≡ (insert c.name (some conn) router, (some conn, reply c conn router) ∷ [])
  unfolding Server.handle_message handle_request_message is_local bytes_eq serve_msg local_methods
      add_method find insert set_all set handle_register_method get add empty_in lex_compare
      call_msg set_method set_params set_param Msg.set new_msg span_until
  registered = refl

  reply_head :
      ((reply c conn router).id ≡ c.invoker.next_id) × ((reply c conn router).is_request ≡ false)
  unfolding Server.handle_message handle_request_message is_local bytes_eq serve_msg local_methods
      add_method find insert set_all set handle_register_method get add empty_in lex_compare
      call_msg set_method set_params set_param Msg.set new_msg span_until
  reply_head = (refl, refl)

  waits : (started c result).invoker.waitings c.invoker.next_id ≡ some result
  unfolding start report_my_service_to_server call acall Invoker.acall
  waits = put_same c.invoker.next_id (some result) c.invoker.waitings

  gone : (o : Option ℕ) → o ≡ some result → dangles o (started c result) ≡ true
  unfolding dangles start report_my_service_to_server call acall Invoker.acall
  gone none e = absurd cc
  gone (some r) e =
      ap (change result (λ g. true) c.gone) (some_inj e) ∙ change_same result (λ g. true) c.gone

  -- A client that starts sends one report, on which the server adds the route to the client and
  -- sends one reply; the reply is then written to a result that is gone.
  pub start_dangles :
      ((start result c).1 ≡ report c ∷ [])
      × (Server.handle_message (arrived (some conn) (report c)) router
          ≡ (insert c.name (some conn) router, (some conn, reply c conn router) ∷ []))
      × (handle_message (arrived none (reply c conn router)) (started c result) s ≡ none)
  unfolding handle_message handle_response_message start report_my_service_to_server call acall
      Invoker.acall
  start_dangles = (
    refl,
    registered,
    ap
          (λ b.
            if b
            then (let (t, sent) =
                  Client.handle_request_message (arrived none (reply c conn router))
                    (started c result) s in
                some (started c result, t, sent))
            else respond s
                (handle_response_message (arrived none (reply c conn router)) (started c result)))
          reply_head.1
        ∙ ap
            (λ b. respond s (
              if b
              then none
              else some (record (started c result) {
                invoker =
                    Invoker.handle_response_message (arrived none (reply c conn router))
                      (started c result).invoker;
              })))
            (gone ((started c result).invoker.waitings (reply c conn router).id)
              (ap (started c result).invoker.waitings reply_head.0 ∙ waits)),
  )

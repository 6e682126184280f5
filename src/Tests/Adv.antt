-- ===== src/Tests/Adv.antt =====
-- Command lines and the bus: cppboot/adv.
use altas.Prelude.{
  ◌≡◌, inl, inr, refl, true, false, List, [], ◌∷◌, ◌++◌, Option, none, some, Bytes, codes, arith,
  length, take, ◌-◌, if◌then◌else◌, bytes_eq, span_until,
}
use altas.OrdMap.{find, insert}
use altas.Status.{ok_status}
use altas.Words.{u32_at, u32_to_bytes}
use altas.Net.Buffer.{readable_bytes, retrive, Buffer, str}
use altas.Adv.Args.{
  Args, ArgFlag, k_string, parse_argv, is_dashed, all_letters, is_letter_or_digit, is_letter,
  is_digit,
}
use altas.Adv.Args.Line.{parse_arg_line, quote_all, parse_arg_line-quote_all}
use altas.Adv.Args.Laws.{Setting, words, values_of, blanks, parse-words}
use altas.StrUtil.{str_trim, str_trim_left, str_trim_right, first_from, last_from}
use altas.Adv.Bus.Msg.{
  Msg, Document, new_msg, unpack, header_bytes, from_document, set_method, set_params, set_param,
  set,
}
use altas.Adv.Bus.Msg.Laws.{framed}
use altas.Adv.Bus.Context
use altas.Adv.Bus.Context.{parse_header, parse_body, BusContext, new_context}
use altas.Adv.Bus.Context.Laws.{IsDelivered, parse_in_two}
use altas.Adv.Bus.Server.{In, set_all, handle_message, is_local}
use altas.Adv.Bus.Server.Laws.{registration, handle_message_routes}
use altas.Adv.Bus.Invoker.{BusInvoker, acall, handle_response_message}
use altas.Adv.Bus.Invoker.Laws.{calls, Event, called, happen_all, response_reaches}

parse_arg_line-quote_all_example :
    parse_arg_line (quote_all (codes "--name" ∷ codes "a \"b\"" ∷ []))
    ≡ some (inr (codes "--name" ∷ codes "a \"b\"" ∷ []))
parse_arg_line-quote_all_example =
    parse_arg_line-quote_all (codes "--name" ∷ codes "a \"b\"" ∷ []) (ground arith)

abbrev name_flag : ArgFlag
name_flag = record {
  type = k_string;
  short_name = b'n';
  long_name = codes "name";
  default_value = codes "me";
  help = codes "who";
}

abbrev args : Args
args = record { short_flags = []; long_flags = (codes "name", name_flag) ∷ []; values = [] }

abbrev name_you : Setting
name_you = record { flag = name_flag; value = codes "you" }

name_you-IsWord :
    (str_trim (codes "you") blanks ≡ codes "you") × (str_trim (codes "prog") blanks ≡ codes "prog")
unfolding str_trim str_trim_left str_trim_right first_from last_from
name_you-IsWord = (refl, refl)

parse-words_example :
    parse_argv (codes "prog" ∷ words (name_you ∷ [])) args
    ≡ (ok_status, record args { values = values_of [] (name_you ∷ []) })
unfolding is_dashed find bytes_eq all_letters is_letter_or_digit is_letter is_digit
parse-words_example =
    parse-words args (codes "prog") (name_you ∷ []) refl (refl, name_you-IsWord.1)
      ((refl, omega arith, refl, refl, (refl, name_you-IsWord.0)), tt)

-- A JSON library for messages that differ in their method alone.
abbrev dump : Document → Bytes
dump d = d.method

abbrev read : Bytes → Option Document
read text = some (record {
  id = 5;
  method = take (length text - 1) text;
  is_req = true;
  caller = codes "me";
  method_provider = codes "you";
  param = (codes "k", codes "v") ∷ [];
})

abbrev message : Msg
message = record {
  src = none;
  id = 5;
  is_request = true;
  caller = codes "me";
  method = codes "get";
  method_provider = codes "you";
  params = (codes "k", codes "v") ∷ [];
}

abbrev idle : BusContext
idle = record { name = []; state = Context.ParseState.k_header; magic = 0; len = 0 }

-- The message and one byte more, and its first ten bytes.
abbrev whole : Buffer
whole = record {
  buffer = codes "........" ++ (framed (codes "get") ++ 9 ∷ []);
  reader = 8;
  writer = 21;
}

abbrev first_part : Buffer
first_part = record {
  buffer = codes "........" ++ take 10 (framed (codes "get"));
  reader = 8;
  writer = 18;
}

-- What is left of the first part, with the rest of the message and a byte more behind it.
abbrev second_part : Buffer
second_part = record {
  buffer = codes "........" ++ (codes "get" ++ 0 ∷ 9 ∷ []);
  reader = 8;
  writer = 13;
}

continued :
    ◌≡◌ {A = Bytes}
      (str second_part)
      (str (Context.parse read idle first_part new_msg).2 ++ ((codes "t" ++ 0 ∷ []) ++ 9 ∷ []))
unfolding Context.parse parse_header parse_body readable_bytes retrive str header_bytes u32_to_bytes
    u32_at
continued = refl

parse_in_two_example :
    IsDelivered
      (9 ∷ [])
      message
      (Context.parse read (Context.parse read idle first_part new_msg).1 second_part new_msg)
unfolding str header_bytes u32_to_bytes unpack from_document set_method new_msg set_params
    span_until insert set_param set
parse_in_two_example =
    parse_in_two read new_msg message (codes "get") (codes "t" ++ 0 ∷ []) (9 ∷ []) idle first_part
      (omega arith) refl (omega arith) refl (λ e. cc) second_part (omega arith) continued refl

handle_message_routes_example :
    let after = (handle_message (registration new_msg (codes "you") 7) []).0 in
    handle_message message after ≡ (
      after,
      (if bytes_eq (codes "you") (codes "you")
          then (some 7, message) ∷ []
          else (handle_message message []).1),
    )
unfolding is_local bytes_eq
handle_message_routes_example =
    handle_message_routes new_msg message (codes "you") (codes "you") 7 [] (inl (refl, refl, refl))

abbrev invoker : BusInvoker
invoker = record {
  name = codes "me";
  next_id = 5;
  waitings = (λ i. none);
  results = (λ r. record { woken = false; out = record { conn = none; values = [] } });
}

abbrev another_call : List Event
another_call = called (codes "you/put") (record { conn = none; values = [] }) 1 ∷ []

response_reaches_example :
    let input : In = record { conn = none; values = [] } in
    let before = happen_all another_call (acall (codes "you/get") input (some 0) invoker).2 in
    let after = handle_response_message message before in
    ((after.results 0).woken ≡ true)
    × ((after.results 0).out ≡ set_all message.params (before.results 0).out)
    × (after.results 1 ≡ before.results 1)
    × (after.waitings 5 ≡ none)
response_reaches_example =
    response_reaches (codes "you/get") (record { conn = none; values = [] }) 0 1 another_call
      message invoker (omega arith) (unfold calls in omega arith) refl tt
      (λ e. absurd (omega arith))

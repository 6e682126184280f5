-- ===== src/Adv/Bus/Invoker.antt =====
-- cppboot/adv/bus/invoker.h and invoker.cc: the calls of a client that wait for their responses. A
-- `Result` is its number, none is a null pointer; the map of the waiting calls and the results they
-- fill are functions.
pub mod Laws
use altas.Prelude.{
  ℕ, ◌+◌, ◌%◌, ◌≡◌, Bool, true, false, List, [], ◌∷◌, Option, none, some, Bytes, codes,
  if◌then◌else◌, ◌==◌,
}
use altas.Words.{u32_mod}
use altas.OrdMap.{OrdMap}
use altas.Status.{Status, ok_status, invalid_argument_error}
use altas.Adv.Bus.Msg.{Msg, new_msg, set_method, set_params}
use altas.Adv.Bus.Server.{In, set_all, empty_in}

-- `Result`: whether it was woken up, and what it holds.
pub record Waiting : Type 0 where
  pub woken : Bool
  pub out : In

pub record BusInvoker : Type 0 where
  pub name : Bytes
  pub next_id : ℕ
  pub waitings : ℕ → Option ℕ
  pub results : ℕ → Waiting

unfoldable pub new_invoker : Bytes → (ℕ → Waiting) → BusInvoker
new_invoker name results = record {
  name = name;
  next_id = 1;
  waitings = (λ i. none);
  results = results;
}

unfoldable pub put {ℓ} : {A : Type ℓ} → ℕ → A → (ℕ → A) → ℕ → A
put i v f j = if i == j then v else f j

-- The message that `ACall` builds.
unfoldable pub call_msg : Bytes → In → BusInvoker → Msg
call_msg method i b =
    set_params i.values
      (set_method method (record new_msg { id = b.next_id; caller = b.name; is_request = true }))

-- The status, the message that is written, and the invoker.
unfoldable pub acall : Bytes → In → Option ℕ → BusInvoker → Status × List Msg × BusInvoker
acall method i none b = (invalid_argument_error (codes "no result param"), [], b)
acall method i (some result) b = (
  ok_status,
  call_msg method i b ∷ [],
  record b {
    next_id = (b.next_id + 1) % u32_mod;
    waitings = put b.next_id (some result) b.waitings;
  },
)

fill : OrdMap Bytes → Waiting → Waiting
fill params w = record { woken = true; out = set_all params w.out }

deliver : Msg → BusInvoker → Option ℕ → BusInvoker
unfolding fill
deliver m b none = b
deliver m b (some result) = record b {
  waitings = put m.id none b.waitings;
  results = put result (fill m.params (b.results result)) b.results;
}

unfoldable pub handle_response_message : Msg → BusInvoker → BusInvoker
unfolding deliver
handle_response_message m b = deliver m b (b.waitings m.id)

-- ===== src/Adv/Bus/Invoker/Laws.antt =====
-- Which result a response fills.
use altas.Prelude.{
  subst, ℕ, suc, ◌+◌, ◌%◌, ◌≡◌, ◌≢◌, ◌<◌, refl, sym, ap, ◌∙◌, true, List, [], ◌∷◌, Option, none,
  some, Bytes, arith,
}
use altas.Words.{u32_mod}
use altas.Adv.Bus.Msg.{Msg}
use altas.Adv.Bus.Server.{In, set_all}
use altas.Adv.Bus.Invoker.{BusInvoker, put, acall, deliver, fill, handle_response_message}

-- What happens to an invoker: a call with a result to fill, or a response that comes.
pub data Event : Type 0 where
  called : Bytes → In → ℕ → Event
  responded : Msg → Event

unfoldable pub happen : Event → BusInvoker → BusInvoker
happen (called method i result) b = (acall method i (some result) b).2
happen (responded m) b = handle_response_message m b

unfoldable pub happen_all : List Event → BusInvoker → BusInvoker
happen_all [] b = b
happen_all (e ∷ es) b = happen_all es (happen e b)

unfoldable pub calls : List Event → ℕ
calls [] = 0
calls (called method i result ∷ es) = suc (calls es)
calls (responded m ∷ es) = calls es

-- None of the events is a response with the number `i`.
abbrev pub Unanswered : ℕ → List Event → Type 0
Unanswered i [] = Unit {0}
Unanswered i (called method x result ∷ es) = Unanswered i es
Unanswered i (responded m ∷ es) = (m.id ≢ i) × Unanswered i es

put_other : {A : Type 0} (i j : ℕ) (v : A) (f : ℕ → A) → i ≢ j → put i v f j ≡ f j
unfolding put
put_other i j v f h = ground arith

pub put_same : {A : Type 0} (i : ℕ) (v : A) (f : ℕ → A) → put i v f i ≡ v
unfolding put
put_same i v f = ground arith

deliver_other :
    (m : Msg) (b : BusInvoker) (o : Option ℕ) (i : ℕ)
    → m.id ≢ i
    → ((deliver m b o).waitings i ≡ b.waitings i) × ((deliver m b o).next_id ≡ b.next_id)
unfolding deliver
deliver_other m b none i h = (refl, refl)
deliver_other m b (some r) i h = (put_other m.id i none b.waitings h, refl)

keeps_waiting :
    (es : List Event) (b : BusInvoker) (i j result : ℕ)
    → i < u32_mod
    → b.next_id ≡ (i + 1 + j) % u32_mod
    → j + calls es < u32_mod
    → Unanswered i es
    → b.waitings i ≡ some result
    → (happen_all es b).waitings i ≡ some result
unfolding happen_all calls happen
keeps_waiting [] b i j result l n c u w = w
keeps_waiting (called method x r ∷ es) b i j result l n c u w =
    keeps_waiting es (acall method x (some r) b).2 i (j + 1) result l (unfold acall in omega arith)
      (omega arith) u
      (unfold acall in (put_other b.next_id i (some r) b.waitings (λ e. absurd (omega arith)) ∙ w))
keeps_waiting (responded m ∷ es) b i j result l n c (h, u) w =
    let (k, q) = deliver_other m b (b.waitings m.id) i h in
    keeps_waiting es (handle_response_message m b) i j result l
      (unfold handle_response_message in (q ∙ n)) c u (unfold handle_response_message in (k ∙ w))

delivered :
    (m : Msg) (b : BusInvoker) (result : ℕ)
    → b.waitings m.id ≡ some result
    → handle_response_message m b ≡ record b {
      waitings = put m.id none b.waitings;
      results = put result (fill m.params (b.results result)) b.results;
    }
unfolding handle_response_message deliver
delivered m b result w = ap (deliver m b) w

-- What a response that is waited for changes.
abbrev pub Reached : Msg → BusInvoker → ℕ → ℕ → BusInvoker → Type 0
Reached m before result other after =
    ((after.results result).woken ≡ true)
    × ((after.results result).out ≡ set_all m.params (before.results result).out)
    × (after.results other ≡ before.results other)
    × (after.waitings m.id ≡ none)

pub reaches :
    (m : Msg) (b : BusInvoker) (result other : ℕ)
    → b.waitings m.id ≡ some result
    → other ≢ result
    → Reached m b result other (handle_response_message m b)
unfolding fill
reaches m b result other w ne =
    let filled = put_same result (fill m.params (b.results result)) b.results in
    subst (Reached m b result other) (sym (delivered m b result w)) (
      ap (λ z. z.woken) filled,
      ap (λ z. z.out) filled,
      put_other result other (fill m.params (b.results result)) b.results (λ q. ne (sym q)),
      put_same m.id none b.waitings,
    )

-- A response reaches the result of the call whose number it has, whatever other calls and responses
-- come between, as long as these are fewer than 2^32 calls and no response with that number:
-- that result then is woken up and holds the parameters of the response besides what it held, every
-- other result is as it was, and the number waits no longer.
pub response_reaches :
    (method : Bytes) (x : In) (result other : ℕ) (es : List Event) (m : Msg) (b : BusInvoker)
    → b.next_id < u32_mod
    → calls es < u32_mod
    → m.id ≡ b.next_id
    → Unanswered m.id es
    → other ≢ result
    → let before = happen_all es (acall method x (some result) b).2 in
      let after = handle_response_message m before in
      ((after.results result).woken ≡ true)
      × ((after.results result).out ≡ set_all m.params (before.results result).out)
      × (after.results other ≡ before.results other)
      × (after.waitings m.id ≡ none)
response_reaches method x result other es m b l c e u ne =
    reaches m (happen_all es (acall method x (some result) b).2) result other
      (keeps_waiting es (acall method x (some result) b).2 m.id 0 result (omega arith)
        (unfold acall in omega arith) (omega arith) u
        (unfold acall in
          (ap (put b.next_id (some result) b.waitings) e
            ∙ put_same b.next_id (some result) b.waitings)))
      ne

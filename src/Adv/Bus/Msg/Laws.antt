-- ===== src/Adv/Bus/Msg/Laws.antt =====
-- A message on the wire.
use altas.Prelude.{
  span_until-stop, ℕ, ◌+◌, ◌%◌, ◌^◌, ◌≡◌, ◌<◌, refl, ap, ◌∙◌, false, [], ◌∷◌, ◌++◌, Option, none,
  some, Bytes, is_empty, length, length-replicate, length-append, span_until-end, Free, arith,
  replicate,
}
use altas.Words.{u32_mod, u32_to_bytes, add_size}
use altas.OrdMap.{OrdMap, insert, IsSorted}
use altas.OrdMap.Laws.{insert_all, insert_all-append}
use altas.Net.Buffer.{new_buffer, str}
use altas.Net.Buffer.Laws.{IsBuffer, append_lem, str_lem}
use altas.Adv.Bus.Msg.{
  set_split, Msg, msg_magic, new_msg, Document, document_of, set, set_param, set_params, set_method,
  from_document, pack, unpack, header_bytes, frame,
}

-- No key is empty.
abbrev pub AllNamed : OrdMap Bytes → Type 0
AllNamed [] = Unit {0}
AllNamed ((k, v) ∷ m) = (is_empty k ≡ false) × AllNamed m

-- A message that `set_method` and `set_param` build: the method holds no '/', and the parameters
-- are sorted and have names.
abbrev pub IsMsg : Msg → Type 0
IsMsg m = Free b'/' m.method × IsSorted m.params × AllNamed m.params

set_params_lem :
    (ps : OrdMap Bytes) (m : Msg)
    → AllNamed ps
    → set_params ps m ≡ record m { params = insert_all m.params ps }
unfolding set_params set_param set
set_params_lem [] m h = refl
set_params_lem ((k, v) ∷ ps) m (n, h) =
    rw n (set_params_lem ps (record m { params = insert k v m.params }) h)

set_method-plain :
    (name : Bytes) (m : Msg) → Free b'/' name → set_method name m ≡ record m { method = name }
unfolding set_method
set_method-plain name m h = rw (span_until-end b'/' name h)

delivered :
    (m : Msg)
    → Free b'/' m.method
    → IsSorted m.params
    → AllNamed m.params
    → from_document (document_of m) new_msg ≡ record m { src = none }
unfolding from_document document_of new_msg
delivered m f s n = rw (set_method-plain m.method (record new_msg { id = m.id }) f) (
    set_params_lem m.params (record m { src = none; params = [] }) n
    ∙ ap (λ z. record m { src = none; params = z }) (insert_all-append [] m.params s))

pub unpack-pack :
    (dump : Document → Bytes) (read : Bytes → Option Document) (m : Msg)
    → read (pack dump m ++ 0 ∷ []) ≡ some (document_of m)
    → IsMsg m
    → unpack read (pack dump m ++ 0 ∷ []) new_msg ≡ some (record m { src = none })
unfolding unpack
unpack-pack dump read m e (f, s, n) = rw (e, unpack) (ap some (delivered m f s n))

abbrev pub framed : Bytes → Bytes
framed body = header_bytes msg_magic (length body + 1) ++ (body ++ 0 ∷ [])

new_buffer-IsBuffer : (n : ℕ) → n < 2 ^ 32 → IsBuffer (new_buffer n) × (str (new_buffer n) ≡ [])
unfolding new_buffer
new_buffer-IsBuffer n h =
    let k : IsBuffer (new_buffer n) =
      (omega arith, omega arith, omega (arith, size), omega (arith, size)) in
    (k, str_lem (new_buffer n) k)
  where
    size : length {A = ℕ} (replicate (add_size 8 n) 0) ≡ 8 + n
    size = omega (arith, length-replicate {A = ℕ} (add_size 8 n) 0)

-- Sending a message that is shorter than 2^31 bytes fails no assertion, and sends the magic number,
-- the length of the body with its zero byte, the body and the zero byte.
pub frame_lem : (body : Bytes) → length body < 2 ^ 31 → frame body ≡ some (framed body)
unfolding frame header_bytes new_buffer u32_to_bytes
frame_lem body h =
    let n = 8 + length body + 1 in
    let l : (length body % u32_mod + 1) % u32_mod ≡ length body + 1 = omega arith in
    let hdr = header_bytes msg_magic (length body + 1) in
    let (k, e) = new_buffer-IsBuffer n (omega arith) in
    let (b, p, kb, eb, wb) = append_lem hdr (new_buffer n) k (omega arith) in
    let (c, q, kc, ec, wc) =
      append_lem (body ++ 0 ∷ []) b kb (omega (arith, length-append body (0 ∷ []))) in
    rw l (
      rw (p, q, frame) (ap some (ec ∙ ap (λ z. z ++ (body ++ 0 ∷ [])) (eb ∙ ap (λ z. z ++ hdr) e))))

-- A method that is written with its provider.
pub set_method-provider :
    (provider method : Bytes) (m : Msg)
    → Free b'/' provider
    → set_method (provider ++ b'/' ∷ method) m
      ≡ record m { method = method; method_provider = provider }
unfolding set_method set_split
set_method-provider provider method m f =
    ap (λ z. set_split z m) (span_until-stop b'/' provider method f)

pub insert-AllNamed :
    (k v : Bytes) (m : OrdMap Bytes) → is_empty k ≡ false → AllNamed m → AllNamed (insert k v m)
unfolding insert
insert-AllNamed k v [] e n = (e, tt)
insert-AllNamed k v ((j, w) ∷ m) e (h, n) = ground (arith, insert-AllNamed k v m e n)

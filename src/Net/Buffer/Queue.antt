-- ===== src/Net/Buffer/Queue.antt =====
-- The buffer as the queue of bytes that its users see.
use altas.Prelude.{
  ◌>>=◌, ℕ, ◌+◌, ◌≡◌, ◌<◌, refl, ap, ◌∙◌, List, [], ◌∷◌, ◌++◌, Option, some, Bytes, length, drop,
  arith,
}
use altas.Net.Buffer.{Buffer, str, append, retrive}
use altas.Net.Buffer.Laws.{IsBuffer, max_size, append_lem}
use altas.Net.Buffer.Retrive.{retrive_lem, retrive_low}

pub data Op : Type 0 where
  appended : Bytes → Op
  retrieved : ℕ → Op

-- The operations in their order, on a buffer.
unfoldable pub run : List Op → Buffer → Option Buffer
run [] b = some b
run (appended source ∷ ops) b = append source b >>= run ops
run (retrieved len ∷ ops) b = run ops (retrive len b)

-- The same on the bytes that wait.
unfoldable pub run_queue : List Op → Bytes → Bytes
run_queue [] q = q
run_queue (appended source ∷ ops) q = run_queue ops (q ++ source)
run_queue (retrieved len ∷ ops) q = run_queue ops (drop len q)

-- The number of bytes that the operations append.
unfoldable pub total : List Op → ℕ
total [] = 0
total (appended source ∷ ops) = length source + total ops
total (retrieved len ∷ ops) = total ops

-- The buffer is a queue of bytes: every sequence of operations that appends fewer bytes in all than
-- fit a vector runs without a failed assertion, and what can be read then is what the same
-- sequence leaves of a queue.
pub run_lem :
    (ops : List Op) (b : Buffer)
    → IsBuffer b
    → b.writer + total ops < max_size
    → (c : Buffer) × (run ops b ≡ some c) × IsBuffer c × (str c ≡ run_queue ops (str b))
unfolding run run_queue total
run_lem [] b h m = (b, refl, h, refl)
run_lem (appended source ∷ ops) b h m =
    let (c, e, k, s, low) = append_lem source b h (omega arith) in
    let (d, f, r, t) = run_lem ops c k (omega arith) in (d, rw e f, r, t ∙ ap (run_queue ops) s)
run_lem (retrieved len ∷ ops) b h m =
    let (k, s) = retrive_lem len b h in
    let (d, f, r, t) = run_lem ops (retrive len b) k (omega (arith, retrive_low len b h)) in
    (d, f, r, t ∙ ap (run_queue ops) s)

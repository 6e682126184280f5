-- ===== src/Http/Connections/Exchange.antt =====
-- The client and the server: a request that is sent is answered.
use altas.Prelude.{ℕ, ◌≡◌, List, [], ◌∷◌, Bytes, false}
use altas.Http.Request.{Request}
use altas.Http.Request
use altas.Http.ServeMux.{ServeMux}
use altas.Http.Connections.{Server}

-- The connection has sent this, and is closed.
abbrev pub HasSent : ℕ → List Bytes → Server → Type 0
HasSent p b s = ((s.heap p).sent ≡ b ∷ []) × ((s.heap p).is_open ≡ false)

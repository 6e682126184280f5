-- ===== src/Tests/Net.antt =====
-- The buffer: cppboot/net/buffer.h.
use altas.Prelude.{◌≡◌, List, [], ◌∷◌, ◌++◌, some, codes, arith}
use altas.Net.Buffer.{Buffer, str}
use altas.Net.Buffer.Laws.{IsBuffer}
use altas.Net.Buffer.Queue.{total, Op, appended, retrieved, run, run_queue, run_lem}

-- Two bytes wait in a buffer of twelve.
abbrev waiting : Buffer
waiting = record { buffer = codes "........" ++ codes "abcd"; reader = 9; writer = 11 }

abbrev traffic : List Op
traffic = appended (codes "xyz") ∷ retrieved 3 ∷ appended (codes "!") ∷ []

run_lem_example :
    (c : Buffer) × (run traffic waiting ≡ some c)
    × IsBuffer c
    × (str c ≡ run_queue traffic (str waiting))
run_lem_example = run_lem traffic waiting (omega arith) (unfold total in omega arith)

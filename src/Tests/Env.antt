-- ===== src/Tests/Env.antt =====
-- The table of objects: cppboot/adv/env.cc.
use altas.Prelude.{ℕ, inl, refl, true, [], some, codes}
use altas.Adv.Env.{ObjectEnv, insert_object, get_object, remove_object}
use altas.Adv.Env.Laws.{uses, IsCounted, held_after, Steps, inserts, gets, removes, Steps-IsCounted}

-- Two objects that nobody holds.
abbrev fresh : ObjectEnv
fresh = record {
  objs = [];
  heap = (λ p. record { object_id = some (codes "svc"); nref = 0; alive = true });
}

abbrev nobody : ℕ → ℕ
nobody p = 0

fresh-IsCounted : IsCounted nobody fresh
unfolding uses
fresh-IsCounted = (tt, λ p. (refl, inl refl))

abbrev inserted : ObjectEnv
inserted = (insert_object (some 0) fresh).1

abbrev got : ObjectEnv
got = (get_object (some (codes "svc")) inserted).2

abbrev removed : ObjectEnv
removed = remove_object (some (codes "svc")) got

abbrev holders : ℕ → ℕ
holders = held_after (get_object (some (codes "svc")) inserted).1 nobody

Steps-IsCounted_example : IsCounted holders removed
Steps-IsCounted_example =
    Steps-IsCounted nobody holders fresh removed
      (inserts 0 refl (gets (some (codes "svc")) (removes (some (codes "svc")) Steps.stop)))
      fresh-IsCounted

-- ===== src/Adv/Env.antt =====
-- cppboot/adv/object.h and env.cc. A pointer to an object is a number, none is the null pointer,
-- and the objects in memory are a function of it. A count is a number without a bound, where the
-- code has an atomic long.
pub mod Laws
use altas.Prelude.{
  ℕ, ◌+◌, ◌-◌, ◌≡◌, Bool, true, false, List, [], ◌∷◌, Option, none, some, Bytes, codes, is_empty,
  if◌then◌else◌, ◌==◌, change,
}
use altas.OrdMap.{OrdMap, find, insert, erase}
use altas.Status.{Status, ok_status, invalid_argument_error, already_exists_error, not_found_error}

-- A C string; none is the null pointer.
abbrev pub Name : Type 0
Name = Option Bytes

-- `alive` is false once the object was deleted.
pub record Object : Type 0 where
  pub object_id : Name
  pub nref : ℕ
  pub alive : Bool

pub record ObjectEnv : Type 0 where
  pub objs : OrdMap ℕ
  pub heap : ℕ → Object

unfoldable pub add_ref_manually : Object → Object
add_ref_manually o = record o { nref = o.nref + 1 }

-- A count of 0 would go below it; here it stays.
unfoldable pub release : Object → Object
release o =
    if o.nref == 1 then record o { nref = 0; alive = false } else record o { nref = o.nref - 1 }

-- The name of a member that is to be looked up: none if it is null or empty.
abbrev pub given : Name → Option Bytes
given none = none
given (some []) = none
given (some (c ∷ cs)) = some (c ∷ cs)

insert_named : ℕ → Option Bytes → ObjectEnv → Status × ObjectEnv
insert_named p none env = (invalid_argument_error (codes "no name"), env)
insert_named p (some name) env = elim (find name env.objs) [
  | some q ↦ (already_exists_error name, env)
  | none ↦ (
    ok_status,
    record { objs = insert name p env.objs; heap = change p add_ref_manually env.heap },
  )
]

unfoldable pub insert_object : Option ℕ → ObjectEnv → Status × ObjectEnv
unfolding insert_named
insert_object none env = (invalid_argument_error (codes "no service"), env)
insert_object (some p) env = insert_named p (given (env.heap p).object_id) env

remove_found : Bytes → Option ℕ → ObjectEnv → ObjectEnv
remove_found name none env = env
remove_found name (some p) env = record {
  objs = erase name env.objs;
  heap = change p release env.heap;
}

remove_named : Option Bytes → ObjectEnv → ObjectEnv
unfolding remove_found
remove_named none env = env
remove_named (some name) env = remove_found name (find name env.objs) env

unfoldable pub remove_object : Name → ObjectEnv → ObjectEnv
unfolding remove_named
remove_object name env = remove_named (given name) env

get_found : Bytes → Option ℕ → ObjectEnv → Status × Option ℕ × ObjectEnv
get_found name none env = (not_found_error name, none, env)
get_found name (some p) env =
    (ok_status, some p, record env { heap = change p add_ref_manually env.heap })

get_named : Option Bytes → ObjectEnv → Status × Option ℕ × ObjectEnv
unfolding get_found
get_named none env = (invalid_argument_error (codes "no name"), none, env)
get_named (some name) env = get_found name (find name env.objs) env

-- The status, what is written to the receiver, and the environment. The receiver is no null
-- pointer.
unfoldable pub get_object : Name → ObjectEnv → Status × Option ℕ × ObjectEnv
unfolding get_named
get_object name env = get_named (given name) env

-- `Release` by one that holds the object.
unfoldable pub release_object : ℕ → ObjectEnv → ObjectEnv
release_object p env = record env { heap = change p release env.heap }

-- `StringEnv`
abbrev pub or_blank : Option Bytes → Bytes
or_blank none = []
or_blank (some v) = v

unfoldable pub insert_string : Name → Option Bytes → OrdMap Bytes → OrdMap Bytes
insert_string key value ss = elim (given key) [ none ↦ ss | some k ↦ insert k (or_blank value) ss ]

unfoldable pub remove_string : Name → OrdMap Bytes → OrdMap Bytes
remove_string key ss = elim (given key) [ none ↦ ss | some k ↦ erase k ss ]

unfoldable pub get_string : Name → OrdMap Bytes → Bytes
get_string key ss = elim (given key) [ none ↦ [] | some k ↦ or_blank (find k ss) ]

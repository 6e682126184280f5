-- ===== src/Adv/PluginManager.antt =====
-- cppboot/adv/plugin_manager.cc and plugin.h. A pointer to a plugin is a number, and the plugins in
-- memory are a function of it; the pointers from `next` on are free. What the loader answers, and
-- the functions in the header of a plugin, are arguments. An init function that calls the manager
-- again is left out.
pub mod Links
pub mod Invariant
pub mod Start
pub mod Laws
pub mod Failure
use altas.Prelude.{
  ℕ, ◌+◌, ◌≡◌, Bool, true, false, not, List, [], ◌∷◌, ◌++◌, Option, none, some, Bytes, codes,
  is_empty, if◌then◌else◌, ◌==◌, change, has, set_insert, set_erase,
}
use altas.OrdMap.{OrdMap, find, insert, erase}
use altas.Status.{
  Status, ok, ok_status, invalid_argument_error, already_exists_error, not_found_error,
  cancelled_error,
}
use altas.StrUtil.{str_split, str_trim, str_trim_left}
use altas.Adv.Env.{Name, given, or_blank}

-- A function pointer is none if it is null. `init` gives the error number.
pub record CppbootPlugin : Type 0 where
  pub name : Name
  pub depends : Name
  pub init : Option (Bytes → ℕ)
  pub has_exit : Bool

pub record Plugin : Type 0 where
  pub hdr : Option CppbootPlugin
  pub param : Bytes
  pub sources : List ℕ  -- the plugins that depend on this one
  pub targets : List ℕ  -- those that this one depends on

-- What the manager calls outside of it.
pub data Call : Type 0 where
  inits : (param : Bytes) → Call
  exits : (p : ℕ) → Call
  unloads : (name : Bytes) → Call

-- The newest call stands first.
pub record PluginManager : Type 0 where
  pub mods : OrdMap ℕ
  pub heap : ℕ → Plugin
  pub next : ℕ
  pub calls : List Call

unfoldable pub verify_plugin_header : Option CppbootPlugin → Status
verify_plugin_header none = invalid_argument_error (codes "no plugin")
verify_plugin_header (some hdr) = elim (given hdr.name) [
  | none ↦ invalid_argument_error (codes "no name")
  | some name ↦ elim hdr.init [
    | none ↦ invalid_argument_error (codes "no init func")
    | some f ↦ if hdr.has_exit then ok_status else invalid_argument_error (codes "no exit func")
  ]
]

unfoldable pub add_source : ℕ → Plugin → Plugin
add_source a p = record p { sources = set_insert a p.sources }

unfoldable pub add_target : ℕ → Plugin → Plugin
add_target b p = record p { targets = set_insert b p.targets }

unfoldable pub erase_source : ℕ → Plugin → Plugin
erase_source a p = record p { sources = set_erase a p.sources }

unfoldable pub addplugin_usage : ℕ → ℕ → (ℕ → Plugin) → ℕ → Plugin
addplugin_usage a b heap = change a (add_target b) (change b (add_source a) heap)

-- The loop over the pieces of the list. `name.data()` runs to the end of the piece.
unfoldable pub depend_loop : ℕ → OrdMap ℕ → List Bytes → (ℕ → Plugin) → Status × (ℕ → Plugin)
depend_loop me mods [] heap = (ok_status, heap)
depend_loop me mods (i ∷ pieces) heap =
    let name = str_trim i (codes " ") in
    let skipped = depend_loop me mods pieces heap in
    if is_empty name then skipped else elim (find name mods) [
      | none ↦ (not_found_error (codes "depend on " ++ str_trim_left i (codes " ")), heap)
      | some it ↦ depend_loop me mods pieces (addplugin_usage me it heap)
    ]

-- The split always ends.
abbrev pub pieces_of : Option (List Bytes) → List Bytes
pieces_of none = []
pieces_of (some pieces) = pieces

unfoldable pub require_list : Bytes → List Bytes
require_list depends = pieces_of (str_split depends b',')

unfoldable pub verify_dependence : ℕ → Name → OrdMap ℕ → (ℕ → Plugin) → Status × (ℕ → Plugin)
verify_dependence me none mods heap = (ok_status, heap)
verify_dependence me (some depends) mods heap = depend_loop me mods (require_list depends) heap

call_init : Option (Bytes → ℕ) → Bytes → PluginManager → Status × PluginManager
call_init none param m = (ok_status, m)
call_init (some f) param m = (
  if f param == 0 then ok_status else invalid_argument_error (codes "init retrn error"),
  record m { calls = inits param ∷ m.calls },
)

-- The header is one that was verified.
init_verified : ℕ → Option CppbootPlugin → Bytes → PluginManager → Status × PluginManager
unfolding call_init
init_verified me none param m = (ok_status, m)
init_verified me (some hdr) param m =
    let (st, heap) = verify_dependence me hdr.depends m.mods m.heap in
    if ok st
    then call_init hdr.init param (record m { heap = heap })
    else (st, record m { heap = heap })

unfoldable pub init_pulgin :
    ℕ → Option CppbootPlugin → Bytes → PluginManager → Status × PluginManager
unfolding init_verified
init_pulgin me hdr param m =
    if ok (verify_plugin_header hdr)
    then init_verified me hdr param m
    else (verify_plugin_header hdr, m)

header_name : Option CppbootPlugin → Bytes
header_name none = []
header_name (some hdr) = or_blank hdr.name

register : ℕ → Option CppbootPlugin → Bytes → PluginManager → PluginManager
unfolding header_name
register me hdr param m = record m {
  mods = insert (header_name hdr) me m.mods;
  heap = change me (λ p. record p { param = param }) m.heap;
}

-- What follows a load by the loader that gave the header.
load_header : Bytes → Option CppbootPlugin → Bytes → PluginManager → Status × PluginManager
unfolding register
load_header name hdr param m =
    let me = m.next in
    let fresh : PluginManager = record m {
      heap = change me (λ p. record { hdr = hdr; param = []; sources = []; targets = [] }) m.heap;
      next = me + 1;
    } in
    let (st, done) = init_pulgin me hdr param fresh in
    if ok st
    then (ok_status, register me hdr param done)
    else (st, record done { calls = unloads name ∷ done.calls })

load_named :
    Option Bytes
    → Option Bytes
    → Status × Option CppbootPlugin
    → PluginManager
    → Status × PluginManager
unfolding load_header
load_named none param answer m = (invalid_argument_error (codes "no plugin name"), m)
load_named (some name) param (st, hdr) m = elim (find name m.mods) [
  | some p ↦ (already_exists_error name, m)
  | none ↦ if ok st then load_header name hdr (or_blank param) m else (st, m)
]

-- `answer` is what the loader returns and writes for this name.
unfoldable pub load :
    Name → Option Bytes → Status × Option CppbootPlugin → PluginManager → Status × PluginManager
unfolding load_named
load name param answer m = load_named (given name) param answer m

-- `target->sources.erase(me)` for each target.
unfoldable pub leave_targets : ℕ → List ℕ → (ℕ → Plugin) → ℕ → Plugin
leave_targets me [] heap = heap
leave_targets me (target ∷ targets) heap =
    leave_targets me targets (change target (erase_source me) heap)

unload_found : Bytes → ℕ → PluginManager → Status × PluginManager
unfolding header_name
unload_found name me m =
    if not (is_empty (m.heap me).sources)
    then (cancelled_error (codes "has depend on by others"), m)
    else (
      ok_status,
      record m {
        mods = erase name m.mods;
        heap = leave_targets me (m.heap me).targets m.heap;
        calls = unloads (header_name (m.heap me).hdr) ∷ exits me ∷ m.calls;
      },
    )

unload_named : Option Bytes → PluginManager → Status × PluginManager
unfolding unload_found
unload_named none m = (invalid_argument_error (codes "empty plugin name"), m)
unload_named (some name) m = elim (find name m.mods) [
  | none ↦ (not_found_error name, m)
  | some me ↦ unload_found name me m
]

unfoldable pub unload : Name → PluginManager → Status × PluginManager
unfolding unload_named
unload name m = unload_named (given name) m

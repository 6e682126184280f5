-- ===== src/Adv/PluginManager/Start.antt =====
-- Starting a plugin: what its check and its init function leave.
use altas.Prelude.{
  ℕ, ◌≡◌, ◌≢◌, ◌<◌, refl, inl, inr, true, Option, none, some, Bytes, Bool-cases, has, All,
}
use altas.OrdMap.{OrdMap, find}
use altas.Status.{ok, invalid_argument_error, new_status}
use altas.Adv.Env.{Name}
use altas.Adv.PluginManager.{
  CppbootPlugin, PluginManager, require_list, verify_plugin_header, verify_dependence, call_init,
  init_verified, init_pulgin,
}
use altas.Adv.PluginManager.Links.{
  Heap, Grows, Grows-refl, Holds, depend-Grows, depend-Holds, depend_old,
}
use altas.Adv.PluginManager.Invariant.{needs, IsTable}

abbrev pub IsManager : PluginManager → Type 0
IsManager m = IsTable m.mods m.heap m.next

pub verify-Grows :
    (me : ℕ) (depends : Name) (mods : OrdMap ℕ) (h : Heap)
    → Grows me h (verify_dependence me depends mods h).1
unfolding verify_dependence
verify-Grows me none mods h = Grows-refl me h
verify-Grows me (some d) mods h = depend-Grows me mods (require_list d) h

pub verify-Holds :
    (me : ℕ) (depends : Name) (mods : OrdMap ℕ) (h : Heap)
    → ok (verify_dependence me depends mods h).0 ≡ true
    → All (Holds mods (verify_dependence me depends mods h).1 me) (needs depends)
unfolding verify_dependence
verify-Holds me none mods h o = tt
verify-Holds me (some d) mods h o = depend-Holds me mods (require_list d) h o

pub verify_old :
    (me n : ℕ) (depends : Name) (mods : OrdMap ℕ) (h : Heap)
    → ((k : Bytes) (p : ℕ) → find k mods ≡ some p → p < n)
    → ((q : ℕ) → has q (h me).targets ≡ true → q < n)
    → (q : ℕ) → has q ((verify_dependence me depends mods h).1 me).targets ≡ true
    → q < n
unfolding verify_dependence
verify_old me n none mods h o b = b
verify_old me n (some d) mods h o b = depend_old me mods n (require_list d) h o b

-- The table and the free pointers stay, the links of the new plugin grow.
abbrev pub IsInited : ℕ → PluginManager → PluginManager → Type 0
IsInited me m done = (done.mods ≡ m.mods) × (done.next ≡ m.next) × Grows me m.heap done.heap

call_init-IsInited :
    (me : ℕ) (f : Option (Bytes → ℕ)) (param : Bytes) (m n : PluginManager)
    → IsInited me m n
    → IsInited me m (call_init f param n).1
unfolding call_init
call_init-IsInited me none param m n i = i
call_init-IsInited me (some f) param m n i = i

init_verified-IsInited :
    (me : ℕ) (hdr : Option CppbootPlugin) (param : Bytes) (m : PluginManager)
    → IsInited me m (init_verified me hdr param m).1
unfolding init_verified
init_verified-IsInited me none param m = (refl, refl, Grows-refl me m.heap)
init_verified-IsInited me (some hdr) param m =
    let g = verify-Grows me hdr.depends m.mods m.heap in
    let h = (verify_dependence me hdr.depends m.mods m.heap).1 in
    elim (Bool-cases (ok (verify_dependence me hdr.depends m.mods m.heap).0)) [
      | inl e ↦
          rw e (call_init-IsInited me hdr.init param m (record m { heap = h }) (refl, refl, g))
      | inr e ↦ rw e (refl, refl, g)
    ]

pub init_pulgin-IsInited :
    (me : ℕ) (hdr : Option CppbootPlugin) (param : Bytes) (m : PluginManager)
    → IsInited me m (init_pulgin me hdr param m).1
unfolding init_pulgin
init_pulgin-IsInited me hdr param m = elim (Bool-cases (ok (verify_plugin_header hdr))) [
  | inl e ↦ rw e (init_verified-IsInited me hdr param m)
  | inr e ↦ rw e (refl, refl, Grows-refl me m.heap)
]

-- The heap after a success is the one that the check of the dependencies left.
call_init_heap :
    (f : Option (Bytes → ℕ)) (param : Bytes) (m : PluginManager)
    → (call_init f param m).1.heap ≡ m.heap
unfolding call_init
call_init_heap none param m = refl
call_init_heap (some f) param m = refl

pub init_heap :
    (me : ℕ) (x : CppbootPlugin) (param : Bytes) (m : PluginManager)
    → ok (init_pulgin me (some x) param m).0 ≡ true
    → (ok (verify_dependence me x.depends m.mods m.heap).0 ≡ true)
      × ((init_pulgin me (some x) param m).1.heap
          ≡ (verify_dependence me x.depends m.mods m.heap).1)
unfolding init_pulgin init_verified
init_heap me x param m = elim (Bool-cases (ok (verify_plugin_header (some x)))) [
  | inl e ↦ elim (Bool-cases (ok (verify_dependence me x.depends m.mods m.heap).0)) [
    | inl f ↦ rw (e, f) (λ o. (refl, call_init_heap x.init param _))
    | inr f ↦ rw (e, f) (λ o. absurd cc)
  ]
  | inr e ↦ rw (e, e) (λ o. absurd cc)
]

pub no_header :
    (me : ℕ) (param : Bytes) (m : PluginManager) → ok (init_pulgin me none param m).0 ≢ true
unfolding init_pulgin verify_plugin_header ok invalid_argument_error new_status
no_header me param m e = absurd cc

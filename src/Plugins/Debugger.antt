-- ===== src/Plugins/Debugger.antt =====
-- cppboot/plugins/debugger: the commands that are registered. A handler is a function of the command
-- and its arguments over the state `S` of those who handle; none is a null pointer.
use altas.Prelude.{
  Bool, true, false, sym, ◌≡◌, ◌∙◌, refl, ap, Option, none, some, Bytes, codes, is_empty,
  if◌then◌else◌, bytes_eq, [], ◌∷◌,
}
use altas.OrdMap.{OrdMap, find, insert, erase}
use altas.OrdMap.Laws.{find-insert, find-erase}
use altas.Status.{Status, ok_status, invalid_argument_error, not_found_error}
use altas.Adv.Env.{Name, given}

abbrev pub DebugHandler : Type 0 → Type 0
DebugHandler S = Bytes → Bytes → S → Status × S

abbrev pub Debugger : Type 0 → Type 0
Debugger S = OrdMap (DebugHandler S)

module _ {S : Type 0} where
  register_named : Option Bytes → Option (DebugHandler S) → Debugger S → Status × Debugger S
  register_named none handler cmds = (invalid_argument_error (codes "no command"), cmds)
  register_named (some command) none cmds = (invalid_argument_error (codes "no handler"), cmds)
  register_named (some command) (some handler) cmds = (ok_status, insert command handler cmds)

  unfoldable pub register : Name → Option (DebugHandler S) → Debugger S → Status × Debugger S
  unfolding register_named
  register command handler cmds = register_named (given command) handler cmds

  unregister_named : Option Bytes → Debugger S → Debugger S
  unregister_named none cmds = cmds
  unregister_named (some command) cmds = erase command cmds

  unfoldable pub unregister : Name → Debugger S → Debugger S
  unfolding unregister_named
  unregister command cmds = unregister_named (given command) cmds

  unfoldable pub on_request : Bytes → Bytes → Debugger S → S → Status × S
  on_request command args cmds s = elim (find command cmds) [
    | none ↦ (not_found_error command, s)
    | some handler ↦ handler command args s
  ]

  found : Bytes → Bytes → S → Option (DebugHandler S) → Status × S
  found command args s none = (not_found_error command, s)
  found command args s (some handler) = handler command args s

  on_request-found :
      (command args : Bytes) (cmds : Debugger S) (s : S)
      → on_request command args cmds s ≡ found command args s (find command cmds)
  unfolding on_request found
  on_request-found command args cmds s =
      elim (find command cmds)
        as (λ o.
          elim o [ none ↦ (not_found_error command, s) | some handler ↦ handler command args s ]
          ≡ found command args s o) [ none ↦ refl | some h ↦ refl ]

  found-if :
      (command args : Bytes) (s : S) (b : Bool) (o o' : Option (DebugHandler S))
      → found command args s (if b then o else o')
        ≡ (if b then found command args s o else found command args s o')
  found-if command args s true o o' = refl
  found-if command args s false o o' = refl

  -- A request after a registration goes to the new handler of its command, and after the removal of
  -- a command there is none for it; requests for other commands are answered as before.
  on_request-register :
      (name other args : Bytes) (handler : DebugHandler S) (cmds : Debugger S) (s : S)
      → is_empty name ≡ false
      → (on_request other args (register (some name) (some handler) cmds).1 s
          ≡ (if bytes_eq name other then handler other args s else on_request other args cmds s))
        × (on_request other args (unregister (some name) cmds) s ≡ (
            if bytes_eq name other
            then (not_found_error other, s)
            else on_request other args cmds s))
  unfolding register unregister found
  on_request-register [] other args handler cmds s e = absurd cc
  on_request-register (c ∷ cs) other args handler cmds s e =
      let name = c ∷ cs in
      let now = on_request-found other args cmds s in
      (
        on_request-found other args (insert name handler cmds) s
            ∙ ap (found other args s) (find-insert name other handler cmds)
            ∙ found-if other args s (bytes_eq name other) (some handler) (find other cmds)
            ∙ ap (λ z. if bytes_eq name other then handler other args s else z) (sym now),
        on_request-found other args (erase name cmds) s
            ∙ ap (found other args s) (find-erase name other cmds)
            ∙ found-if other args s (bytes_eq name other) none (find other cmds)
            ∙ ap (λ z. if bytes_eq name other then (not_found_error other, s) else z) (sym now),
      )

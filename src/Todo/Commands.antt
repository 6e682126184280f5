-- ===== src/Todo/Commands.antt =====
-- The commands as those of a map from identities to texts.
use mathlib.Core.Path.{fun_ext}
use altas.Prelude.{
  ℕ, ◌+◌, ◌≡◌, ◌≤◌, ◌<◌, refl, sym, ap, ◌∙◌, subst, inl, inr, true, false, Bool-cases, Option-cases,
  List, [], ◌∷◌, ◌++◌, Option, none, some, Bytes, codes, is_empty, length, if◌then◌else◌, ◌==◌,
  arith,
}
use altas.Status.{Status, ok, ok_status, invalid_argument_error, not_found_error}
use altas.Todo.{
  Item, ItemList, Repository, Data, int_max, find, show, erase, change_text, save, add, delete,
  update,
}
use altas.Todo.Laws.{
  text_of, IsList, fresh, IsData, get_next_id_lem, put, replaced, text_of-append,
  text_of-change_text, text_of-erase, IsList-append, IsList-change_text, IsList-erase,
}

pub data Op : Type 0 where
  adds : (now : ℕ) (text : Bytes) → Op
  deletes : (id : ℕ) → Op
  updates : (id : ℕ) (text : Bytes) → Op
  shows : (id : ℕ) → Op

-- The status, the new identity, and the text that is shown.
abbrev pub Answer : Type 0
Answer = Status × Option ℕ × Option Bytes

module _ {F : Type 0} (repository : Option (Repository F)) where
  abbrev pub step : Op → Data → F → Answer × Data × F
  step (adds now text) d fs =
      let (st, id, d1, after) = add repository now text d fs in ((st, id, none), d1, after)
  step (deletes id) d fs =
      let (st, d1, after) = delete repository id d fs in ((st, none, none), d1, after)
  step (updates id text) d fs =
      let (st, d1, after) = update repository id text d fs in ((st, none, none), d1, after)
  step (shows id) d fs =
      ((ok_status, none, elim (show id d) [ none ↦ none | some i ↦ some i.text ]), d, fs)

  abbrev pub run : List Op → Data → F → List Answer
  run [] d fs = []
  run (op ∷ ops) d fs = let (a, d1, after) = step op d fs in a ∷ run ops d1 after

-- What the commands do to a map from identities to texts, where `n` is the next identity.
abbrev pub found : Option Bytes → Status
found none = not_found_error (codes "not found")
found (some text) = ok_status

abbrev pub map_step : Op → ℕ → (ℕ → Option Bytes) → Answer × ℕ × (ℕ → Option Bytes)
map_step (adds now text) n m =
    if is_empty text
    then ((invalid_argument_error (codes "empty item"), none, none), n, m)
    else ((ok_status, some n, none), n + 1, put n (some text) m)
map_step (deletes id) n m = ((found (m id), none, none), n, put id none m)
map_step (updates id text) n m =
    if is_empty text
    then ((invalid_argument_error (codes "empty item"), none, none), n, m)
    else ((found (m id), none, none), n, put id (replaced text (m id)) m)
map_step (shows id) n m = ((ok_status, none, m id), n, m)

abbrev pub map_run : List Op → ℕ → (ℕ → Option Bytes) → List Answer
map_run [] n m = []
map_run (op ∷ ops) n m = let (a, n1, m1) = map_step op n m in a ∷ map_run ops n1 m1

abbrev pub view : Data → ℕ → Option Bytes
view d id = text_of id d.items

record Simulates {F : Type 0} (op : Op) (d : Data) (r : Answer × Data × F) : Type 0 where
  answer : r.0 ≡ (map_step op (fresh d) (view d)).0
  next : fresh r.1 ≡ (map_step op (fresh d) (view d)).1
  same : view r.1 ≡ (map_step op (fresh d) (view d)).2
  kept : IsData r.1
  bound : fresh r.1 ≤ fresh d + 1

abbrev with_items : Data → ItemList → Data
with_items d items = record d { items = items }

abbrev added : ℕ → Bytes → Data → Data
added now text d = record d {
  next_id = fresh d + 1;
  items = d.items ++ (record { id = fresh d; text = text; update_at = now }) ∷ [];
}

module _ {F : Type 0} (repository : Option (Repository F))
    (saves : (items : ItemList) (fs : F) → ok (save repository items fs).0 ≡ true) where
  add_empty :
      (now : ℕ) (text : Bytes) (d : Data) (fs : F)
      → is_empty text ≡ true
      → add repository now text d fs ≡ (invalid_argument_error (codes "empty item"), none, d, fs)
  unfolding add
  add_empty now text d fs e = rw e refl

  pub add_more :
      (now : ℕ) (text : Bytes) (d : Data) (fs : F)
      → fresh d < int_max
      → is_empty text ≡ false
      → add repository now text d fs ≡ (
        ok_status,
        some (fresh d),
        added now text d,
        (save repository (added now text d).items fs).1,
      )
  unfolding add
  add_more now text d fs h e = rw (get_next_id_lem d h, e, saves (added now text d).items fs) refl

  module _ (d : Data) (fs : F) (h : IsData d) (room : fresh d < int_max) where
    fresh_pos : 0 < fresh d
    fresh_pos = ground arith

    Simulates-adds :
        (now : ℕ) (text : Bytes)
        → Simulates (adds now text) d (step repository (adds now text) d fs)
    Simulates-adds now text = elim (Bool-cases (is_empty text)) [
      | inl e ↦
          subst
            (λ (p : Status × Option ℕ × Data × F).
              Simulates (adds now text) d ((p.0, p.1, none), p.2, p.3))
            (sym (add_empty now text d fs e))
            (record {
              answer = rw e refl;
              next = rw e refl;
              same = rw e refl;
              kept = h;
              bound = omega arith;
            })
      | inr e ↦
          let f : fresh (added now text d) ≡ fresh d + 1 = ground arith in
          subst
            (λ (p : Status × Option ℕ × Data × F).
              Simulates (adds now text) d ((p.0, p.1, none), p.2, p.3))
            (sym (add_more now text d fs room e))
            (record {
              answer = rw e refl;
              next = rw e f;
              same = rw e (fun_ext λ j. text_of-append (fresh d) d.items _ j h refl);
              kept =
                  subst (λ z. IsList z (added now text d).items) (sym f)
                    (IsList-append (fresh d) d.items _ fresh_pos h refl);
              bound = omega (arith, f);
            })
    ]

    unseen : (id : ℕ) → find id d.items ≡ none → view d id ≡ none
    unseen id e = rw (e, text_of) refl

    seen : (id : ℕ) (i : Item) → find id d.items ≡ some i → view d id ≡ some i.text
    seen id i e = rw (e, text_of) refl

    found-none :
        (id : ℕ) → find id d.items ≡ none → found (view d id) ≡ not_found_error (codes "not found")
    found-none id e = ap found (unseen id e)

    found-some : (id : ℕ) (i : Item) → find id d.items ≡ some i → found (view d id) ≡ ok_status
    found-some id i e = ap found (seen id i e)

    -- Nothing is at `id`, so nothing changes there.
    put-none :
        (id : ℕ) (o : Option Bytes) → find id d.items ≡ none → o ≡ none → view d ≡ put id o (view d)
    put-none id o e f = fun_ext λ j. elim (Bool-cases (id == j)) [
      | inl s ↦
          let same : id ≡ j = ground arith in
          rw s (ap (λ k. text_of k d.items) (sym same) ∙ unseen id e ∙ sym f)
      | inr s ↦ rw s refl
    ]

    Simulates-deletes : (id : ℕ) → Simulates (deletes id) d (step repository (deletes id) d fs)
    unfolding delete
    Simulates-deletes id = elim (Option-cases (find id d.items)) [
      | inl e ↦
          subst (λ (p : Status × Data × F). Simulates (deletes id) d ((p.0, none, none), p.1, p.2))
            (sym (
              let g : delete repository id d fs ≡ (not_found_error (codes "not found"), d, fs) =
                rw (e, delete) refl in
              g))
            (record {
              answer = ap (λ z. (z, none, none)) (sym (found-none id e));
              next = refl;
              same = put-none id none e refl;
              kept = h;
              bound = omega arith;
            })
      | inr (i, e) ↦
          let d1 = with_items d (erase id d.items) in
          subst (λ (p : Status × Data × F). Simulates (deletes id) d ((p.0, none, none), p.1, p.2))
            (sym (
              let g : delete repository id d fs ≡ (ok_status, d1, (save repository d1.items fs).1) =
                rw (e, delete) refl in
              g))
            (record {
              answer = ap (λ z. (z, none, none)) (sym (found-some id i e));
              next = refl;
              same = fun_ext λ j. text_of-erase (fresh d) id d.items j h;
              kept = IsList-erase (fresh d) id d.items h;
              bound = omega arith;
            })
    ]

    update-none :
        (id : ℕ) (text : Bytes)
        → is_empty text ≡ false
        → find id d.items ≡ none
        → update repository id text d fs ≡ (not_found_error (codes "not found"), d, fs)
    unfolding update
    update-none id text f e = rw (f, e, update) refl

    update-some :
        (id : ℕ) (text : Bytes) (i : Item)
        → is_empty text ≡ false
        → find id d.items ≡ some i
        → let d1 = with_items d (change_text id text d.items) in
          update repository id text d fs ≡ (ok_status, d1, (save repository d1.items fs).1)
    unfolding update
    update-some id text i f e = rw (f, e, update) refl

    update_empty :
        (id : ℕ) (text : Bytes)
        → is_empty text ≡ true
        → update repository id text d fs ≡ (invalid_argument_error (codes "empty item"), d, fs)
    unfolding update
    update_empty id text f = rw f refl

    Simulates-updates :
        (id : ℕ) (text : Bytes)
        → Simulates (updates id text) d (step repository (updates id text) d fs)
    Simulates-updates id text = elim (Bool-cases (is_empty text)) [
      | inl f ↦
          subst
            (λ (p : Status × Data × F). Simulates (updates id text) d ((p.0, none, none), p.1, p.2))
            (sym (update_empty id text f))
            (record {
              answer = rw f refl;
              next = rw f refl;
              same = rw f refl;
              kept = h;
              bound = omega arith;
            })
      | inr f ↦ elim (Option-cases (find id d.items)) [
        | inl e ↦
            subst
              (λ (p : Status × Data × F).
                Simulates (updates id text) d ((p.0, none, none), p.1, p.2))
              (sym (update-none id text f e))
              (record {
                answer = rw f (ap (λ z. (z, none, none)) (sym (found-none id e)));
                next = rw f refl;
                same =
                    rw f (
                      put-none id (replaced text (view d id)) e (ap (replaced text) (unseen id e)));
                kept = h;
                bound = omega arith;
              })
        | inr (i, e) ↦
            subst
              (λ (p : Status × Data × F).
                Simulates (updates id text) d ((p.0, none, none), p.1, p.2))
              (sym (update-some id text i f e))
              (record {
                answer = rw f (ap (λ z. (z, none, none)) (sym (found-some id i e)));
                next = rw f refl;
                same = rw f (fun_ext λ j. text_of-change_text id text d.items j);
                kept = IsList-change_text (fresh d) id text d.items h;
                bound = omega arith;
              })
      ]
    ]

    Simulates-step : (op : Op) → Simulates op d (step repository op d fs)
    unfolding show
    Simulates-step (adds now text) = Simulates-adds now text
    Simulates-step (deletes id) = Simulates-deletes id
    Simulates-step (updates id text) = Simulates-updates id text
    Simulates-step (shows id) = record {
      answer = refl;
      next = refl;
      same = refl;
      kept = h;
      bound = omega arith;
    }

  -- Any sequence of commands gives the answers that a map from identities to texts gives, in which
  -- each new text goes to the next identity: with items of different identities below the next one,
  -- identities left for all commands, and a repository whose saving answers ok.
  pub run-map_run :
      (ops : List Op) (d : Data) (fs : F)
      → IsData d
      → fresh d + length ops ≤ int_max
      → run repository ops d fs ≡ map_run ops (fresh d) (view d)
  run-map_run [] d fs h room = refl
  run-map_run (op ∷ ops) d fs h room =
      let s = Simulates-step d fs h (omega arith) op in
      let r = step repository op d fs in
      let rest = run-map_run ops r.1 r.2 s.kept (omega (arith, s.bound)) in
      let m = map_step op (fresh d) (view d) in
      ap (λ z. z ∷ run repository ops r.1 r.2) s.answer
      ∙ ap (◌∷◌ m.0)
          (rest ∙ ap (λ n. map_run ops n (view r.1)) s.next ∙ ap (map_run ops m.1) s.same)

-- ===== src/Tests/Todo.antt =====
-- The items and their page: examples/todo and cppboot/net/html.
use altas.Prelude.{
  ℕ, ◌≡◌, ◌≤◌, refl, true, List, [], ◌∷◌, ◌++◌, Option, none, some, Bytes, codes, arith,
}
use altas.Status.{ok, ok_status}
use altas.Html.{element, plain, cons, nil, Document, dump_document}
use altas.Html.Tags.{tags, next, outside}
use altas.Html.Spec.{tags_of}
use altas.Html.Laws.{dump_document_lem, IsText-IsMarkup}
use altas.Todo.{
  ItemList, Repository, Data, new_data, Saved, entries_of, pushed, find, save, set_repository,
}
use altas.Todo.Laws.{text_of, fresh, IsData}
use altas.Todo.Commands.{view, Op, adds, deletes, updates, shows, run, map_run, run-map_run}
use altas.Todo.Restart.{saved, repository, set_repository-save}
use altas.Todo.Page.{page, list_items}
use altas.Todo.Page.Laws.{item_tags, command_tags, closed, body_tags, dump_document-page}

abbrev hello : Document
hello = record {
  title = codes "T";
  body = element plain (codes "body") [] [] (
      cons (element plain (codes "p") [] (codes "hi") nil)
        (cons (element plain (codes "hr") [] [] nil) nil));
}

dump_document_lem_example :
    tags outside (dump_document hello)
    ≡ (codes "!DOCTYPE"
        ∷ codes "html"
        ∷ codes "head"
        ∷ codes "meta"
        ∷ codes "style"
        ∷ codes "/style"
        ∷ codes "title"
        ∷ codes "/title"
        ∷ codes "/head"
        ∷ [])
      ++ (tags_of hello.body ++ codes "/html" ∷ [])
dump_document_lem_example = dump_document_lem hello (omega arith) (
  tt,
  omega arith,
  tt,
  IsText-IsMarkup [] tt,
  (
    (tt, omega arith, tt, IsText-IsMarkup (codes "hi") (omega arith), tt),
    ((tt, omega arith, tt, IsText-IsMarkup [] tt, tt), tt),
  ),
)

abbrev commands : List Op
commands =
    adds 7 (codes "a") ∷ adds 8 [] ∷ updates 1 (codes "b") ∷ shows 1 ∷ deletes 1 ∷ deletes 1 ∷ []

abbrev no_repository : Option (Repository ℕ)
no_repository = none

always_saved : (items : ItemList) (fs : ℕ) → ok (save no_repository items fs).0 ≡ true
unfolding save ok ok_status
always_saved items fs = refl

run-map_run_example :
    run no_repository commands new_data 0 ≡ map_run commands (fresh new_data) (view new_data)
unfolding new_data
run-map_run_example = run-map_run no_repository always_saved commands new_data 0 tt (omega arith)

abbrev listed_page : ItemList
listed_page = (record { id = 1; text = codes "<script>"; update_at = 5 }) ∷ []

dump_document-page_example :
    tags outside (dump_document (page (codes "add") (list_items listed_page)))
    ≡ (codes "!DOCTYPE"
        ∷ codes "html"
        ∷ codes "head"
        ∷ codes "meta"
        ∷ codes "style"
        ∷ codes "/style"
        ∷ codes "title"
        ∷ codes "/title"
        ∷ codes "/head"
        ∷ [])
      ++ (body_tags
            (command_tags (codes "add"))
            (closed (list_items listed_page) (item_tags listed_page))
          ++ codes "/html" ∷ [])
unfolding tags next
dump_document-page_example =
    dump_document-page (codes "add") listed_page (omega arith) (record { on = λ rest. refl }, tt)

-- One file, which is the state of the files, and a library that knows one document.
abbrev write_it : Bytes → Bytes → Bytes → Option Bytes
write_it filename content fs = some content

abbrev read_it : Bytes → Bytes → Option Bytes
read_it filename fs = some fs

abbrev dump_it : Saved → Bytes
dump_it s = codes "saved"

abbrev parse_it : Bytes → Option (Option (List (ℕ × Bytes)))
parse_it text = some (some ((2, codes "x") ∷ (4, codes "y") ∷ []))

abbrev no_time : ℕ → Bytes
no_time t = []

abbrev two_items : ItemList
two_items =
    (record { id = 2; text = codes "x"; update_at = 5 })
    ∷ (record { id = 4; text = codes "y"; update_at = 6 })
    ∷ []

stores_it :
    (content fs : Bytes)
    → (after : Bytes) × (write_it (codes "f") content fs ≡ some after)
      × (read_it (codes "f") after ≡ some content)
stores_it content fs = (content, refl, refl)

abbrev next_process : Option (Repository Bytes)
next_process = some (repository read_it write_it dump_it parse_it no_time (codes "f") stores_it 9)

abbrev left_behind : Bytes
left_behind = saved read_it write_it dump_it parse_it no_time (codes "f") stores_it 7 two_items []

set_repository-save_example :
    (d : Data) × (set_repository next_process new_data left_behind ≡ some d)
    × ((j : ℕ) → view d j ≡ text_of j two_items)
    × IsData d
    × (fresh d ≤ 6)
unfolding find entries_of pushed
set_repository-save_example =
    set_repository-save read_it write_it dump_it parse_it no_time (codes "f") stores_it 7 9 6
      two_items [] refl refl (omega arith, omega arith, refl, (omega arith, omega arith, refl, tt))
      (omega arith) (omega arith)

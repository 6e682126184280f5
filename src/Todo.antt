-- ===== src/Todo.antt =====
-- examples/todo/core.h and core.cc: the items and the repository that keeps them. An `int` is its
-- bit pattern, a time its microseconds, and `now` the clock's answer. `F` is the state of the files;
-- in the file repository, reading and writing a file, the JSON library and the text of a time are
-- parameters. None is an exception that nobody catches.
pub mod Laws
pub mod Commands
pub mod Restart
pub mod Page
use altas.Prelude.{
  ℕ, ◌+◌, ◌-◌, ◌%◌, ◌^◌, Bool, true, false, ◌&&◌, ◌||◌, List, [], ◌∷◌, ◌++◌, Option, none, some,
  Bytes, codes, is_empty, if◌then◌else◌, ◌==◌, leb, ltb,
}
use altas.Words.{u32_mod}
use altas.Status.{Status, ok, ok_status, invalid_argument_error, not_found_error}
use altas.Fs.Files.{write_file}

pub record Item : Type 0 where
  pub id : ℕ
  pub text : Bytes
  pub update_at : ℕ

abbrev pub ItemList : Type 0
ItemList = List Item

pub record Repository (F : Type 0) : Type 0 where
  -- What is loaded into the list and the largest identity that are handed over.
  pub load_all_items : ItemList → ℕ → F → Option (Status × ItemList × ℕ)
  pub save_all_items : ItemList → F → Status × F

pub record Data : Type 0 where
  pub next_id : ℕ
  pub items : ItemList

unfoldable pub new_data : Data
new_data = record { next_id = 0; items = [] }

abbrev pub int_max : ℕ
int_max = 2 ^ 31 - 1

-- `id <= 0` of a bit pattern.
abbrev pub is_not_positive : ℕ → Bool
is_not_positive id = id == 0 || ltb int_max id

unfoldable pub fetch_add : Data → ℕ × Data
fetch_add d = (d.next_id, record d { next_id = (d.next_id + 1) % u32_mod })

unfoldable pub get_next_id : Data → ℕ × Data
get_next_id d = if is_not_positive (fetch_add d).0 then fetch_add (fetch_add d).1 else fetch_add d

unfoldable pub find : ℕ → ItemList → Option Item
find id [] = none
find id (item ∷ items) = if item.id == id then some item else find id items

unfoldable pub show : ℕ → Data → Option Item
show id d = find id d.items

unfoldable pub erase : ℕ → ItemList → ItemList
erase id [] = []
erase id (item ∷ items) = let rest = erase id items in if item.id == id then items else item ∷ rest

-- The first item of that identity gets the text.
unfoldable pub change_text : ℕ → Bytes → ItemList → ItemList
change_text id text [] = []
change_text id text (item ∷ items) =
    let rest = change_text id text items in
    if item.id == id then (record item { text = text }) ∷ items else item ∷ rest

module _ {F : Type 0} (repository : Option (Repository F)) where
  unfoldable pub set_repository : Data → F → Option Data
  set_repository d fs = elim repository [
    | none ↦ some d
    | some r ↦ elim (r.load_all_items d.items 0 fs) [
      | none ↦ none
      | some (st, items, id_max) ↦
          some (record d { next_id = (id_max + 1) % u32_mod; items = items })
    ]
  ]

  -- The status, if there is a repository, and the files.
  unfoldable pub save : ItemList → F → Status × F
  save items fs = elim repository [ none ↦ (ok_status, fs) | some r ↦ r.save_all_items items fs ]

  unfoldable pub add : ℕ → Bytes → Data → F → Status × Option ℕ × Data × F
  add now text d fs =
      let (new_id, d1) = get_next_id d in
      let d2 : Data = record d1 {
        items = d1.items ++ (record { id = new_id; text = text; update_at = now }) ∷ [];
      } in
      let (st, after) = save d2.items fs in
      if is_empty text
      then (invalid_argument_error (codes "empty item"), none, d, fs)
      else if ok st
      then (ok_status, some new_id, d2, after)
      else (st, none, d2, after)

  -- The status of the repository is not looked at.
  unfoldable pub delete : ℕ → Data → F → Status × Data × F
  delete id d fs = elim (find id d.items) [
    | none ↦ (not_found_error (codes "not found"), d, fs)
    | some item ↦
        let d1 : Data = record d { items = erase id d.items } in
        (ok_status, d1, (save d1.items fs).1)
  ]

  unfoldable pub update : ℕ → Bytes → Data → F → Status × Data × F
  update id text d fs =
      if is_empty text
      then (invalid_argument_error (codes "empty item"), d, fs)
      else elim (find id d.items) [
        | none ↦ (not_found_error (codes "not found"), d, fs)
        | some item ↦
            let d1 : Data = record d { items = change_text id text d.items } in
            (ok_status, d1, (save d1.items fs).1)
      ]

-- The members of an item in the file.
pub record Entry : Type 0 where
  pub id : ℕ
  pub text : Bytes
  pub update_at : Bytes

-- The file: a list that got no item is null.
pub record Saved : Type 0 where
  pub create : Bytes
  pub items : Option (List Entry)

unfoldable pub load_items : ℕ → List (ℕ × Bytes) → ItemList
load_items now [] = []
load_items now ((id, text) ∷ entries) =
    (record { id = id; text = text; update_at = now }) ∷ load_items now entries

-- `max < p->id`, where `max` is not negative.
unfoldable pub max_id : ℕ → List (ℕ × Bytes) → ℕ
max_id max [] = max
max_id max ((id, text) ∷ entries) =
    max_id (if ltb max id && leb id int_max then id else max) entries

unfoldable pub entries_of : (ℕ → Bytes) → ItemList → List Entry
entries_of time_text [] = []
entries_of time_text (i ∷ items) =
    (record { id = i.id; text = i.text; update_at = time_text i.update_at })
    ∷ entries_of time_text items

unfoldable pub pushed : List Entry → Option (List Entry)
pushed [] = none
pushed (e ∷ entries) = some (e ∷ entries)

-- `read` parses a file and takes the identities and texts of its items: none is an exception, and
-- then none that there is no list of items.
module _ {F : Type 0} (sys_read : Bytes → F → Option Bytes)
    (sys_write : Bytes → Bytes → F → Option F) (dump : Saved → Bytes)
    (read : Bytes → Option (Option (List (ℕ × Bytes)))) (time_text : ℕ → Bytes) where
  unfoldable pub load_from_file : ℕ → Bytes → ItemList → ℕ → F → Option (Status × ItemList × ℕ)
  load_from_file now filename items id_max fs = elim (sys_read filename fs) [
    | none ↦ some (invalid_argument_error (codes "file not found"), [], id_max)
    | some content ↦ elim (read content) [
      | none ↦ none
      | some none ↦ some (ok_status, [], 0)
      | some (some entries) ↦ some (ok_status, load_items now entries, max_id 0 entries)
    ]
  ]

  unfoldable pub save_to_file : ℕ → Bytes → ItemList → F → Status × F
  save_to_file now filename items fs =
      let root : Saved = record {
        create = time_text now;
        items = pushed (entries_of time_text items);
      } in
      (ok_status, (write_file sys_write filename (dump root) fs).1)

  unfoldable pub create_file_repository : ℕ → Bytes → Repository F
  create_file_repository now filename = record {
    load_all_items = load_from_file now filename;
    save_all_items = save_to_file now filename;
  }

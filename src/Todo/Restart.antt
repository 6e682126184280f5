-- ===== src/Todo/Restart.antt =====
-- What a new process finds in the file.
use altas.Prelude.{
  ℕ, ◌+◌, ◌%◌, ◌≡◌, ◌≤◌, ◌<◌, refl, sym, ap, ◌∙◌, subst, false, ◌&&◌, List, [], ◌∷◌, Option, none,
  some, Bytes, is_empty, if◌then◌else◌, leb, ltb, arith,
}
use altas.Words.{u32_mod}
use altas.Status.{Status, ok_status}
use altas.Fs.Files.{write_file-made}
use altas.Todo.{
  ItemList, Repository, Data, new_data, int_max, find, set_repository, Entry, Saved, load_items,
  max_id, entries_of, pushed, load_from_file, save_to_file, create_file_repository,
}
use altas.Todo.Laws.{text_of, IsList, fresh, IsData}
use altas.Todo.Commands.{view}

-- The identities and texts of a list.
abbrev members : List Entry → List (ℕ × Bytes)
members [] = []
members (e ∷ entries) = (e.id, e.text) ∷ members entries

abbrev pub members_of : Option (List Entry) → Option (List (ℕ × Bytes))
members_of none = none
members_of (some entries) = some (members entries)

abbrev pairs : ItemList → List (ℕ × Bytes)
pairs [] = []
pairs (i ∷ items) = (i.id, i.text) ∷ pairs items

members-entries_of :
    (time_text : ℕ → Bytes) (items : ItemList) → members (entries_of time_text items) ≡ pairs items
unfolding entries_of
members-entries_of time_text [] = refl
members-entries_of time_text (i ∷ items) =
    ap (◌∷◌ (i.id, i.text)) (members-entries_of time_text items)

text_of-load_items :
    (now : ℕ) (items : ItemList) (j : ℕ)
    → text_of j (load_items now (pairs items)) ≡ text_of j items
unfolding load_items find
text_of-load_items now [] j = refl
text_of-load_items now (i ∷ items) j = ground (arith, text_of-load_items now items j)

find-load_items-none :
    (now : ℕ) (items : ItemList) (j : ℕ)
    → find j items ≡ none
    → find j (load_items now (pairs items)) ≡ none
unfolding load_items find
find-load_items-none now [] j e = refl
find-load_items-none now (i ∷ items) j e = ground (arith, find-load_items-none now items j)

max_id_low : (m : ℕ) (es : List (ℕ × Bytes)) → m ≤ max_id m es
unfolding max_id
max_id_low m [] = omega arith
max_id_low m ((id, text) ∷ es) =
    ground (arith, max_id_low (if ltb m id && leb id int_max then id else m) es)

max_id_high : (m n : ℕ) (items : ItemList) → m < n → IsList n items → max_id m (pairs items) < n
unfolding max_id
max_id_high m n [] l h = l
max_id_high m n (i ∷ items) l (p, b, f, h) =
    max_id_high (if ltb m i.id && leb i.id int_max then i.id else m) n items (ground arith) h

-- Every identity of the list is at most the largest one, and so the list stays in order.
IsList-load_items :
    (now m n : ℕ) (items : ItemList)
    → n ≤ int_max + 1
    → IsList n items
    → (k : ℕ) → max_id m (pairs items) < k
    → IsList k (load_items now (pairs items))
unfolding load_items max_id
IsList-load_items now m n [] l h k b = tt
IsList-load_items now m n (i ∷ items) l (p, c, f, h) k b =
    let m1 = if ltb m i.id && leb i.id int_max then i.id else m in
    (
      p,
      ground (arith, max_id_low m1 (pairs items)),
      find-load_items-none now items i.id f,
      IsList-load_items now m1 n items l h k b,
    )

module _ {F : Type 0} (sys_read : Bytes → F → Option Bytes)
    (sys_write : Bytes → Bytes → F → Option F) (dump : Saved → Bytes)
    (read : Bytes → Option (Option (List (ℕ × Bytes)))) (time_text : ℕ → Bytes) (filename : Bytes)
    (stores : (content : Bytes) (fs : F)
      → (after : F) × (sys_write filename content fs ≡ some after)
        × (sys_read filename after ≡ some content)) where
  abbrev pub root : ℕ → ItemList → Saved
  root now items = record { create = time_text now; items = pushed (entries_of time_text items) }

  abbrev pub saved : ℕ → ItemList → F → F
  saved now items fs = (save_to_file sys_read sys_write dump read time_text now filename items fs).1

  abbrev pub repository : ℕ → Repository F
  repository now = create_file_repository sys_read sys_write dump read time_text now filename

  load_from :
      (later : ℕ) (items : ItemList) (content : Bytes) (fs : F)
      → sys_read filename fs ≡ some content
      → read content ≡ some (members_of (pushed (entries_of time_text items)))
      → load_from_file sys_read sys_write dump read time_text later filename [] 0 fs
        ≡ some (ok_status, load_items later (pairs items), max_id 0 (pairs items))
  unfolding load_from_file pushed entries_of load_items max_id
  load_from later [] content fs r q = rw (r, load_from_file) (rw (q, load_from_file) refl)
  load_from later (i ∷ items) content fs r q =
      let whole : read content ≡ some (some (pairs (i ∷ items))) =
        q ∙ ap (λ z. some (some ((i.id, i.text) ∷ z))) (members-entries_of time_text items) in
      rw (r, load_from_file) (rw (whole, load_from_file) refl)

  loads :
      (now later : ℕ) (items : ItemList) (fs : F)
      → is_empty filename ≡ false
      → read (dump (root now items)) ≡ some (members_of (root now items).items)
      → load_from_file sys_read sys_write dump read time_text later filename [] 0
          (saved now items fs)
        ≡ some (ok_status, load_items later (pairs items), max_id 0 (pairs items))
  unfolding save_to_file
  loads now later items fs e back =
      let (after, w, r) = stores (dump (root now items)) fs in
      let there : saved now items fs ≡ after =
        ap (λ (x : Status × F). x.1)
          (write_file-made sys_write filename (dump (root now items)) fs after e w) in
      subst
        (λ z.
          load_from_file sys_read sys_write dump read time_text later filename [] 0 z
          ≡ some (ok_status, load_items later (pairs items), max_id 0 (pairs items)))
        (sym there) (load_from later items (dump (root now items)) after r back)

  -- The items that a process saved to the file repository are those that the next process loads,
  -- with the same identities and texts, in order, and below its next identity, which is no larger
  -- than that of the first: where the file has a name, a file that is written is read back, the JSON
  -- library reads back the document that it wrote, and the identities are different, positive and at most
  -- INT_MAX.
  pub set_repository-save :
      (now later n : ℕ) (items : ItemList) (fs : F)
      → is_empty filename ≡ false
      → read (dump (root now items)) ≡ some (members_of (root now items).items)
      → IsList n items
      → 0 < n
      → n ≤ int_max + 1
      → (d : Data) × (set_repository (some (repository later)) new_data (saved now items fs)
          ≡ some d)
        × ((j : ℕ) → view d j ≡ text_of j items)
        × IsData d
        × (fresh d ≤ n)
  unfolding set_repository new_data create_file_repository
  set_repository-save now later n items fs e back h p l =
      let top = max_id 0 (pairs items) in
      let high : top < n = max_id_high 0 n items p h in
      let d : Data = record {
        next_id = (top + 1) % u32_mod;
        items = load_items later (pairs items);
      } in
      let next : fresh d ≡ top + 1 = ground arith in
      (
        d,
        rw (loads now later items fs e back, set_repository) refl,
        text_of-load_items later items,
        subst (λ z. IsList z d.items) (sym next)
            (IsList-load_items later 0 n items l h (top + 1) (omega arith)),
        omega (arith, next),
      )

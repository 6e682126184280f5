-- ===== src/Http/ServeMux.antt =====
-- cppboot/net/http/server/serve_mux.h and serve_mux.cc. A handler is a function of the request and
-- of the response it writes. `funcs_` is an unordered map, of which the code uses the lookup and
-- the write of a new key: a sorted map here.
pub mod Index
pub mod Serving
use altas.Prelude.{
  ℕ, ◌+◌, ◌-◌, ◌≡◌, Bool, true, false, List, [], ◌∷◌, ◌++◌, Option, none, some, Bytes, codes,
  is_empty, length, drop, get_or, if◌then◌else◌, ltb, ◌==◌,
}
use altas.OrdMap.{OrdMap, find, insert}
use altas.StrUtil.{starts_with_ignore_case}
use altas.Http.Request.{Request}
use altas.Http.Response.{Response, StatusType, write_text, not_found}

abbrev pub Func : Type 0
Func = Request → Response → Response

pub record FuncEntry : Type 0 where
  pub pattern : Bytes
  pub fn : Func

pub record ServeMux : Type 0 where
  pub funcs : OrdMap FuncEntry
  pub prefix_funcs : List FuncEntry

unfoldable pub new_mux : ServeMux
new_mux = record { funcs = []; prefix_funcs = [] }

-- The loop over the prefixes and what follows it: before the first shorter pattern, else at the
-- end.
insert_prefix : FuncEntry → List FuncEntry → List FuncEntry
insert_prefix entry [] = entry ∷ []
insert_prefix entry (i ∷ rest) =
    if ltb (length i.pattern) (length entry.pattern)
    then entry ∷ i ∷ rest
    else i ∷ insert_prefix entry rest

unfoldable pub ends_in_slash : Bytes → Bool
ends_in_slash pattern = get_or pattern (length pattern - 1) 0 == b'/'

-- The two members after a pattern that is new.
add_entry : FuncEntry → ServeMux → ServeMux
unfolding insert_prefix
add_entry entry mux = record {
  funcs = insert entry.pattern entry mux.funcs;
  prefix_funcs =
      if ends_in_slash entry.pattern
      then insert_prefix entry mux.prefix_funcs
      else mux.prefix_funcs;
}

unfoldable pub set_handler : Bytes → Func → ServeMux → ServeMux
unfolding add_entry
set_handler pattern func mux = if is_empty pattern then mux else elim (find pattern mux.funcs) [
  | some found ↦ mux
  | none ↦ add_entry (record { pattern = pattern; fn = func }) mux
]

-- The loop over the prefixes: the first that the path starts with.
unfoldable pub find_prefix : Bytes → List FuncEntry → Option FuncEntry
find_prefix path [] = none
find_prefix path (i ∷ rest) =
    if starts_with_ignore_case path i.pattern then some i else find_prefix path rest

-- The request, whose `subpath` is written, and the response.
unfoldable pub serve_http : ServeMux → Request → Response → Request × Response
serve_http mux req resp = elim (find req.path mux.funcs) [
  | some entry ↦ (req, entry.fn req resp)
  | none ↦ elim (find_prefix req.path mux.prefix_funcs) [
    | some i ↦
        let routed : Request = record req { subpath = drop (length i.pattern - 1) req.path } in
        (routed, i.fn routed resp)
    | none ↦ (req, write_text StatusType.not_found (codes "Not found") resp)
  ]
]

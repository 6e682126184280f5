-- ===== src/Tests/Base.antt =====
-- Strings: cppboot/base.
use altas.Prelude.{◌≡◌, [], ◌∷◌, none, some, Bytes, codes}
use altas.StrUtil.{str_replace, replace_loop, str_fields}
use altas.StrUtil.Fields.{str_fields_lem, words_from}
use altas.StrUtil.Replace.{str_replace_lem}

str_replace_lem_example :
    ((r : Bytes) × (str_replace (codes "1ab2ab") (codes "ab") (codes "x") ≡ some r))
    × (str_replace (codes "1ab2ab") (codes "ab") (codes "ab") ≡ some (codes "1ab2ab"))
    × (replace_loop 5 [] (codes "x") (codes "1ab2ab") ≡ none)
str_replace_lem_example = str_replace_lem b'a' 5 (codes "b") (codes "x") (codes "1ab2ab")

str_fields_lem_example : str_fields (codes " get  key ") ≡ some (codes "get" ∷ codes "key" ∷ [])
unfolding words_from
str_fields_lem_example = str_fields_lem (codes " get  key ")

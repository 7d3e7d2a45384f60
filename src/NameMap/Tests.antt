-- ===== src/NameMap/Tests.antt =====
-- name_map.rs: a module with a type section, a module name and two function names.
use near_mock.Base.{◌≡◌, refl, [], ◌∷◌, Bytes, Option, none, some, arith, suc}
use near_mock.NameMap.{Names, decode_function_names}
use near_mock.NameMap.Decoded.{module_bytes, section_bytes, decode_function_names-module_bytes}

abbrev header : Bytes
header = 0 ∷ 97 ∷ 115 ∷ 109 ∷ 1 ∷ 0 ∷ 0 ∷ 0 ∷ []

abbrev two_names : Names
two_names = (0, 97 ∷ []) ∷ (300, 114 ∷ 117 ∷ 110 ∷ []) ∷ []

decode_function_names-module_bytes_example :
    decode_function_names (
      module_bytes header
        ((1, 5 ∷ []) ∷ [])
        (section_bytes ((0, 6 ∷ []) ∷ []) 9 two_names)
        (7 ∷ []))
    ≡ some two_names
unfolding near_mock.Base.Utf8.from_utf8_lossy
decode_function_names-module_bytes_example =
    decode_function_names-module_bytes header (7 ∷ []) ((1, 5 ∷ []) ∷ []) ((0, 6 ∷ []) ∷ []) 9
      two_names refl (refl, omega arith, tt) (refl, omega arith, tt)
      (omega arith, omega arith, refl, (omega arith, omega arith, refl, tt)) (omega arith)
      (omega arith) (omega arith)

no_section : decode_function_names header ≡ none
unfolding decode_function_names
no_section = refl

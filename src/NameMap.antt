-- ===== src/NameMap.antt =====
-- name_map.rs: the reader of the `name` section of a WebAssembly module. Its encoder is the crate
-- wasm-encoder.
pub mod Layout
pub mod Decoded
pub mod Rounds
mod Tests
use near_mock.Base.{
  ℕ, zero, suc, ◌+◌, ◌-◌, ◌*◌, ◌%◌, ◌^◌, Bool, true, false, not, List, [], ◌∷◌, Option, none, some,
  Bytes, length, take, drop, get_elem?, ltb, leb, ◌==◌, min, if◌then◌else◌,
}
use near_mock.Base.{ℕ_eq, bytes_Key}
use near_mock.Base.Utf8.{from_utf8_lossy}

abbrev pub Names : Type 0
Names = List (ℕ × Bytes)

-- The rounds until `shift > 35`. The bits that a round adds are above those of the ones before.
unfoldable pub leb_from : ℕ → Bytes → ℕ → ℕ → ℕ → Option (ℕ × ℕ)
leb_from zero d p shift result = none
leb_from (suc rounds) d p shift result = elim (get_elem? d p) [
  | none ↦ none
  | some b ↦ elim (ltb b 128) [
    | true ↦ some ((result + b % 128 * 2 ^ shift) % 2 ^ 32, p + 1)
    | false ↦ leb_from rounds d (p + 1) (shift + 7) (result + b % 128 * 2 ^ shift)
  ]
]

unfoldable pub read_leb_u32 : Bytes → ℕ → Option (ℕ × ℕ)
unfolding leb_from
read_leb_u32 d p = leb_from 6 d p 0 0

-- `d.get(p..p + n)`
unfoldable pub get_range : Bytes → ℕ → ℕ → Option Bytes
get_range d p n = if leb (p + n) (length d) then some (take n (drop p d)) else none

-- The loop of `sections`, of which each round takes at least two bytes.
unfoldable pub sections_from : ℕ → Bytes → ℕ → List (ℕ × Bytes)
unfolding read_leb_u32
sections_from zero d p = []
sections_from (suc rounds) d p = elim (get_elem? d p) [
  | none ↦ []
  | some id ↦ elim (read_leb_u32 d (p + 1)) [
    | none ↦ []
    | some (size, np) ↦
        (id, take (min (np + size) (length d) - np) (drop np d))
        ∷ sections_from rounds d (min (np + size) (length d))
  ]
]

unfoldable pub sections : Bytes → List (ℕ × Bytes)
unfolding sections_from
sections d = sections_from (length d) d 8

unfoldable pub read_names : ℕ → Bytes → ℕ → Option Names
unfolding read_leb_u32 get_range
read_names zero payload q = some []
read_names (suc count) payload q = elim (read_leb_u32 payload q) [
  | none ↦ none
  | some (idx, q2) ↦ elim (read_leb_u32 payload q2) [
    | none ↦ none
    | some (nlen, q3) ↦ elim (get_range payload q3 nlen) [
      | none ↦ none
      | some name ↦ elim (read_names count payload (q3 + nlen)) [
        | none ↦ none
        | some out ↦ some ((idx, from_utf8_lossy name) ∷ out)
      ]
    ]
  ]
]

-- A section is left, or the function returns.
pub data Search : Type 0 where
  continue : Search
  return : Option Names → Search

-- `let (count, q) = read_leb_u32(..)?` and the loop over the names.
unfoldable pub function_names : Bytes → ℕ → Option Names
unfolding read_names read_leb_u32
function_names payload p = elim (read_leb_u32 payload p) [
  | none ↦ none
  | some (count, q) ↦ read_names count payload q
]

-- The loop over the subsections, of which each round takes at least two bytes.
unfoldable pub subsections : ℕ → Bytes → ℕ → Search
unfolding read_leb_u32 function_names
subsections zero payload p = continue
subsections (suc rounds) payload p = elim (get_elem? payload p) [
  | none ↦ continue
  | some sub_id ↦ elim (read_leb_u32 payload (p + 1)) [
    | none ↦ return none
    | some (size, p2) ↦ elim (sub_id == 1) [
      | true ↦ return (function_names payload p2)
      | false ↦ subsections rounds payload (min (p2 + size) (length payload))
    ]
  ]
]

-- "name"
abbrev pub name_bytes : Bytes
name_bytes = 110 ∷ 97 ∷ 109 ∷ 101 ∷ []

unfoldable pub custom_section : Bytes → Search
unfolding read_leb_u32 get_range subsections
custom_section payload = elim (read_leb_u32 payload 0) [
  | none ↦ return none
  | some (nlen, p) ↦ elim (get_range payload p nlen) [
    | none ↦ return none
    | some name ↦ elim (name == name_bytes) [
      | false ↦ continue
      | true ↦ subsections (length payload) payload (p + nlen)
    ]
  ]
]

unfoldable pub search_sections : List (ℕ × Bytes) → Option Names
unfolding custom_section
search_sections [] = none
search_sections ((id, payload) ∷ r) = elim (id == 0) [
  | false ↦ search_sections r
  | true ↦ elim (custom_section payload) [ continue ↦ search_sections r | return o ↦ o ]
]

unfoldable pub decode_function_names : Bytes → Option Names
unfolding search_sections sections
decode_function_names wasm = search_sections (sections wasm)

-- `filter_map`; the function is the caller's.
unfoldable pub remap_function_names : Names → (ℕ → Option ℕ) → Names
remap_function_names [] f = []
remap_function_names ((idx, name) ∷ r) f = elim (f idx) [
  | none ↦ remap_function_names r f
  | some new ↦ (new, name) ∷ remap_function_names r f
]

-- ===== src/Tx/Panics.antt =====
-- mod.rs, `extract_panic`: the failure that the text of an error stands for.
pub mod Extracted
use near_mock.Base.{
  ℕ, zero, suc, ◌≡◌, refl, Bool, true, false, List, [], ◌∷◌, ◌++◌, Option, none, some, Bytes, arith,
  length, drop, starts_with, ◌==◌, if◌then◌else◌, Option-cases, inl, inr,
}
use near_mock.Base.{ℕ_eq, bytes_Key}
use near_mock.Base.Trim.{trim_end}

-- `raw.find(needle)` and what follows the needle.
unfoldable pub after_text : Bytes → Bytes → Option Bytes
after_text needle [] = if starts_with [] needle then some [] else none
after_text needle (b ∷ bs) =
    let rest = after_text needle bs in
    if starts_with (b ∷ bs) needle then some (drop (length needle) (b ∷ bs)) else rest

unfoldable pub contains_text : Bytes → Bytes → Bool
unfolding after_text
contains_text needle raw = elim (after_text needle raw) [ none ↦ false | some rest ↦ true ]

-- "Exceeded the prepaid gas"
abbrev pub gas_class : Bytes
gas_class =
    69 ∷ 120 ∷ 99 ∷ 101 ∷ 101 ∷ 100 ∷ 101 ∷ 100 ∷ 32 ∷ 116 ∷ 104 ∷ 101 ∷ 32 ∷ 112 ∷ 114 ∷ 101 ∷ 112
    ∷ 97 ∷ 105 ∷ 100 ∷ 32 ∷ 103 ∷ 97 ∷ 115 ∷ []

-- "WasmTrap: StackOverflow"
abbrev pub overflow_class : Bytes
overflow_class =
    87 ∷ 97 ∷ 115 ∷ 109 ∷ 84 ∷ 114 ∷ 97 ∷ 112 ∷ 58 ∷ 32 ∷ 83 ∷ 116 ∷ 97 ∷ 99 ∷ 107 ∷ 79 ∷ 118 ∷ 101
    ∷ 114 ∷ 102 ∷ 108 ∷ 111 ∷ 119 ∷ []

-- "out of bounds memory access"
abbrev bounds_text : Bytes
bounds_text =
    111 ∷ 117 ∷ 116 ∷ 32 ∷ 111 ∷ 102 ∷ 32 ∷ 98 ∷ 111 ∷ 117 ∷ 110 ∷ 100 ∷ 115 ∷ 32 ∷ 109 ∷ 101 ∷ 109
    ∷ 111 ∷ 114 ∷ 121 ∷ 32 ∷ 97 ∷ 99 ∷ 99 ∷ 101 ∷ 115 ∷ 115 ∷ []

-- "WasmTrap: MemoryOutOfBounds"
abbrev pub bounds_class : Bytes
bounds_class =
    87 ∷ 97 ∷ 115 ∷ 109 ∷ 84 ∷ 114 ∷ 97 ∷ 112 ∷ 58 ∷ 32 ∷ 77 ∷ 101 ∷ 109 ∷ 111 ∷ 114 ∷ 121 ∷ 79
    ∷ 117 ∷ 116 ∷ 79 ∷ 102 ∷ 66 ∷ 111 ∷ 117 ∷ 110 ∷ 100 ∷ 115 ∷ []

-- "integer divide by zero"
abbrev divide_text : Bytes
divide_text =
    105 ∷ 110 ∷ 116 ∷ 101 ∷ 103 ∷ 101 ∷ 114 ∷ 32 ∷ 100 ∷ 105 ∷ 118 ∷ 105 ∷ 100 ∷ 101 ∷ 32 ∷ 98 ∷ 121
    ∷ 32 ∷ 122 ∷ 101 ∷ 114 ∷ 111 ∷ []

-- "WasmTrap: IntegerDivisionByZero"
abbrev pub divide_class : Bytes
divide_class =
    87 ∷ 97 ∷ 115 ∷ 109 ∷ 84 ∷ 114 ∷ 97 ∷ 112 ∷ 58 ∷ 32 ∷ 73 ∷ 110 ∷ 116 ∷ 101 ∷ 103 ∷ 101 ∷ 114
    ∷ 68 ∷ 105 ∷ 118 ∷ 105 ∷ 115 ∷ 105 ∷ 111 ∷ 110 ∷ 66 ∷ 121 ∷ 90 ∷ 101 ∷ 114 ∷ 111 ∷ []

-- "integer overflow"
abbrev integer_text : Bytes
integer_text =
    105 ∷ 110 ∷ 116 ∷ 101 ∷ 103 ∷ 101 ∷ 114 ∷ 32 ∷ 111 ∷ 118 ∷ 101 ∷ 114 ∷ 102 ∷ 108 ∷ 111 ∷ 119
    ∷ []

-- "WasmTrap: IntegerOverflow"
abbrev pub integer_class : Bytes
integer_class =
    87 ∷ 97 ∷ 115 ∷ 109 ∷ 84 ∷ 114 ∷ 97 ∷ 112 ∷ 58 ∷ 32 ∷ 73 ∷ 110 ∷ 116 ∷ 101 ∷ 103 ∷ 101 ∷ 114
    ∷ 79 ∷ 118 ∷ 101 ∷ 114 ∷ 102 ∷ 108 ∷ 111 ∷ 119 ∷ []

-- "indirect call to null"
abbrev null_text : Bytes
null_text =
    105 ∷ 110 ∷ 100 ∷ 105 ∷ 114 ∷ 101 ∷ 99 ∷ 116 ∷ 32 ∷ 99 ∷ 97 ∷ 108 ∷ 108 ∷ 32 ∷ 116 ∷ 111 ∷ 32
    ∷ 110 ∷ 117 ∷ 108 ∷ 108 ∷ []

-- "WasmTrap: IndirectCallToNull"
abbrev pub null_class : Bytes
null_class =
    87 ∷ 97 ∷ 115 ∷ 109 ∷ 84 ∷ 114 ∷ 97 ∷ 112 ∷ 58 ∷ 32 ∷ 73 ∷ 110 ∷ 100 ∷ 105 ∷ 114 ∷ 101 ∷ 99
    ∷ 116 ∷ 67 ∷ 97 ∷ 108 ∷ 108 ∷ 84 ∷ 111 ∷ 78 ∷ 117 ∷ 108 ∷ 108 ∷ []

-- "signature mismatch"
abbrev signature_text : Bytes
signature_text =
    115 ∷ 105 ∷ 103 ∷ 110 ∷ 97 ∷ 116 ∷ 117 ∷ 114 ∷ 101 ∷ 32 ∷ 109 ∷ 105 ∷ 115 ∷ 109 ∷ 97 ∷ 116 ∷ 99
    ∷ 104 ∷ []

-- "WasmTrap: IncorrectCallIndirectSignature"
abbrev pub signature_class : Bytes
signature_class =
    87 ∷ 97 ∷ 115 ∷ 109 ∷ 84 ∷ 114 ∷ 97 ∷ 112 ∷ 58 ∷ 32 ∷ 73 ∷ 110 ∷ 99 ∷ 111 ∷ 114 ∷ 114 ∷ 101 ∷ 99
    ∷ 116 ∷ 67 ∷ 97 ∷ 108 ∷ 108 ∷ 73 ∷ 110 ∷ 100 ∷ 105 ∷ 114 ∷ 101 ∷ 99 ∷ 116 ∷ 83 ∷ 105 ∷ 103 ∷ 110
    ∷ 97 ∷ 116 ∷ 117 ∷ 114 ∷ 101 ∷ []

-- "unreachable"
abbrev unreachable_text : Bytes
unreachable_text = 117 ∷ 110 ∷ 114 ∷ 101 ∷ 97 ∷ 99 ∷ 104 ∷ 97 ∷ 98 ∷ 108 ∷ 101 ∷ []

-- "WasmTrap: Unreachable"
abbrev pub unreachable_class : Bytes
unreachable_class =
    87 ∷ 97 ∷ 115 ∷ 109 ∷ 84 ∷ 114 ∷ 97 ∷ 112 ∷ 58 ∷ 32 ∷ 85 ∷ 110 ∷ 114 ∷ 101 ∷ 97 ∷ 99 ∷ 104 ∷ 97
    ∷ 98 ∷ 108 ∷ 101 ∷ []

-- "call stack exhausted"
abbrev stack_text : Bytes
stack_text =
    99 ∷ 97 ∷ 108 ∷ 108 ∷ 32 ∷ 115 ∷ 116 ∷ 97 ∷ 99 ∷ 107 ∷ 32 ∷ 101 ∷ 120 ∷ 104 ∷ 97 ∷ 117 ∷ 115
    ∷ 116 ∷ 101 ∷ 100 ∷ []

-- The texts that are looked for, in this order, with their classes.
abbrev pub classes : List (Bytes × Bytes)
classes =
    (gas_class, gas_class)
    ∷ (overflow_class, overflow_class)
    ∷ (bounds_text, bounds_class)
    ∷ (divide_text, divide_class)
    ∷ (integer_text, integer_class)
    ∷ (null_text, null_class)
    ∷ (signature_text, signature_class)
    ∷ (unreachable_text, unreachable_class)
    ∷ (stack_text, overflow_class)
    ∷ []

-- "PANIC: "
abbrev pub marker : Bytes
marker = 80 ∷ 65 ∷ 78 ∷ 73 ∷ 67 ∷ 58 ∷ 32 ∷ []

-- "Smart contract panicked: "
abbrev pub panicked_text : Bytes
panicked_text =
    83 ∷ 109 ∷ 97 ∷ 114 ∷ 116 ∷ 32 ∷ 99 ∷ 111 ∷ 110 ∷ 116 ∷ 114 ∷ 97 ∷ 99 ∷ 116 ∷ 32 ∷ 112 ∷ 97
    ∷ 110 ∷ 105 ∷ 99 ∷ 107 ∷ 101 ∷ 100 ∷ 58 ∷ 32 ∷ []

unfoldable pub class_of : List (Bytes × Bytes) → Bytes → Option Bytes
unfolding contains_text
class_of [] raw = none
class_of ((needle, class) ∷ r) raw =
    let rest = class_of r raw in if contains_text needle raw then some class else rest

-- `lines().next()`. The carriage return that it takes off the end is white space for `trim_end`.
unfoldable pub first_line : Bytes → Bytes
first_line [] = []
first_line (b ∷ bs) = let rest = first_line bs in if b == 10 then [] else b ∷ rest

abbrev pub panic_line : Bytes → Option Bytes
panic_line [] = none
panic_line (b ∷ bs) = some (panicked_text ++ (b ∷ bs))

unfoldable pub extract_panic : Bytes → Option Bytes
unfolding class_of after_text trim_end first_line
extract_panic raw = elim (class_of classes raw) [
  | some class ↦ some class
  | none ↦ elim (after_text marker raw) [
    | none ↦ none
    | some rest ↦ panic_line (trim_end (first_line rest))
  ]
]

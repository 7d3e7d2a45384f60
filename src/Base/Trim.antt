-- ===== src/Base/Trim.antt =====
-- Rust's `str::trim_end` and `str::trim` on the bytes of a text.
use Prim.Native.Nat.{ℕ, zero, suc, ◌<◌, ◌≤◌}
use mathlib.Core.Path.{◌≡◌, refl, ap, ◌∙◌}
use mathlib.Core.Bool.{Bool, false≢true, ◌&&◌, ◌||◌, true, false}
use mathlib.Core.List.{List, [], ◌∷◌, reverse, reverse_aux, reverse-reverse}
use mathlib.Core.Option.{Option, none, some}
use native.Mathlib.Omega.{arith}
use near_mock.Base.Lists.{starts_with, length, drop}
use near_mock.Base.Tests.{Bytes, ltb, if◌then◌else◌}

-- The encodings of white space, from their last byte on.
abbrev spaces : List Bytes
spaces =
    (9 ∷ [])
    ∷ (10 ∷ [])
    ∷ (11 ∷ [])
    ∷ (12 ∷ [])
    ∷ (13 ∷ [])
    ∷ (32 ∷ [])
    ∷ (133 ∷ 194 ∷ [])
    ∷ (160 ∷ 194 ∷ [])
    ∷ (128 ∷ 154 ∷ 225 ∷ [])
    ∷ (128 ∷ 128 ∷ 226 ∷ [])
    ∷ (129 ∷ 128 ∷ 226 ∷ [])
    ∷ (130 ∷ 128 ∷ 226 ∷ [])
    ∷ (131 ∷ 128 ∷ 226 ∷ [])
    ∷ (132 ∷ 128 ∷ 226 ∷ [])
    ∷ (133 ∷ 128 ∷ 226 ∷ [])
    ∷ (134 ∷ 128 ∷ 226 ∷ [])
    ∷ (135 ∷ 128 ∷ 226 ∷ [])
    ∷ (136 ∷ 128 ∷ 226 ∷ [])
    ∷ (137 ∷ 128 ∷ 226 ∷ [])
    ∷ (138 ∷ 128 ∷ 226 ∷ [])
    ∷ (168 ∷ 128 ∷ 226 ∷ [])
    ∷ (169 ∷ 128 ∷ 226 ∷ [])
    ∷ (175 ∷ 128 ∷ 226 ∷ [])
    ∷ (159 ∷ 129 ∷ 226 ∷ [])
    ∷ (128 ∷ 128 ∷ 227 ∷ [])
    ∷ []

abbrev strip_one : List Bytes → Bytes → Option Bytes
strip_one [] bs = none
strip_one (space ∷ r) bs =
    let rest = strip_one r bs in
    if starts_with bs space then some (drop (length space) bs) else rest

-- Each round takes one byte at least.
strip_all : List Bytes → ℕ → Bytes → Bytes
strip_all list zero bs = bs
strip_all list (suc rounds) bs = elim (strip_one list bs) [
  | none ↦ bs
  | some r ↦ strip_all list rounds r
]

unfoldable pub trim_end : Bytes → Bytes
unfolding strip_all
trim_end bs = reverse (strip_all spaces (length bs) (reverse bs))

abbrev each_backwards : List Bytes → List Bytes
each_backwards [] = []
each_backwards (space ∷ r) = reverse space ∷ each_backwards r

unfoldable pub trim_start : Bytes → Bytes
unfolding strip_all
trim_start bs = strip_all (each_backwards spaces) (length bs) bs

unfoldable pub trim : Bytes → Bytes
unfolding trim_start trim_end
trim bs = trim_end (trim_start bs)

abbrev pub AllDigits : Bytes → Type 0
AllDigits [] = Unit
AllDigits (b ∷ bs) = ((48 ≤ b) × (b < 58)) × AllDigits bs

-- No encoding of white space begins with a digit.
abbrev starts_other : List Bytes → Bool
starts_other [] = true
starts_other ([] ∷ r) = false
starts_other ((c ∷ cs) ∷ r) = (ltb c 48 || ltb 57 c) && starts_other r

strip_one-digit :
    (list : List Bytes) (b : ℕ) (bs : Bytes)
    → starts_other list ≡ true
    → 48 ≤ b
    → b < 58
    → strip_one list (b ∷ bs) ≡ none
strip_one-digit [] b bs e low high = refl
strip_one-digit ([] ∷ r) b bs e low high = absurd (false≢true e)
strip_one-digit ((c ∷ cs) ∷ r) b bs e low high =
    ground (arith, e, low, high, strip_one-digit r b bs)

strip_all-digits :
    (list : List Bytes) (n : ℕ) (bs : Bytes)
    → starts_other list ≡ true
    → AllDigits bs
    → strip_one list [] ≡ none
    → strip_all list n bs ≡ bs
unfolding strip_all
strip_all-digits list zero bs e h nothing = refl
strip_all-digits list (suc n) [] e h nothing = rw (nothing, strip_all) refl
strip_all-digits list (suc n) (b ∷ bs) e ((low, high), h) nothing =
    rw (strip_one-digit list b bs e low high, strip_all) refl

reverse_aux-AllDigits :
    (bs acc : Bytes) → AllDigits bs → AllDigits acc → AllDigits (reverse_aux bs acc)
reverse_aux-AllDigits [] acc h k = k
reverse_aux-AllDigits (b ∷ bs) acc (hb, h) k = reverse_aux-AllDigits bs (b ∷ acc) h (hb, k)

-- Digits have no white space around them.
pub trim-digits : (bs : Bytes) → AllDigits bs → trim bs ≡ bs
unfolding trim trim_start trim_end
trim-digits bs h =
    let front : trim_start bs ≡ bs =
      strip_all-digits (each_backwards spaces) (length bs) bs refl h refl in
    let back : trim_end bs ≡ bs =
      ap reverse (
        strip_all-digits spaces (length bs) (reverse bs) refl (reverse_aux-AllDigits bs [] h tt)
          refl)
      ∙ reverse-reverse bs in
    ap trim_end front ∙ back

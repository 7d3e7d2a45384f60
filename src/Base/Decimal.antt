-- ===== src/Base/Decimal.antt =====
-- Rust's `u128` to and from decimal text: `to_string` and `str::parse`.
use Prim.Native.Nat.{ℕ, zero, suc, ◌+◌, ◌-◌, ◌*◌, ◌/◌, ◌%◌, ◌^◌, ◌<◌}
use mathlib.Core.Path.{◌≡◌, refl, ◌∙◌}
use mathlib.Core.Bool.{◌&&◌, false}
use near_mock.Base.Lists.{starts_with}
use near_mock.Base.Trim.{AllDigits}
use mathlib.Core.List.{[], ◌∷◌}
use mathlib.Core.Option.{Option, none, some}
use native.Mathlib.Omega.{arith}
use near_mock.Base.Tests.{Bytes, ltb, leb, nat_eq, if◌then◌else◌}

-- The digits of `n` in front of `rest`; the fuel bounds the number of digits.
print_digits : ℕ → ℕ → Bytes → Bytes
print_digits zero n rest = rest
print_digits (suc fuel) n rest =
    let more = print_digits fuel (n / 10) ((48 + n % 10) ∷ rest) in
    if ltb n 10 then (48 + n) ∷ rest else more

unfoldable pub to_string : ℕ → Bytes
unfolding print_digits
to_string n = print_digits (suc n) n []

-- `checked_mul` and `checked_add` at the type's modulus.
parse_digits : ℕ → ℕ → Bytes → Option ℕ
parse_digits bound acc [] = some acc
parse_digits bound acc (c ∷ cs) =
    let next = acc * 10 + (c - 48) in
    let rest = parse_digits bound next cs in
    if leb 48 c && leb c 57 && ltb next bound then rest else none

parse_after_sign : ℕ → Bytes → Option ℕ
unfolding parse_digits
parse_after_sign bound [] = none
parse_after_sign bound (c ∷ cs) = parse_digits bound 0 (c ∷ cs)

-- An optional sign, then one digit at least.
unfoldable pub parse : ℕ → Bytes → Option ℕ
unfolding parse_after_sign
parse bound [] = none
parse bound (c ∷ cs) =
    if nat_eq c 43 then parse_after_sign bound cs else parse_digits bound 0 (c ∷ cs)

parse-print_digits :
    (bound fuel n : ℕ) (rest : Bytes)
    → n < fuel
    → n < bound
    → parse_digits bound 0 (print_digits fuel n rest) ≡ parse_digits bound n rest
unfolding print_digits parse_digits
parse-print_digits bound zero n rest h b = elim h [ ]
parse-print_digits bound (suc fuel) n rest h b =
    ground (arith, parse-print_digits bound fuel (n / 10) ((48 + n % 10) ∷ rest))

-- A number prints with a digit first, so no sign is read off it.
parse-unsigned :
    (bound fuel n : ℕ) (rest : Bytes)
    → n < fuel
    → parse bound (print_digits fuel n rest) ≡ parse_digits bound 0 (print_digits fuel n rest)
unfolding print_digits parse
parse-unsigned bound zero n rest h = elim h [ ]
parse-unsigned bound (suc fuel) n rest h =
    ground (arith, parse-unsigned bound fuel (n / 10) ((48 + n % 10) ∷ rest))

-- A number of the type, printed in decimal, parses back to itself.
pub parse-to_string : (bound n : ℕ) → n < bound → parse bound (to_string n) ≡ some n
unfolding to_string parse_digits
parse-to_string bound n h =
    parse-unsigned bound (suc n) n [] (omega arith)
    ∙ parse-print_digits bound (suc n) n [] (omega arith) h

parse_digits-lt :
    (bound acc : ℕ) (cs : Bytes) (n : ℕ)
    → acc < bound
    → parse_digits bound acc cs ≡ some n
    → n < bound
unfolding parse_digits
parse_digits-lt bound acc [] n h e = ground arith
parse_digits-lt bound acc (c ∷ cs) n h e =
    ground (arith, parse_digits-lt bound (acc * 10 + (c - 48)) cs n)

-- What parses fits the type.
pub parse-lt : (bound : ℕ) (cs : Bytes) (n : ℕ) → 0 < bound → parse bound cs ≡ some n → n < bound
unfolding parse parse_after_sign
parse-lt bound [] n h e = ground arith
parse-lt bound (c ∷ []) n h e = ground (arith, parse_digits-lt bound 0 (c ∷ []) n)
parse-lt bound (c ∷ d ∷ cs) n h e =
    ground (arith, parse_digits-lt bound 0 (c ∷ d ∷ cs) n, parse_digits-lt bound 0 (d ∷ cs) n)

to_string_u128_max :
    to_string (2 ^ 128 - 1)
    ≡ 51 ∷ 52 ∷ 48 ∷ 50 ∷ 56 ∷ 50 ∷ 51 ∷ 54 ∷ 54 ∷ 57 ∷ 50 ∷ 48 ∷ 57 ∷ 51 ∷ 56 ∷ 52 ∷ 54 ∷ 51 ∷ 52
      ∷ 54 ∷ 51 ∷ 51 ∷ 55 ∷ 52 ∷ 54 ∷ 48 ∷ 55 ∷ 52 ∷ 51 ∷ 49 ∷ 55 ∷ 54 ∷ 56 ∷ 50 ∷ 49 ∷ 49 ∷ 52 ∷ 53
      ∷ 53 ∷ []
unfolding to_string
to_string_u128_max = refl

-- A number prints with a digit first.
print_digits_head :
    (fuel n c : ℕ) (rest r : Bytes)
    → n < fuel
    → 57 < c
    → starts_with (print_digits fuel n rest) (c ∷ r) ≡ false
unfolding print_digits
print_digits_head zero n c rest r h big = elim h [ ]
print_digits_head (suc fuel) n c rest r h big =
    ground (arith, print_digits_head fuel (n / 10) c ((48 + n % 10) ∷ rest) r)

pub to_string_head : (n c : ℕ) (r : Bytes) → 57 < c → starts_with (to_string n) (c ∷ r) ≡ false
unfolding to_string
to_string_head n c r big = print_digits_head (suc n) n c [] r (omega arith) big

print_digits-AllDigits :
    (fuel n : ℕ) (rest : Bytes) → AllDigits rest → AllDigits (print_digits fuel n rest)
unfolding print_digits
print_digits-AllDigits zero n rest h = h
print_digits-AllDigits (suc fuel) n rest h =
    ground (arith, h, print_digits-AllDigits fuel (n / 10) ((48 + n % 10) ∷ rest))

pub to_string-AllDigits : (n : ℕ) → AllDigits (to_string n)
unfolding to_string
to_string-AllDigits n = print_digits-AllDigits (suc n) n [] tt

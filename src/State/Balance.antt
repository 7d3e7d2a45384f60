-- ===== src/State/Balance.antt =====
-- The balance entries, which promises.rs, mod.rs and hosts.rs read and write in line: the decimal
-- text of a `u128` under the account's key `\x00near-bal`, or `\x00near-locked` for its stake.
use near_mock.Base.{
  ℕ, ◌+◌, ◌%◌, ◌^◌, ◌<◌, ◌≡◌, refl, [], ◌∷◌, Option, none, some, Bytes, arith, if◌then◌else◌, ◌==◌,
  ap,
}
use near_mock.Base.{bytes_Key}
use near_mock.Base.Decimal.{to_string, parse, parse-to_string, parse-lt, to_string-AllDigits}
use near_mock.Base.Trim.{trim, trim-digits, AllDigits}
use near_mock.Base.Utf8.{from_utf8_lossy, from_utf8_lossy-ascii, IsAscii}
use near_mock.Base.Map.{Map, lookup, insert, lookup-insert, IsUnique, insert-IsUnique}
use near_mock.State.{prefixed_key}

abbrev pub u128_mod : ℕ
u128_mod = 2 ^ 128

-- "\x00near-bal"
abbrev pub near_bal : Bytes
near_bal = 0 ∷ 110 ∷ 101 ∷ 97 ∷ 114 ∷ 45 ∷ 98 ∷ 97 ∷ 108 ∷ []

-- "\x00near-locked"
abbrev pub near_locked : Bytes
near_locked = 0 ∷ 110 ∷ 101 ∷ 97 ∷ 114 ∷ 45 ∷ 108 ∷ 111 ∷ 99 ∷ 107 ∷ 101 ∷ 100 ∷ []

unfoldable pub bal_key : Bytes → Bytes
bal_key acct = prefixed_key acct near_bal

unfoldable pub locked_key : Bytes → Bytes
locked_key acct = prefixed_key acct near_locked

-- `.get(&key).and_then(from_utf8).and_then(parse).unwrap_or(0)`
parse_or_zero : Option Bytes → ℕ
parse_or_zero none = 0
parse_or_zero (some v) = elim (parse u128_mod v) [ none ↦ 0 | some n ↦ n ]

unfoldable pub read_amount : Map Bytes Bytes → Bytes → ℕ
unfolding parse_or_zero
read_amount m key = parse_or_zero (lookup key m)

-- `String::from_utf8_lossy(&v).trim().parse().unwrap_or(0)`
unfoldable pub lossy_amount : Bytes → ℕ
lossy_amount v = elim (parse u128_mod (trim (from_utf8_lossy v))) [ none ↦ 0 | some n ↦ n ]

unfoldable pub write_amount : Map Bytes Bytes → Bytes → ℕ → Map Bytes Bytes
write_amount m key n = insert key (to_string n) m

-- `a + b` on `u128` in a release build.
abbrev pub add_u128 : ℕ → ℕ → ℕ
add_u128 a b = (a + b) % u128_mod

pub read_amount-lt : (m : Map Bytes Bytes) (key : Bytes) → read_amount m key < u128_mod
unfolding read_amount
read_amount-lt m key = go (lookup key m)
  where
    fits : (v : Bytes) (o : Option ℕ) → parse u128_mod v ≡ o → parse_or_zero (some v) < u128_mod
    fits v none e = rw (e, parse_or_zero) (omega arith)
    fits v (some n) e = rw (e, parse_or_zero) (parse-lt u128_mod v n (omega arith) e)

    go : (o : Option Bytes) → parse_or_zero o < u128_mod
    go none = omega arith
    go (some v) = fits v (parse u128_mod v) refl

parse_or_zero-to_string : (n : ℕ) → n < u128_mod → parse_or_zero (some (to_string n)) ≡ n
unfolding parse_or_zero
parse_or_zero-to_string n h = rw (parse-to_string u128_mod n h, parse_or_zero)

AllDigits-IsAscii : (bs : Bytes) → AllDigits bs → IsAscii bs
AllDigits-IsAscii [] h = tt
AllDigits-IsAscii (b ∷ bs) h = (omega (arith, h.0), AllDigits-IsAscii bs h.1)

pub lossy_amount-to_string : (n : ℕ) → n < u128_mod → lossy_amount (to_string n) ≡ n
unfolding lossy_amount
lossy_amount-to_string n h =
    let digits = to_string-AllDigits n in
    let lossy = from_utf8_lossy-ascii (to_string n) (AllDigits-IsAscii (to_string n) digits) in
    rw (lossy, trim-digits (to_string n) digits, parse-to_string u128_mod n h, lossy_amount) refl

-- An amount depends on nothing but the entry it is read from.
pub read_amount_ext :
    (m n : Map Bytes Bytes) (j k : Bytes)
    → lookup j m ≡ lookup k n
    → read_amount m j ≡ read_amount n k
unfolding read_amount
read_amount_ext m n j k e = ap parse_or_zero e

pub read_amount_absent : (m : Map Bytes Bytes) (k : Bytes) → lookup k m ≡ none → read_amount m k ≡ 0
unfolding read_amount
read_amount_absent m k e = ap parse_or_zero e

pub write_amount-IsUnique :
    (m : Map Bytes Bytes) (key : Bytes) (n : ℕ) → IsUnique m → IsUnique (write_amount m key n)
unfolding write_amount
write_amount-IsUnique m key n u = insert-IsUnique key (to_string n) m u

-- A written amount changes no other entry.
pub lookup-write_amount :
    (m : Map Bytes Bytes) (key j : Bytes) (n : ℕ)
    → lookup j (write_amount m key n) ≡ (if key == j then some (to_string n) else lookup j m)
unfolding write_amount
lookup-write_amount m key j n = lookup-insert key j (to_string n) m

-- An amount reads back as it was written, and no other entry changes.
pub read_amount-write_amount :
    (m : Map Bytes Bytes) (key j : Bytes) (n : ℕ)
    → n < u128_mod
    → read_amount (write_amount m key n) j ≡ (if key == j then n else read_amount m j)
unfolding read_amount write_amount
read_amount-write_amount m key j n h =
    ground (arith, lookup-insert key j (to_string n) m, parse_or_zero-to_string n h)

-- ===== src/Base/Utf8.antt =====
-- Rust's `String::from_utf8_lossy` on bytes, and little-endian numbers.
use Prim.Native.Nat.{ℕ, zero, suc, ◌+◌, ◌*◌, ◌/◌, ◌%◌, ◌^◌, ◌<◌}
use mathlib.Core.Path.{◌≡◌, refl, ap}
use mathlib.Core.Bool.{◌&&◌}
use mathlib.Core.List.{[], ◌∷◌, ◌++◌}
use native.Mathlib.Nat.{pow-suc}
use native.Mathlib.Omega.{arith}
use near_mock.Base.Tests.{Bytes, ltb, leb, nat_eq, if◌then◌else◌}
use near_mock.Base.Lists.{length}

-- Inside a sequence: the bytes seen, the range of the next one, and how many follow that.
pub data Pending : Type 0 where
  idle : Pending
  need : (seen : Bytes) (low high left : ℕ) → Pending

-- U+FFFD
abbrev pub replacement : Bytes
replacement = 239 ∷ 191 ∷ 189 ∷ []

-- The first byte of a sequence: what is put out, and what is awaited.
unfoldable pub start : ℕ → Bytes × Pending
start b =
    if ltb b 128
    then (b ∷ [], idle)
    else if leb 194 b && leb b 223
    then ([], need (b ∷ []) 128 191 0)
    else if nat_eq b 224
    then ([], need (b ∷ []) 160 191 1)
    else if nat_eq b 237
    then ([], need (b ∷ []) 128 159 1)
    else if leb 225 b && leb b 239
    then ([], need (b ∷ []) 128 191 1)
    else if nat_eq b 240
    then ([], need (b ∷ []) 144 191 2)
    else if leb 241 b && leb b 243
    then ([], need (b ∷ []) 128 191 2)
    else if nat_eq b 244
    then ([], need (b ∷ []) 128 143 2)
    else (replacement, idle)

continued : Bytes → ℕ → ℕ → Bytes × Pending
continued seen b zero = (seen ++ b ∷ [], idle)
continued seen b (suc left) = ([], need (seen ++ b ∷ []) 128 191 left)

-- A byte that does not fit ends the sequence, which is replaced, and starts another one.
unfoldable pub feed : Pending → ℕ → Bytes × Pending
unfolding start continued
feed idle b = start b
feed (need seen low high left) b =
    let (out, next) = start b in
    if leb low b && leb b high then continued seen b left else (replacement ++ out, next)

lossy_from : Pending → Bytes → Bytes
unfolding feed
lossy_from idle [] = []
lossy_from (need seen low high left) [] = replacement
lossy_from p (b ∷ bs) = let (out, next) = feed p b in out ++ lossy_from next bs

unfoldable pub from_utf8_lossy : Bytes → Bytes
unfolding lossy_from
from_utf8_lossy bs = lossy_from idle bs

-- Bytes below 128.
abbrev pub IsAscii : Bytes → Type 0
IsAscii [] = Unit
IsAscii (b ∷ bs) = (b < 128) × IsAscii bs

lossy_from-ascii : (bs : Bytes) → IsAscii bs → lossy_from idle bs ≡ bs
unfolding lossy_from feed start
lossy_from-ascii [] h = refl
lossy_from-ascii (b ∷ bs) h = ground (arith, lossy_from-ascii bs h.1)

pub from_utf8_lossy-ascii : (bs : Bytes) → IsAscii bs → from_utf8_lossy bs ≡ bs
unfolding from_utf8_lossy
from_utf8_lossy-ascii bs h = lossy_from-ascii bs h

-- "é" stays, a lone 255 and a sequence that breaks off are replaced.
lossy_test :
    from_utf8_lossy (195 ∷ 169 ∷ 255 ∷ 226 ∷ 130 ∷ 65 ∷ [])
    ≡ 195 ∷ 169 ∷ 239 ∷ 191 ∷ 189 ∷ 239 ∷ 191 ∷ 189 ∷ 65 ∷ []
unfolding from_utf8_lossy
lossy_test = refl

-- `u128::from_le_bytes`, `u64::from_le_bytes`
abbrev pub from_le_bytes : Bytes → ℕ
from_le_bytes [] = 0
from_le_bytes (b ∷ bs) = b + 256 * from_le_bytes bs

-- `to_le_bytes` at a width in bytes.
abbrev pub to_le_bytes : ℕ → ℕ → Bytes
to_le_bytes zero n = []
to_le_bytes (suc w) n = n % 256 ∷ to_le_bytes w (n / 256)

pub length-to_le_bytes : (w n : ℕ) → length (to_le_bytes w n) ≡ w
length-to_le_bytes zero n = refl
length-to_le_bytes (suc w) n = ap suc (length-to_le_bytes w (n / 256))

pub from_le_bytes-to_le_bytes : (w n : ℕ) → n < 256 ^ w → from_le_bytes (to_le_bytes w n) ≡ n
from_le_bytes-to_le_bytes zero n h = omega arith
from_le_bytes-to_le_bytes (suc w) n h =
    let less : n / 256 < 256 ^ w = omega (arith, pow-suc 256 w) in
    omega (arith, from_le_bytes-to_le_bytes w (n / 256) less)

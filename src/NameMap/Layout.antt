-- ===== src/NameMap/Layout.antt =====
-- name_map.rs: reading at a place of the bytes, and the layout of the section that the WebAssembly
-- standard gives.
use near_mock.Base.{
  ℕ, zero, suc, ◌+◌, ◌-◌, ◌*◌, ◌/◌, ◌%◌, ◌^◌, ◌<◌, ◌≤◌, ◌≡◌, refl, sym, ap, ap₂, subst, ◌∙◌, true,
  false, [], ◌∷◌, ◌++◌, some, Bytes, arith, length, length-append, take, drop, get_elem?, ltb, leb,
  Bool-cases, inl, inr, if◌then◌else◌,
}
use near_mock.Base.Modular.{pow-add}
use native.Mathlib.Nat.{pow-suc}
use near_mock.NameMap.{leb_from, read_leb_u32, get_range}

-- What stands at a place: the rest of the bytes from there.
pub drop-get : (p : ℕ) (d : Bytes) (b : ℕ) (s : Bytes) → drop p d ≡ b ∷ s → get_elem? d p ≡ some b
drop-get zero [] b s e = cc
drop-get zero (x ∷ d) b s e = cc
drop-get (suc p) [] b s e = cc
drop-get (suc p) (x ∷ d) b s e = drop-get p d b s e

pub drop-length : (d xs s : Bytes) → d ≡ xs ++ s → drop (length xs) d ≡ s
drop-length d [] s e = e
drop-length [] (x ∷ xs) s e = cc
drop-length (y ∷ d) (x ∷ xs) s e = drop-length d xs s cc

pub drop-append : (p : ℕ) (d xs s : Bytes) → drop p d ≡ xs ++ s → drop (p + length xs) d ≡ s
drop-append zero d xs s e =
    let same : length xs ≡ 0 + length xs = omega arith in
    subst (λ n. drop n d ≡ s) same (drop-length d xs s e)
drop-append (suc p) [] [] s e =
    let same : suc p ≡ suc p + length {A = ℕ} [] = omega arith in subst (λ n. drop n [] ≡ s) same e
drop-append (suc p) [] (x ∷ xs) s e = cc
drop-append (suc p) (y ∷ d) xs s e =
    let same : suc (p + length xs) ≡ suc p + length xs = omega arith in
    subst (λ n. drop n (y ∷ d) ≡ s) same (drop-append p d xs s e)

pub length-drop : (p : ℕ) (d : Bytes) → length (drop p d) ≡ length d - p
length-drop zero d = omega arith
length-drop (suc p) [] = omega arith
length-drop (suc p) (x ∷ d) = omega (arith, length-drop p d)

pub take-append : (xs s : Bytes) → take (length xs) (xs ++ s) ≡ xs
take-append [] s = refl
take-append (x ∷ xs) s = ap (λ r. x ∷ r) (take-append xs s)

-- LEB128, in at most so many bytes.
abbrev pub leb_bytes : ℕ → ℕ → Bytes
leb_bytes zero n = []
leb_bytes (suc w) n = if ltb n 128 then n ∷ [] else (n % 128 + 128) ∷ leb_bytes w (n / 128)

abbrev pub leb32 : ℕ → Bytes
leb32 n = leb_bytes 5 n

abbrev pub Fits32 : ℕ → Type 0
Fits32 n = n < 2 ^ 32

leb_last :
    (rounds : ℕ) (d s : Bytes) (p shift result b : ℕ)
    → drop p d ≡ b ∷ s
    → ltb b 128 ≡ true
    → leb_from (suc rounds) d p shift result ≡ some ((result + b % 128 * 2 ^ shift) % 2 ^ 32, p + 1)
unfolding leb_from
leb_last rounds d s p shift result b e h = rw (drop-get p d b s e, h, leb_from) refl

leb_more :
    (rounds : ℕ) (d s : Bytes) (p shift result b : ℕ)
    → drop p d ≡ b ∷ s
    → ltb b 128 ≡ false
    → leb_from (suc rounds) d p shift result
      ≡ leb_from rounds d (p + 1) (shift + 7) (result + b % 128 * 2 ^ shift)
unfolding leb_from
leb_more rounds d s p shift result b e h = rw (drop-get p d b s e, h, leb_from) refl

bytes_small : (w n : ℕ) → ltb n 128 ≡ true → leb_bytes (suc w) n ≡ n ∷ []
bytes_small w n h = rw (h, leb_bytes) refl

bytes_large :
    (w n : ℕ) → ltb n 128 ≡ false → leb_bytes (suc w) n ≡ (n % 128 + 128) ∷ leb_bytes w (n / 128)
bytes_large w n h = rw (h, leb_bytes) refl

regroup : (n k : ℕ) → n % 128 * k + n / 128 * (k * 128) ≡ n * k
regroup n k =
    let split : n ≡ 128 * (n / 128) + n % 128 = omega arith in
    let move : n % 128 * k + n / 128 * (k * 128) ≡ (128 * (n / 128) + n % 128) * k = omega arith in
    move ∙ ap (λ m. m * k) (sym split)

pow_seven : (shift : ℕ) → 2 ^ (shift + 7) ≡ 2 ^ shift * 128
pow_seven shift = pow-add 2 shift 7

leb_single :
    (w rounds : ℕ) (d s : Bytes) (p shift result n : ℕ)
    → ltb n 128 ≡ true
    → result + n * 2 ^ shift < 2 ^ 32
    → drop p d ≡ leb_bytes (suc w) n ++ s
    → leb_from (suc rounds) d p shift result
      ≡ some (result + n * 2 ^ shift, p + length (leb_bytes (suc w) n))
leb_single w rounds d s p shift result n small hr e =
    let bytes = bytes_small w n small in
    let same : n % 128 ≡ n = ground (arith, small) in
    let kept : (result + n % 128 * 2 ^ shift) % 2 ^ 32 ≡ result + n * 2 ^ shift =
      ap (λ m. (result + m * 2 ^ shift) % 2 ^ 32) same ∙ omega (arith, hr) in
    leb_last rounds d s p shift result n (e ∙ ap (λ b. b ++ s) bytes) small
    ∙ ap₂ (λ a b. some (a, p + length b)) kept (sym bytes)

-- A number in at most `w + 1` bytes is read from where it stands, on top of what was read before.
leb_from-leb_bytes :
    (w rounds : ℕ) (d s : Bytes) (p shift result n : ℕ)
    → w < rounds
    → n < 128 ^ suc w
    → result + n * 2 ^ shift < 2 ^ 32
    → drop p d ≡ leb_bytes (suc w) n ++ s
    → leb_from rounds d p shift result
      ≡ some (result + n * 2 ^ shift, p + length (leb_bytes (suc w) n))
leb_from-leb_bytes w zero d s p shift result n hw hn hr e = absurd (omega (arith, hw))
leb_from-leb_bytes zero (suc rounds) d s p shift result n hw hn hr e =
    leb_single 0 rounds d s p shift result n (ground (arith, hn)) hr e
leb_from-leb_bytes (suc w) (suc rounds) d s p shift result n hw hn hr e =
    elim (Bool-cases (ltb n 128)) [
      | inl small ↦ leb_single (suc w) rounds d s p shift result n small hr e
      | inr large ↦
          let bytes = bytes_large (suc w) n large in
          let b = n % 128 + 128 in
          let here = e ∙ ap (λ r. r ++ s) bytes in
          let low : b % 128 ≡ n % 128 = omega arith in
          let sum : result + b % 128 * 2 ^ shift + n / 128 * 2 ^ (shift + 7)
              ≡ result + n * 2 ^ shift =
            ap₂ (λ m k. result + m * 2 ^ shift + n / 128 * k) low (pow_seven shift)
            ∙ omega (arith, regroup n (2 ^ shift)) in
          let after : p + 1 + length (leb_bytes (suc w) (n / 128))
              ≡ p + length (leb_bytes (suc (suc w)) n) =
            omega (arith, ap length bytes) in
          leb_more rounds d (leb_bytes (suc w) (n / 128) ++ s) p shift result b here (ground arith)
          ∙ leb_from-leb_bytes w rounds d s (p + 1) (shift + 7) (result + b % 128 * 2 ^ shift)
              (n / 128) (omega (arith, hw)) (omega (arith, hn, pow-suc 128 (suc w)))
              (omega (arith, sum, hr))
              (drop-append p d (b ∷ []) (leb_bytes (suc w) (n / 128) ++ s) here)
          ∙ ap₂ (λ a k. some (a, k)) sum after
    ]

-- A number below 2^32 in its LEB128 form is read back, with the place after it.
pub read_leb_u32-leb32 :
    (d s : Bytes) (p n : ℕ)
    → Fits32 n
    → drop p d ≡ leb32 n ++ s
    → read_leb_u32 d p ≡ some (n, p + length (leb32 n))
unfolding read_leb_u32
read_leb_u32-leb32 d s p n h e =
    leb_from-leb_bytes 4 6 d s p 0 0 n (omega arith) (omega (arith, h)) (omega (arith, h)) e
    ∙ ap (λ m. some (m, p + length (leb32 n))) (omega arith)

pub get_range-append :
    (d xs s : Bytes) (p : ℕ)
    → p ≤ length d
    → drop p d ≡ xs ++ s
    → get_range d p (length xs) ≡ some xs
unfolding get_range
get_range-append d xs s p inside e =
    let enough : leb (p + length xs) (length d) ≡ true =
      ground (arith, inside, length-drop p d, ap length e, length-append xs s) in
    rw (enough, get_range, e, take-append xs s) refl

-- The end of what stands at a place lies inside.
pub inside-append :
    (d xs s : Bytes) (p : ℕ) → p ≤ length d → drop p d ≡ xs ++ s → p + length xs ≤ length d
inside-append d xs s p inside e =
    omega (arith, inside, length-drop p d, ap length e, length-append xs s)

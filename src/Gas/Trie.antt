-- ===== src/Gas/Trie.antt =====
-- gas.rs, `trie_charge` and `trie_charge_write`, with the set of keys already touched.
use near_mock.Base.{
  ℕ, ◌+◌, ◌*◌, ◌%◌, ◌^◌, ◌≡◌, refl, Bool, true, false, ◌||◌, List, [], ◌∷◌, Bytes, arith, ◌==◌,
  if◌then◌else◌,
}
use near_mock.Base.{bytes_Key, bytes_eq_iff}
use near_mock.State.{MockState}
use near_mock.Gas.{GasSchedule}

abbrev pub contains : List Bytes → Bytes → Bool
contains [] k = false
contains (j ∷ r) k = j == k || contains r k

-- A product of two `u64` in a release build.
abbrev pub mul_u64 : ℕ → ℕ → ℕ
mul_u64 a b = a * b % 2 ^ 64

abbrev pub touch : Bytes → MockState → MockState
touch key st = record st { touched = key ∷ st.touched }

-- The charge, and the state in which the key is touched.
unfoldable pub trie_charge : GasSchedule → Bytes → MockState → ℕ × MockState
trie_charge g key st = (
  (if contains st.touched key then g.trie_node else mul_u64 g.trie_walk_nodes g.trie_node),
  touch key st,
)

unfoldable pub trie_charge_write : GasSchedule → Bytes → MockState → ℕ × MockState
trie_charge_write g key st = (mul_u64 g.trie_walk_nodes g.trie_node, touch key st)

-- Charges for a sequence of accesses: `true` for a write, `false` for a read.
abbrev pub charges : GasSchedule → List (Bool × Bytes) → MockState → ℕ × MockState
charges g [] st = (0, st)
charges g ((write, key) ∷ r) st =
    let (cost, st1) = if write then trie_charge_write g key st else trie_charge g key st in
    let (rest, st2) = charges g r st1 in (cost + rest, st2)

charges-contains :
    (g : GasSchedule) (accesses : List (Bool × Bytes)) (key : Bytes) (st : MockState)
    → contains st.touched key ≡ true
    → contains (charges g accesses st).1.touched key ≡ true
unfolding trie_charge trie_charge_write
charges-contains g [] key st h = h
charges-contains g ((true, k) ∷ r) key st h =
    charges-contains g r key (touch k st) (ground (arith, h))
charges-contains g ((false, k) ∷ r) key st h =
    charges-contains g r key (touch k st) (ground (arith, h))

-- Once a key was read or written, each later read of it costs one trie node, whatever other accesses
-- come in between; a write always costs the whole walk, and so does the read of an untouched key.
pub trie_charge-cached :
    (g : GasSchedule) (write : Bool) (accesses : List (Bool × Bytes)) (key : Bytes) (st : MockState)
    → let (first, st1) = if write then trie_charge_write g key st else trie_charge g key st in
      let st2 = (charges g accesses st1).1 in
      ((trie_charge g key st2).0 ≡ g.trie_node)
      × ((trie_charge_write g key st2).0 ≡ mul_u64 g.trie_walk_nodes g.trie_node)
      × (contains st.touched key ≡ false → first ≡ mul_u64 g.trie_walk_nodes g.trie_node)
unfolding trie_charge trie_charge_write
trie_charge-cached g write accesses key st = (
  ground (
    arith,
    charges-contains g accesses key (touch key st) (ground (arith, bytes_eq_iff key key)),
  ),
  refl,
  (λ h. ground (arith, h)),
)

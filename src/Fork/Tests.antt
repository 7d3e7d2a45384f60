-- ===== src/Fork/Tests.antt =====
-- Storage on a fork, tested.
use near_mock.Base.{
  ◌≡◌, refl, ap, subst, inl, inr, Bool-cases, List, [], ◌∷◌, Option, none, some, Bytes, arith, ◌==◌,
  if◌then◌else◌,
}
use near_mock.Base.{bytes_Key}
use near_mock.Base.Map.{lookup}
use near_mock.State.{prefixed_key}
use near_mock.Fork.{Forked, Node, fork_read, fork_write, fork_remove, fork_untombstone, next_cursor}
use near_mock.Fork.Values.{value_of}
use near_mock.Fork.Overlay.{Serves, Mirrors, fork_read-chain}
use near_mock.Fork.Local.{fork_read-overwrites, fork_read-own}

abbrev alice : Bytes
alice = 97 ∷ []

abbrev one_key : Bytes
one_key = 1 ∷ []

-- One entry, and pages of it.
abbrev chain : Bytes → Option Bytes
chain k = if one_key == k then some (7 ∷ []) else none

abbrev node : Node
node contract prefix after = if one_key == prefix then some ((one_key, 7 ∷ []) ∷ []) else some []

abbrev page_of : Option (List (Bytes × Bytes)) → List (Bytes × Bytes)
page_of none = []
page_of (some values) = values

value_of-chain :
    (prefix : Bytes) (after : Option Bytes) (k v : Bytes)
    → value_of k (page_of (node alice prefix after)) ≡ some v
    → chain k ≡ some v
value_of-chain prefix after k v e = elim (Bool-cases (one_key == prefix)) [
  | inl here ↦ ground (arith, e, here)
  | inr other ↦ ground (arith, e, other)
]

chain-value_of :
    (prefix v : Bytes)
    → chain prefix ≡ some v
    → value_of prefix (page_of (node alice prefix none)) ≡ some v
chain-value_of prefix v e = elim (Bool-cases (one_key == prefix)) [
  | inl here ↦ ground (arith, e, here)
  | inr other ↦ ground (arith, e, other)
]

node-Serves : Serves node alice chain
node-Serves = record {
  shows = λ prefix after values k v answer.
      subst (λ vs. value_of k vs ≡ some v → chain k ≡ some v) (ap page_of answer)
        (value_of-chain prefix after k v);
  first = λ prefix v values answer there.
      subst (λ vs. value_of prefix vs ≡ some v) (ap page_of answer) (chain-value_of prefix v there);
}

abbrev empty : Forked
empty = record { storage = []; absents = [] }

empty-Mirrors : Mirrors alice chain empty
empty-Mirrors = record { stored = λ k v e. ground (arith, e); missing = λ k e. ground (arith, e) }

fork_read-chain_example :
    ((fork_read alice (some node) one_key empty).0 ≡ some (7 ∷ []))
    × Mirrors alice chain (fork_read alice (some node) one_key empty).1
fork_read-chain_example =
    fork_read-chain node-Serves one_key empty ((one_key, 7 ∷ []) ∷ []) refl empty-Mirrors

-- A node with a longer key too, which the contract has written.
abbrev two_keys : List (Bytes × Bytes)
two_keys = (one_key, 7 ∷ []) ∷ (1 ∷ 2 ∷ [], 8 ∷ []) ∷ []

abbrev wide_node : Node
wide_node contract prefix after = some two_keys

after_write : Forked
unfolding fork_write fork_untombstone
after_write = fork_write alice (1 ∷ 2 ∷ []) (9 ∷ []) empty

fork_read-overwrites_example :
    lookup
      (prefixed_key alice (1 ∷ 2 ∷ []))
      (fork_read alice (some wide_node) one_key after_write).1.storage
    ≡ some (8 ∷ [])
unfolding after_write prefixed_key next_cursor fork_write fork_untombstone
fork_read-overwrites_example =
    fork_read-overwrites alice one_key after_write wide_node two_keys (1 ∷ 2 ∷ []) refl refl refl
      refl

fork_read-own_example :
    (fork_read alice (some node) one_key (fork_write alice one_key (9 ∷ []) empty)
      ≡ (some (9 ∷ []), fork_write alice one_key (9 ∷ []) empty))
    × (fork_read alice (some node) one_key (fork_remove alice (some node) one_key empty).1
        ≡ fork_read alice (some node) one_key empty)
fork_read-own_example = fork_read-own alice one_key empty node (9 ∷ [])

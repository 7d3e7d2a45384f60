-- ===== src/Fork.antt =====
-- near_mock/mod.rs and hosts.rs: the storage of a run on a fork, which reads the entries it misses
-- from a node, and the set of the keys that it must not ask for.
pub mod Local
pub mod Overlay
pub mod Values
mod Tests
use near_mock.Base.{
  ℕ, zero, suc, ◌≡◌, Bool, true, false, not, ◌&&◌, ◌||◌, List, [], ◌∷◌, Option, none, some, Bytes,
  length, ltb, ◌==◌, if◌then◌else◌,
}
use near_mock.Base.{bytes_Key}
use near_mock.Base.Map.{Map, lookup, insert, remove, contains_key}
use near_mock.State.{prefixed_key}

-- The storage, and `FORK_ABSENT`.
pub record Forked : Type 0 where
  pub storage : Map Bytes Bytes
  pub absents : List Bytes

-- The entries of a `view_state` page of a contract, with the keys that begin with a prefix and come
-- after a cursor: base64 and JSON are read, and the block is fixed. No value stands for an error.
abbrev pub Node : Type 0
Node = Bytes → Bytes → Option Bytes → Option (List (Bytes × Bytes))

abbrev pub member : Bytes → List Bytes → Bool
member k [] = false
member k (j ∷ js) = (j == k) || member k js

abbrev pub drop_key : Bytes → List Bytes → List Bytes
drop_key k [] = []
drop_key k (j ∷ js) = if j == k then drop_key k js else j ∷ drop_key k js

abbrev pub add_key : Bytes → List Bytes → List Bytes
add_key k js = if member k js then js else k ∷ js

unfoldable pub fork_tombstone : Option Node → Bytes → Forked → Forked
fork_tombstone none k s = s
fork_tombstone (some node) k s = record s { absents = add_key k s.absents }

unfoldable pub fork_untombstone : Bytes → Forked → Forked
fork_untombstone k s = record s { absents = drop_key k s.absents }

abbrev pub page_size : ℕ
page_size = 100

abbrev pub last_key : List (Bytes × Bytes) → Option Bytes
last_key [] = none
last_key ((k, v) ∷ []) = some k
last_key ((k, v) ∷ x ∷ xs) = last_key (x ∷ xs)

-- The cursor of the next page, where there is to be one.
unfoldable pub next_cursor : List (Bytes × Bytes) → Option Bytes
next_cursor values = if ltb (length values) page_size then none else last_key values

-- The storage, whether the exact key was seen, and whether every page was answered.
pub record Paged : Type 0 where
  pub found : Bool
  pub answered : Bool
  pub entries : Map Bytes Bytes

module _ (contract : Bytes) where
  unfoldable pub insert_values : List (Bytes × Bytes) → Map Bytes Bytes → Map Bytes Bytes
  insert_values [] m = m
  insert_values ((k, v) ∷ r) m = insert_values r (insert (prefixed_key contract k) v m)

  unfoldable pub has_exact : Bytes → List (Bytes × Bytes) → Bool
  has_exact prefixed [] = false
  has_exact prefixed ((k, v) ∷ r) = (prefixed_key contract k == prefixed) || has_exact prefixed r

  unfoldable pub pages :
      Node → (raw_key prefixed : Bytes) → ℕ → Option Bytes → Bool → Map Bytes Bytes → Paged
  unfolding insert_values has_exact next_cursor
  pages node raw_key prefixed zero cursor found m = record {
    found = found;
    answered = true;
    entries = m;
  }
  pages node raw_key prefixed (suc n) cursor found m = elim (node contract raw_key cursor) [
    | none ↦ record { found = found; answered = false; entries = m }
    | some values ↦ elim (next_cursor values) [
      | none ↦ record {
        found = found || has_exact prefixed values;
        answered = true;
        entries = insert_values values m;
      }
      | some k ↦
          pages node raw_key prefixed n (some k) (found || has_exact prefixed values)
            (insert_values values m)
    ]
  ]

  -- Whether the exact key exists now, and the state after it.
  unfoldable pub fork_page_in : Option Node → (raw_key prefixed : Bytes) → Forked → Bool × Forked
  unfolding pages
  fork_page_in none raw_key prefixed s = (false, s)
  fork_page_in (some node) raw_key prefixed s = elim (member prefixed s.absents) [
    | true ↦ (false, s)
    | false ↦
        let p = pages node raw_key prefixed 8 none false s.storage in
        (
          p.found,
          record {
            storage = p.entries;
            absents = if p.answered && not p.found then add_key prefixed s.absents else s.absents;
          },
        )
  ]

  -- What `storage_read` finds.
  unfoldable pub fork_read : Option Node → Bytes → Forked → Option Bytes × Forked
  unfolding fork_page_in
  fork_read node raw_key s =
      let key = prefixed_key contract raw_key in
      elim (lookup key s.storage) [
        | some v ↦ (some v, s)
        | none ↦
            let (hit, s1) = fork_page_in node raw_key key s in
            elim hit [ true ↦ (lookup key s1.storage, s1) | false ↦ (none, s1) ]
      ]

  -- What `storage_has_key` answers.
  unfoldable pub fork_has_key : Option Node → Bytes → Forked → Bool × Forked
  unfolding fork_page_in
  fork_has_key node raw_key s =
      let key = prefixed_key contract raw_key in
      elim (contains_key key s.storage) [
        | true ↦ (true, s)
        | false ↦ fork_page_in node raw_key key s
      ]

  -- What `storage_write` and `storage_remove` change.
  unfoldable pub fork_write : (raw_key val : Bytes) → Forked → Forked
  unfolding fork_untombstone
  fork_write raw_key val s =
      let key = prefixed_key contract raw_key in
      fork_untombstone key (record s { storage = insert key val s.storage })

  unfoldable pub fork_remove : Option Node → (raw_key : Bytes) → Forked → Bool × Forked
  unfolding fork_tombstone
  fork_remove node raw_key s =
      let key = prefixed_key contract raw_key in
      elim (lookup key s.storage) [
        | none ↦ (false, s)
        | some v ↦ (true, fork_tombstone node key (record s { storage = remove key s.storage }))
      ]

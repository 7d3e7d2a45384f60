-- ===== src/Fork/Local.antt =====
-- hosts.rs: what a contract on a fork reads of its own writes and removals, and what a page does to
-- them.
use near_mock.Base.{
  ◌≡◌, refl, ap, ◌∙◌, List, ◌∷◌, none, some, Bytes, arith, Bool, true, false, not, if◌then◌else◌,
  inl, inr, Bool-cases, Option-cases,
}
use near_mock.Base.{bytes_Key, bytes_eq_iff}
use near_mock.Base.Map.{lookup, remove, lookup-insert, lookup-remove}
use near_mock.State.{prefixed_key}
use near_mock.Fork.{
  Forked, Node, member, add_key, next_cursor, insert_values, has_exact, pages, fork_page_in,
  fork_read, fork_write, fork_remove, fork_tombstone,
}
use near_mock.Fork.Values.{value_of, over, insert_values-lookup}

member-of_add : (k : Bytes) (js : List Bytes) → member k (add_key k js) ≡ true
member-of_add k js = ground (arith, bytes_eq_iff k k)

add_key-new : (k : Bytes) (js : List Bytes) → member k js ≡ false → add_key k js ≡ k ∷ js
add_key-new k js e = rw e refl

module _ (contract : Bytes) (raw_key : Bytes) (s : Forked) where
  abbrev key : Bytes
  key = prefixed_key contract raw_key

  one_page : List (Bytes × Bytes) → Bool × Forked
  one_page values = (
    has_exact contract key values,
    record {
      storage = insert_values contract values s.storage;
      absents = if not (has_exact contract key values) then key ∷ s.absents else s.absents;
    },
  )

  fork_page_in-one_page :
      (node : Node) (values : List (Bytes × Bytes))
      → member (prefixed_key contract raw_key) s.absents ≡ false
      → node contract raw_key none ≡ some values
      → next_cursor values ≡ none
      → fork_page_in contract (some node) raw_key key s ≡ one_page values
  unfolding fork_page_in pages one_page
  fork_page_in-one_page node values asked answer last =
      let paged : (pages contract node raw_key key 8 none false s.storage) ≡ record {
        found = has_exact contract key values;
        answered = true;
        entries = insert_values contract values s.storage;
      } =
        rw (answer, last, pages) refl in
      rw (asked, fork_page_in, paged, add_key-new key s.absents asked) refl

  removed : Forked
  removed = record { storage = remove key s.storage; absents = add_key key s.absents }

  fork_remove-removed :
      (node : Node) (old : Bytes)
      → lookup (prefixed_key contract raw_key) s.storage ≡ some old
      → fork_remove contract (some node) raw_key s ≡ (true, removed)
  unfolding fork_remove fork_tombstone removed
  fork_remove-removed node old e = rw (e, fork_remove) refl

  lookup_removed : lookup key removed.storage ≡ none
  unfolding removed
  lookup_removed = ground (arith, lookup-remove key key s.storage, bytes_eq_iff key key)

  member_removed : member key removed.absents ≡ true
  unfolding removed
  member_removed = member-of_add key s.absents

  fork_read-removed :
      (node : Node) → fork_read contract (some node) raw_key removed ≡ (none, removed)
  unfolding fork_read fork_page_in
  fork_read-removed node =
      let asked : fork_page_in contract (some node) raw_key key removed ≡ (false, removed) =
        rw (member_removed, fork_page_in) refl in
      let miss = ap (λ r. r.0) asked in rw (lookup_removed, miss, fork_read, asked) refl

  -- A key that is neither stored nor absent, and whose entries make up one page: the storage
  -- after a read of it has, for each key of the contract that the page shows, the page's value,
  -- also where the contract has written or removed that key; the other keys keep theirs.
  pub fork_read-overwrites :
      (node : Node) (values : List (Bytes × Bytes)) (k : Bytes)
      → lookup (prefixed_key contract raw_key) s.storage ≡ none
      → member (prefixed_key contract raw_key) s.absents ≡ false
      → node contract raw_key none ≡ some values
      → next_cursor values ≡ none
      → lookup (prefixed_key contract k) (fork_read contract (some node) raw_key s).1.storage
        ≡ over (value_of k values) (lookup (prefixed_key contract k) s.storage)
  unfolding fork_read one_page
  fork_read-overwrites node values k gone asked answer last =
      let one = fork_page_in-one_page node values asked answer last in
      let kept = insert_values-lookup contract k values s.storage in
      elim (Bool-cases (has_exact contract key values)) [
        | inl e ↦ let hit = ap (λ r. r.0) one ∙ e in rw (gone, hit, fork_read, one) kept
        | inr e ↦ let miss = ap (λ r. r.0) one ∙ e in rw (gone, miss, fork_read, one) kept
      ]

  fork_remove-unstored :
      (node : Node)
      → lookup (prefixed_key contract raw_key) s.storage ≡ none
      → fork_remove contract (some node) raw_key s ≡ (false, s)
  unfolding fork_remove
  fork_remove-unstored node e = rw (e, fork_remove) refl

  -- A read after a write yields what was written, without a question to the node. A read after a
  -- removal yields nothing where the key was stored, again without a question, and otherwise what a
  -- read without the removal yields, which may be an entry of the node.
  pub fork_read-own :
      (node : Node) (val : Bytes)
      → (fork_read contract (some node) raw_key (fork_write contract raw_key val s)
          ≡ (some val, fork_write contract raw_key val s))
        × (fork_read contract (some node) raw_key (fork_remove contract (some node) raw_key s).1
            ≡ elim (lookup (prefixed_key contract raw_key) s.storage) [
              | none ↦ fork_read contract (some node) raw_key s
              | some old ↦ (none, (fork_remove contract (some node) raw_key s).1)
            ])
  unfolding fork_read fork_write
  fork_read-own node val = (
    rw (lookup-insert key key val s.storage, (bytes_eq_iff key key).1 refl, fork_read) refl,
    elim (Option-cases (lookup (prefixed_key contract raw_key) s.storage)) [
      | inl gone ↦ rw (gone, fork_remove-unstored node gone) refl
      | inr (old, there) ↦ rw (there, fork_remove-removed node old there) (fork_read-removed node)
    ],
  )

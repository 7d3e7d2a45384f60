-- ===== src/Fork/Overlay.antt =====
-- mod.rs, `fork_page_in`, and the storage functions of hosts.rs that call it: what a run on a fork
-- reads, against the entries that its node has.
use near_mock.Base.{
  ℕ, zero, suc, ◌≡◌, ◌≢◌, refl, sym, ◌∙◌, inl, inr, Bool, true, false, not, ◌&&◌, ◌||◌, List,
  Option, none, some, Bytes, arith, if◌then◌else◌, Bool-cases, Option-cases, subst,
}
use mathlib.Core.Bool.{false≢true}
use near_mock.Base.{bytes_Key, bytes_eq_iff}
use near_mock.Base.Map.{Map, lookup}
use near_mock.State.{prefixed_key}
use near_mock.Fork.{
  Forked, Node, member, add_key, next_cursor, Paged, insert_values, has_exact, pages, fork_page_in,
  fork_read,
}
use near_mock.Fork.Values.{
  value_of, prefixed_key-same, member-add_key, insert_values-lookup, has_exact-value_of,
  value_of-has_exact,
}

-- What a node serves of a contract whose entries are `chain`: pages show entries of the contract
-- only, and the first page for a key as the prefix shows that key's own entry where there is one,
-- since it comes before all that extend it.
pub record Serves (node : Node) (contract : Bytes) (chain : Bytes → Option Bytes) : Type 0 where
  pub shows :
      (prefix : Bytes) (after : Option Bytes) (values : List (Bytes × Bytes)) (k v : Bytes)
      → node contract prefix after ≡ some values
      → value_of k values ≡ some v
      → chain k ≡ some v
  pub first :
      (prefix v : Bytes) (values : List (Bytes × Bytes))
      → node contract prefix none ≡ some values
      → chain prefix ≡ some v
      → value_of prefix values ≡ some v

-- Entries that are copies of the chain's, and absent keys that it does not have.
pub record Mirrors (contract : Bytes) (chain : Bytes → Option Bytes) (s : Forked) : Type 0 where
  pub stored :
      (k v : Bytes) → lookup (prefixed_key contract k) s.storage ≡ some v → chain k ≡ some v
  pub missing : (k : Bytes) → member (prefixed_key contract k) s.absents ≡ true → chain k ≡ none

module _ {node : Node} {contract : Bytes} {chain : Bytes → Option Bytes}
    (h : Serves node contract chain) (raw_key : Bytes) where
  abbrev Stored : Map Bytes Bytes → Type 0
  Stored m = (k v : Bytes) → lookup (prefixed_key contract k) m ≡ some v → chain k ≡ some v

  abbrev Seen : Bool → Map Bytes Bytes → Type 0
  Seen found m = found ≡ true → lookup (prefixed_key contract raw_key) m ≢ none

  insert_values-Stored :
      (cursor : Option Bytes) (values : List (Bytes × Bytes)) (m : Map Bytes Bytes)
      → node contract raw_key cursor ≡ some values
      → Stored m
      → Stored (insert_values contract values m)
  insert_values-Stored cursor values m answer s k v e = elim (Option-cases (value_of k values)) [
    | inl gone ↦ s k v (ground (arith, e, gone, insert_values-lookup contract k values m))
    | inr (u, has) ↦
        h.shows raw_key cursor values k v answer
          (ground (arith, e, has, insert_values-lookup contract k values m))
  ]

  insert_values-Seen :
      (values : List (Bytes × Bytes)) (found : Bool) (m : Map Bytes Bytes)
      → Seen found m
      → Seen
          (found || has_exact contract (prefixed_key contract raw_key) values)
          (insert_values contract values m)
  insert_values-Seen values true m s e =
      ground (arith, s, insert_values-lookup contract raw_key values m)
  insert_values-Seen values false m s e = ground (
    arith,
    has_exact-value_of contract raw_key values e,
    insert_values-lookup contract raw_key values m,
  )

  abbrev Good : Paged → Type 0
  Good p = Stored p.entries × Seen p.found p.entries

  abbrev page_rounds : ℕ → Option Bytes → Bool → Map Bytes Bytes → Paged
  page_rounds = pages contract node raw_key (prefixed_key contract raw_key)

  pages-Good :
      (n : ℕ) (cursor : Option Bytes) (found : Bool) (m : Map Bytes Bytes)
      → Stored m
      → Seen found m
      → Good (page_rounds n cursor found m)
  unfolding pages
  pages-Good zero cursor found m s seen = (s, seen)
  pages-Good (suc n) cursor found m s seen = elim (Option-cases (node contract raw_key cursor)) [
    | inl gone ↦ rw (gone, pages) (s, seen)
    | inr (values, answer) ↦
        let s1 = insert_values-Stored cursor values m answer s in
        let seen1 = insert_values-Seen values found m seen in
        elim (Option-cases (next_cursor values)) [
          | inl last ↦ rw (answer, last, pages) (s1, seen1)
          | inr (k, next) ↦
              rw (answer, next, pages)
                (pages-Good n (some k)
                  (found || has_exact contract (prefixed_key contract raw_key) values)
                  (insert_values contract values m) s1 seen1)
        ]
  ]

  pages-found :
      (n : ℕ) (cursor : Option Bytes) (m : Map Bytes Bytes)
      → (page_rounds n cursor true m).found ≡ true
  unfolding pages
  pages-found zero cursor m = refl
  pages-found (suc n) cursor m = elim (Option-cases (node contract raw_key cursor)) [
    | inl gone ↦ rw (gone, pages) refl
    | inr (values, answer) ↦ elim (Option-cases (next_cursor values)) [
      | inl last ↦ rw (answer, last, pages) refl
      | inr (k, next) ↦
          rw (answer, next, pages) (pages-found n (some k) (insert_values contract values m))
    ]
  ]

  -- The first page shows the key's entry.
  pages-first :
      (n : ℕ) (values : List (Bytes × Bytes)) (v : Bytes) (m : Map Bytes Bytes)
      → node contract raw_key none ≡ some values
      → chain raw_key ≡ some v
      → (page_rounds (suc n) none false m).found ≡ true
  unfolding pages
  pages-first n values v m answer there =
      let exact =
        value_of-has_exact contract raw_key v values (h.first raw_key v values answer there) in
      elim (Option-cases (next_cursor values)) [
        | inl last ↦ rw (answer, last, exact, pages) refl
        | inr (k, next) ↦
            rw (answer, next, exact, pages)
              (pages-found n (some k) (insert_values contract values m))
      ]

  pages-unanswered :
      (n : ℕ) (m : Map Bytes Bytes)
      → node contract raw_key none ≡ none
      → (page_rounds (suc n) none false m).answered ≡ false
  unfolding pages
  pages-unanswered n m gone = rw (gone, pages) refl

  -- A key that no page showed, where every page was answered, is not on the chain.
  pages-missing :
      (m : Map Bytes Bytes)
      → (page_rounds 8 none false m).answered ≡ true
      → (page_rounds 8 none false m).found ≡ false
      → chain raw_key ≡ none
  pages-missing m answered unseen = elim (Option-cases (chain raw_key)) [
    | inl off ↦ off
    | inr (v, there) ↦ elim (Option-cases (node contract raw_key none)) [
      | inl gone ↦ absurd (false≢true (sym (pages-unanswered 7 m gone) ∙ answered))
      | inr (values, answer) ↦
          absurd (false≢true (sym unseen ∙ pages-first 7 values v m answer there))
    ]
  ]

  fork_page_in-missing :
      (s : Forked) (p : Paged) (k : Bytes)
      → Mirrors contract chain s
      → (p.answered ≡ true → p.found ≡ false → chain raw_key ≡ none)
      → member (prefixed_key contract k) (
          if p.answered && not p.found
          then add_key (prefixed_key contract raw_key) s.absents
          else s.absents)
        ≡ true
      → chain k ≡ none
  fork_page_in-missing s p k mirrors off e = elim (Bool-cases (p.answered && not p.found)) [
    | inl marked ↦
        elim (member-add_key (prefixed_key contract k) (prefixed_key contract raw_key) s.absents
          (ground (arith, e, marked))) [
            | inl same ↦
                subst (λ j. chain j ≡ none)
                  ((bytes_eq_iff raw_key k).0 (sym (prefixed_key-same contract raw_key k) ∙ same))
                  (off (ground (arith, marked)) (ground (arith, marked)))
            | inr old ↦ mirrors.missing k old
          ]
    | inr unmarked ↦ mirrors.missing k (ground (arith, e, unmarked))
  ]

  fork_page_in-Mirrors :
      (s : Forked)
      → Mirrors contract chain s
      → Mirrors contract chain
          (fork_page_in contract (some node) raw_key (prefixed_key contract raw_key) s).1
  unfolding fork_page_in
  fork_page_in-Mirrors s mirrors =
      elim (Bool-cases (member (prefixed_key contract raw_key) s.absents)) [
        | inl absent ↦ rw (absent, fork_page_in) mirrors
        | inr asked ↦
            rw (asked, fork_page_in)
              (record {
                stored =
                    (pages-Good 8 none false s.storage mirrors.stored
                      (λ e. absurd (false≢true e))).0;
                missing = λ k e.
                    fork_page_in-missing s (page_rounds 8 none false s.storage) k mirrors
                      (pages-missing s.storage) e;
              })
      ]

  abbrev page_in : Forked → Bool × Forked
  page_in = fork_page_in contract (some node) raw_key (prefixed_key contract raw_key)

  fork_page_in-hit :
      (s : Forked)
      → Mirrors contract chain s
      → (page_in s).0 ≡ true
      → lookup (prefixed_key contract raw_key) (page_in s).1.storage ≡ chain raw_key
  unfolding fork_page_in
  fork_page_in-hit s mirrors e =
      elim (Bool-cases (member (prefixed_key contract raw_key) s.absents)) [
        | inl absent ↦ absurd (false≢true (sym (rw (absent, fork_page_in) refl) ∙ e))
        | inr asked ↦
            let good =
              pages-Good 8 none false s.storage mirrors.stored (λ f. absurd (false≢true f)) in
            let seen = good.1 (sym (rw (asked, fork_page_in) refl) ∙ e) in
            elim (Option-cases (
              lookup (prefixed_key contract raw_key)
                (page_rounds 8 none false s.storage).entries)) [
                  | inl gone ↦ absurd (seen gone)
                  | inr (v, there) ↦ rw (asked, fork_page_in) (there ∙ sym (good.0 raw_key v there))
                ]
      ]

  fork_page_in-miss :
      (s : Forked) (values : List (Bytes × Bytes))
      → node contract raw_key none ≡ some values
      → Mirrors contract chain s
      → (page_in s).0 ≡ false
      → chain raw_key ≡ none
  unfolding fork_page_in
  fork_page_in-miss s values answer mirrors e =
      elim (Bool-cases (member (prefixed_key contract raw_key) s.absents)) [
        | inl absent ↦ mirrors.missing raw_key absent
        | inr asked ↦ elim (Option-cases (chain raw_key)) [
          | inl off ↦ off
          | inr (v, there) ↦ absurd (
              false≢true
                (sym e ∙ rw (asked, fork_page_in) (pages-first 7 values v s.storage answer there)))
        ]
      ]

  -- While the stored entries are copies of the chain's and the absent keys are not on the chain, a read
  -- whose key the node answers yields the chain's value, from the storage or from the node, and
  -- leaves such a state.
  pub fork_read-chain :
      (s : Forked) (values : List (Bytes × Bytes))
      → node contract raw_key none ≡ some values
      → Mirrors contract chain s
      → ((fork_read contract (some node) raw_key s).0 ≡ chain raw_key)
        × Mirrors contract chain (fork_read contract (some node) raw_key s).1
  unfolding fork_read
  fork_read-chain s values answer mirrors =
      elim (Option-cases (lookup (prefixed_key contract raw_key) s.storage)) [
        | inr (v, there) ↦ rw (there, fork_read) (sym (mirrors.stored raw_key v there), mirrors)
        | inl gone ↦
            let after = fork_page_in-Mirrors s mirrors in
            elim (Bool-cases (page_in s).0) [
              | inl hit ↦ rw (gone, hit, fork_read) (fork_page_in-hit s mirrors hit, after)
              | inr miss ↦
                  rw (gone, miss, fork_read)
                    (sym (fork_page_in-miss s values answer mirrors miss), after)
            ]
      ]

-- ===== src/Fork/Values.antt =====
-- mod.rs, `fork_page_in`: the entries of a page, and of the storage that they are put into.
use near_mock.Base.{
  ◌≡◌, ◌≢◌, refl, ◌⊎◌, inl, inr, true, List, [], ◌∷◌, Option, none, some, Bytes, arith, ◌==◌,
  if◌then◌else◌, Option-cases,
}
use near_mock.Base.{bytes_Key}
use near_mock.Base.Map.{Map, lookup, insert, lookup-insert}
use near_mock.State.{prefixed_key}
use near_mock.Fork.{member, add_key, insert_values, has_exact}

-- The keys of one contract differ where their ends do.
pub prefixed_key-same : (c j k : Bytes) → (prefixed_key c j == prefixed_key c k) ≡ (j == k)
unfolding prefixed_key
prefixed_key-same [] j k = ground arith
prefixed_key-same (b ∷ c) j k = ground (arith, prefixed_key-same c j k)

pub member-add_key :
    (k j : Bytes) (js : List Bytes)
    → member k (add_key j js) ≡ true
    → ((j == k) ≡ true) ⊎ (member k js ≡ true)
member-add_key k j js e = ground (arith, e)

-- The last value that a page has for a key.
abbrev pub value_of : Bytes → List (Bytes × Bytes) → Option Bytes
value_of k [] = none
value_of k ((j, v) ∷ r) = elim (value_of k r) [
  | some u ↦ some u
  | none ↦ if j == k then some v else none
]

abbrev pub over : Option Bytes → Option Bytes → Option Bytes
over none old = old
over (some v) old = some v

module _ (contract : Bytes) where
  pub insert_values-lookup :
      (k : Bytes) (values : List (Bytes × Bytes)) (m : Map Bytes Bytes)
      → lookup (prefixed_key contract k) (insert_values contract values m)
        ≡ over (value_of k values) (lookup (prefixed_key contract k) m)
  unfolding insert_values
  insert_values-lookup k [] m = refl
  insert_values-lookup k ((j, v) ∷ r) m = ground (
    arith,
    insert_values-lookup k r (insert (prefixed_key contract j) v m),
    lookup-insert (prefixed_key contract j) (prefixed_key contract k) v m,
    prefixed_key-same contract j k,
  )

  pub has_exact-value_of :
      (k : Bytes) (values : List (Bytes × Bytes))
      → has_exact contract (prefixed_key contract k) values ≡ true
      → value_of k values ≢ none
  unfolding has_exact
  has_exact-value_of k [] e = ground (arith, e)
  has_exact-value_of k ((j, v) ∷ r) e =
      ground (arith, e, has_exact-value_of k r, prefixed_key-same contract j k)

  pub value_of-has_exact :
      (k v : Bytes) (values : List (Bytes × Bytes))
      → value_of k values ≡ some v
      → has_exact contract (prefixed_key contract k) values ≡ true
  unfolding has_exact
  value_of-has_exact k v [] e = ground (arith, e)
  value_of-has_exact k v ((j, u) ∷ r) e = elim (Option-cases (value_of k r)) [
    | inl none_later ↦ ground (arith, e, none_later, prefixed_key-same contract j k)
    | inr (w, later) ↦ ground (arith, value_of-has_exact k w r later)
  ]

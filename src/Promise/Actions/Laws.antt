-- ===== src/Promise/Actions/Laws.antt =====
-- promises.rs: what an action that moves value does, and what a failing one puts back.
use near_mock.Base.{
  ℕ, ◌+◌, ◌-◌, ◌<◌, ◌≡◌, ◌≢◌, inl, inr, refl, ap, false, [], ◌∷◌, ◌++◌, Option, none, some, Bytes,
  arith, length, length-append, ltb, ltb→lt, ltb→ge, ◌==◌, if◌then◌else◌, Bool-cases,
}
use near_mock.Base.{bytes_Key, bytes_eq_iff}
use near_mock.Base.Map.{Map, lookup, lookup-insert, lookup-remove}
use near_mock.State.{prefixed_key}
use near_mock.State.Balance.{
  read_amount, write_amount, read_amount-write_amount, read_amount-lt, bal_key, near_bal, add_u128,
  u128_mod, lookup-write_amount,
}
use near_mock.Promise.Actions.{
  Touched, Progress, Flow, continue, halt, put_back, revert, fail, succeed, transfer_action,
}

-- The value last recorded for a key.
abbrev pub last_recorded : Bytes → Touched → Option (Option Bytes)
last_recorded k [] = none
last_recorded k ((j, v) ∷ r) = elim (last_recorded k r) [
  | some x ↦ some x
  | none ↦ if j == k then some v else none
]

lookup-put_back :
    (j k : Bytes) (v : Option Bytes) (m : Map Bytes Bytes)
    → lookup k (put_back j v m) ≡ (if j == k then v else lookup k m)
unfolding put_back
lookup-put_back j k none m = lookup-remove j k m
lookup-put_back j k (some v) m = lookup-insert j k v m

-- After a revert each recorded key has the value last recorded for it, absent ones included, and no
-- other key changes. Where an earlier record of the same key holds an older value, that one is lost.
pub lookup-revert :
    (touched : Touched) (m : Map Bytes Bytes) (k : Bytes)
    → lookup k (revert touched m)
      ≡ elim (last_recorded k touched) [ none ↦ lookup k m | some v ↦ v ]
unfolding revert
lookup-revert [] m k = refl
lookup-revert ((j, v) ∷ r) m k =
    ground (arith, lookup-revert r (put_back j v m) k, lookup-put_back j k v m)

append-cancel : (a b s : Bytes) → a ++ s ≡ b ++ s → a ≡ b
append-cancel [] [] s e = refl
append-cancel [] (y ∷ b) s e = absurd (omega (arith, ap length e, length-append b s))
append-cancel (x ∷ a) [] s e = absurd (omega (arith, ap length e, length-append a s))
append-cancel (x ∷ a) (y ∷ b) s e = ground (arith, append-cancel a b s)

-- Different accounts have different balance entries.
pub bal_key-injective : (a b : Bytes) → bal_key a ≡ bal_key b → a ≡ b
unfolding bal_key prefixed_key
bal_key-injective a b e = append-cancel a b (1 ∷ near_bal) e

pub bal_key-distinct : (a b : Bytes) → a ≢ b → (bal_key a == bal_key b) ≡ false
bal_key-distinct a b h = ground (arith, bytes_eq_iff (bal_key a) (bal_key b), bal_key-injective a b)

-- A transfer, by how it ends: the amount leaves the sender and reaches the receiver, and nothing
-- else changes; or the sender has less, and the batch is reverted and failed.
abbrev pub Transferred : Bytes → Bytes → ℕ → Progress → Flow → Type 0
Transferred creator account amt s (continue t) =
    (read_amount t.storage (bal_key creator) + amt ≡ read_amount s.storage (bal_key creator))
    × (read_amount t.storage (bal_key account) ≡ read_amount s.storage (bal_key account) + amt)
    × ((k : Bytes)
        → k ≢ bal_key creator
        → k ≢ bal_key account
        → lookup k t.storage ≡ lookup k s.storage)
    × (t.out ≡ s.out ++ some [] ∷ [])
Transferred creator account amt s (halt t) =
    (read_amount s.storage (bal_key creator) < amt)
    × ((k : Bytes)
        → lookup k t.storage
          ≡ elim (last_recorded k s.touched) [ none ↦ lookup k s.storage | some v ↦ v ])
    × (t.out ≡ s.out ++ none ∷ [])

module _ (creator account : Bytes) (amt : ℕ) (s : Progress) where
  abbrev debited : Map Bytes Bytes
  debited = write_amount s.storage (bal_key creator) (read_amount s.storage (bal_key creator) - amt)

  abbrev credited : Map Bytes Bytes
  credited =
      write_amount debited (bal_key account) (add_u128 (read_amount debited (bal_key account)) amt)

  debited-read :
      (j : Bytes)
      → read_amount debited j ≡ (
          if bal_key creator == j
          then read_amount s.storage (bal_key creator) - amt
          else read_amount s.storage j)
  debited-read j =
      read_amount-write_amount s.storage (bal_key creator) j _
        (omega (arith, read_amount-lt s.storage (bal_key creator)))

  credited-read :
      (j : Bytes)
      → read_amount credited j ≡ (
          if bal_key account == j
          then add_u128 (read_amount debited (bal_key account)) amt
          else read_amount debited j)
  credited-read j = read_amount-write_amount debited (bal_key account) j _ (omega arith)

  -- Between different accounts, and where the receiver's balance does not overflow, a transfer
  -- moves exactly its amount, changes no other entry, and gives an empty result; if the sender has
  -- less than the amount, the result is a failed one and the storage is what the revert leaves.
  pub transfer_action-Transferred :
      creator ≢ account
      → read_amount s.storage (bal_key account) + amt < u128_mod
      → Transferred creator account amt s (transfer_action creator account amt s)
  unfolding transfer_action fail succeed
  transfer_action-Transferred differ fit =
      elim (Bool-cases (ltb (read_amount s.storage (bal_key creator)) amt)) [
        | inl e ↦
            rw (e, transfer_action) (ltb→lt _ _ e, (λ k. lookup-revert s.touched s.storage k), refl)
        | inr e ↦
            let apart = bal_key-distinct creator account differ in
            rw (e, transfer_action)
              (
                ground (
                  arith,
                  ltb→ge (read_amount s.storage (bal_key creator)) amt e,
                  credited-read (bal_key creator),
                  debited-read (bal_key creator),
                  bytes_eq_iff (bal_key creator) (bal_key creator),
                  bytes_eq_iff (bal_key account) (bal_key creator),
                  bytes_eq_iff (bal_key creator) (bal_key account),
                ),
                ground (
                  arith,
                  credited-read (bal_key account),
                  debited-read (bal_key account),
                  bytes_eq_iff (bal_key account) (bal_key account),
                ),
                (λ k h h'. ground (
                  arith,
                  lookup-write_amount debited (bal_key account) k
                      (add_u128 (read_amount debited (bal_key account)) amt),
                  lookup-write_amount s.storage (bal_key creator) k
                      (read_amount s.storage (bal_key creator) - amt),
                  bytes_eq_iff (bal_key account) k,
                  bytes_eq_iff (bal_key creator) k,
                )),
                refl,
              )
      ]

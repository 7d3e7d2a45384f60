-- ===== src/Tx/Entry/Commit.antt =====
-- mod.rs, `execute_tx`: a transaction whose entry returns leaves no receipt behind.
use near_mock.Base.{ℕ, ◌<◌, ◌≡◌, ◌⊎◌, true, false, List, [], ◌++◌, length}
use near_mock.Base.Map.{Map}
use near_mock.Promise.{PromiseBatch, World, Res, ok, error, stop}
use near_mock.Promise.Execute.{mem}
use near_mock.Tx.{TxOutcome}

-- Every receipt was executed, or all went to the queue and none is left in the DAG.
abbrev pub Delivered : List PromiseBatch → World → Res TxOutcome → Type 0
Delivered queued w (ok o w') =
    ((w.defer_receipts ≡ false) × ((j : ℕ) → j < length w'.dag → mem j w'.executed ≡ true))
    ⊎ ((w.defer_receipts ≡ true)
        × (w'.dag ≡ [])
        × (w'.receipt_queue ≡ queued ++ w.dag)
        × (w'.defer_receipts ≡ false))
Delivered queued w (error w') = w.defer_receipts ≡ false
Delivered queued w (stop s) = Unit

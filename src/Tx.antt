-- ===== src/Tx.antt =====
-- near_mock/mod.rs, `execute_tx` and `settle_receipts`: a transaction over the promise engine, and
-- the later delivery of receipts that a transaction left in the queue.
pub mod Panics
pub mod Drain
pub mod Entry
pub mod Settle
mod Tests
use near_mock.Base.{ℕ, Bool, false, List, [], Option, none, some, Bytes}
use near_mock.Promise.{Results, World}

-- `TxOutcome::error`, of which the source makes a text.
pub data TxError : Type 0 where
  entry_failed : Option Bytes → TxError
  chain_failed : TxError
  final_receipt_failed : Option Bytes → TxError

-- Without the gas that the entry burned, which the WebAssembly engine counts.
pub record TxOutcome : Type 0 where
  pub ok : Bool
  pub return_data : Option Bytes
  pub receipt_results : Results
  pub entry_trapped : Bool
  pub error : Option TxError
  pub receipt_failures : List Bytes
  pub orphan_failures : ℕ
  pub logs : List Bytes

unfoldable pub fresh_tx_state : World → World
fresh_tx_state w = record w {
  st = record w.st { return_data = none; registers = [] };
  dag = [];
  executed = [];
  promise_results = [];
  pending_return = none;
  logs = [];
  receipt_traps = [];
  outcomes = [];
}

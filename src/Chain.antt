-- ===== src/Chain.antt =====
-- chain.rs, with the helpers of mod.rs that it calls: the library's chain, on which calls are built and
-- fired. The chain is installed on its thread, without a fork.

pub mod Deferred
pub mod Clock
mod Tests
use near_mock.Base.{
  ℕ, ◌+◌, ◌%◌, Bool, true, false, not, ◌&&◌, ◌||◌, List, [], ◌∷◌, ◌++◌, Option, none, some, Bytes,
  length, if◌then◌else◌,
}
use near_mock.Base.{bytes_Key}
use near_mock.Base.Map.{lookup}
use near_mock.Base.Utf8.{from_utf8_lossy}
use near_mock.State.{prefixed_key}
use near_mock.Promise.{World, Results, Res, ok, error, stop}
use near_mock.Promise.Call.{Modules}
use near_mock.Tx.{TxError, TxOutcome}
use near_mock.Tx.Entry.{Request, execute_tx}
use near_mock.Tx.Settle.{SettleReport, settle_receipts}

pub record CallOutcome : Type 0 where
  pub ok : Bool
  pub return_data : Option Bytes
  pub receipt_results : Results
  pub entry_trapped : Bool
  pub error : Option TxError
  pub receipt_failures : List Bytes
  pub orphan_failures : ℕ
  pub logs : List Bytes

-- `From<TxOutcome>`
unfoldable pub from_outcome : TxOutcome → CallOutcome
from_outcome o = record {
  ok = o.ok;
  return_data = o.return_data;
  receipt_results = o.receipt_results;
  entry_trapped = o.entry_trapped;
  error = o.error;
  receipt_failures = o.receipt_failures;
  orphan_failures = o.orphan_failures;
  logs = o.logs;
}

unfoldable pub return_string : CallOutcome → Option Bytes
return_string o = elim o.return_data [ none ↦ none | some d ↦ some (from_utf8_lossy d) ]

pub record CallBuilder : Type 0 where
  pub contract : Bytes
  pub method : Bytes
  pub args : Bytes
  pub args_raw : Option Bytes
  pub signer : Bytes
  pub attach : ℕ
  pub view : Bool
  pub fail_receipts : List ℕ

-- "{}"
abbrev pub empty_args : Bytes
empty_args = 123 ∷ 125 ∷ []

-- A call by the chain's signer.
unfoldable pub chain_call : Bytes → Bytes → Bytes → CallBuilder
chain_call signer contract method = record {
  contract = contract;
  method = method;
  args = empty_args;
  args_raw = none;
  signer = signer;
  attach = 0;
  view = false;
  fail_receipts = [];
}

unfoldable pub chain_view : Bytes → Bytes → Bytes → CallBuilder
unfolding chain_call
chain_view signer contract method = record (chain_call signer contract method) { view = true }

unfoldable pub with_args : Bytes → CallBuilder → CallBuilder
with_args json b = record b { args = json }

unfoldable pub args_bytes : Bytes → CallBuilder → CallBuilder
args_bytes v b = record b { args_raw = some v }

unfoldable pub from_account : Bytes → CallBuilder → CallBuilder
from_account account b = record b { signer = account }

unfoldable pub attach_yocto : ℕ → CallBuilder → CallBuilder
attach_yocto yocto b = record b { attach = yocto }

unfoldable pub fail_receipt : ℕ → CallBuilder → CallBuilder
fail_receipt idx b = record b { fail_receipts = b.fail_receipts ++ idx ∷ [] }

-- The arguments of `execute_tx`; raw arguments come before the text.
abbrev pub request_of : CallBuilder → Request
request_of b = record {
  contract_acct = b.contract;
  method = b.method;
  args = elim b.args_raw [ none ↦ b.args | some v ↦ v ];
  signer = b.signer;
  attach = b.attach;
  fail_receipts = b.fail_receipts;
  view = b.view;
}

unfoldable pub mock_state_view_set : Bool → World → World
mock_state_view_set v w = record w { st = record w.st { view = v } }

abbrev pub differ : Bool → Bool → Bool
differ a b = a && not b || not a && b

-- `if self.view != saved_view { mock_state_view_set(..) }`
unfoldable pub flip_view : Bool → Bool → Bool → World → World
unfolding mock_state_view_set
flip_view view saved to w = if differ view saved then mock_state_view_set to w else w

unfoldable pub pending_receipts : World → ℕ
pending_receipts w = length w.receipt_queue

unfoldable pub storage_len : World → ℕ
storage_len w = length w.st.storage

unfoldable pub storage_get : Bytes → Bytes → World → Option Bytes
storage_get account key w = lookup (prefixed_key account key) w.st.storage

unfoldable pub set_defer_receipts : Bool → World → World
set_defer_receipts v w = record w { defer_receipts = v }

module _ (modules : Modules) (started : Bytes → World → World) (depth rounds : ℕ) where
  unfoldable pub fire : CallBuilder → World → Res CallOutcome
  unfolding flip_view from_outcome
  fire b w =
      let saved_view = w.st.view in
      elim (execute_tx modules started depth rounds (request_of b)
        (flip_view b.view saved_view b.view w)) [
          | ok outcome w' ↦ ok (from_outcome outcome) (flip_view b.view saved_view saved_view w')
          | error w' ↦ error (flip_view b.view saved_view saved_view w')
          | stop s ↦ stop s
        ]

  unfoldable pub fire_deferred : CallBuilder → World → Res CallOutcome
  unfolding fire set_defer_receipts
  fire_deferred b w = fire b (set_defer_receipts true w)

unfoldable pub settle : Modules → ℕ → ℕ → World → Res SettleReport
settle modules depth rounds w = settle_receipts modules depth rounds w

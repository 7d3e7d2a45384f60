-- ===== src/Lib.antt =====
-- near-mock runs NEAR contracts without a node: a transaction calls a contract's WebAssembly code,
-- which reaches the storage and schedules promises through host functions; the promises form a DAG
-- of receipts, each executed once, its dependencies first.
--
-- The files, and the code each one models:
--   Base: lists and byte strings over the native numbers, maps, decimal text, residues, and UTF-8
--     with replacement in Base/Utf8.
--   State (src/near_mock/state.rs): the storage of all accounts, `prefixed_key`, the snapshot and
--     restore of one account's partition, `write_reg_checked`. State/Balance is the balance entry
--     that promises.rs, mod.rs and hosts.rs read and write in line.
--   Promise (src/near_mock/promises.rs): the state behind the thread-local cells as one record,
--     `World`. Promise/Actions has the arms of `execute_promise_uncached` that call no contract,
--     Promise/Call is `sub_execute`, Promise/Execute is `execute_promise`.
--   Tx (src/near_mock/mod.rs): Tx/Entry is `execute_tx`, Tx/Drain its loop over receipts that nothing
--     has executed, Tx/Settle is `settle_receipts`, Tx/Panics is `extract_panic`.
--   Chain (src/near_mock/chain.rs): the calls that the library builds and fires, and its clock.
--   Host (src/near_mock/hosts.rs, and `build_promise_hosts` of src/near_mock/mod.rs): the host
--     functions on storage in Host/Storage, on registers in Host/Registers, on promises in
--     Host/Promises, the batch actions in Host/Actions, account, block, log and panic functions in
--     Host/Context, the seed and the validators in Host/Block, digests and signatures in
--     Host/Crypto, curves in Host/Curves. Host/Program is a contract as a tree of calls, with the
--     instructions of WebAssembly between two calls as a change of memory and gas, and
--     Host/Program/Contracts makes the code of all accounts from such trees. Host/Guest has the
--     contracts that call storage and registers only, Host/Contract those that call any of these
--     functions but `promise_yield_resume`, which runs the callback of another contract and is on
--     its own in Host/Promises/Resume. The memory is always exported, arguments and results of a
--     call are their 64 bits as a number, and environment variables enter as parsed, in `Env`.
--     Host/Storage/Refines states what the storage functions promise, as a map from keys to values.
--   Fork (src/near_mock/mod.rs, `fork_page_in`): local entries over those of a node, with the storage
--     functions of src/near_mock/hosts.rs on them. The node is a function of the contract, the prefix
--     and the cursor, whose values are the pages that can be decoded. Host has no fork.
--   Bls (src/near_mock/bls_validate.rs), Bn254 (src/near_mock/bn254.rs) and CryptoReal
--     (src/near_mock/crypto_real.rs): what surrounds the crates of the curves, whose functions are
--     fields of records.
--   Gas (src/near_mock/gas.rs): `GasSchedule` with the strict reading of its JSON form in
--     Gas/Schedule, the trie charges in Gas/Trie and storage staking in Gas/Staking.
--   Schnorr (src/near_mock/schnorr.rs): 256-bit arithmetic on four 64-bit limbs, the field and the
--     curve of secp256k1, SHA-256, `schnorr_verify_impl`.
--
--   NameMap (src/near_mock/name_map.rs): the reader of the name section; NameMap/Rounds shows that the
--     fuel of its loops, the number of bytes, is enough.
--
-- A hash map is an association list with distinct keys. A u128 sum wraps, as in a release build. The
-- WebAssembly engine with a contract's code is a parameter, `Modules`: a function of the method and
-- the world. A theorem that relies on what contracts cannot reach says so by `KeepsMemo`.
-- `execute_promise` runs on fuel, the depth of its recursion, and Tx/Drain and Tx/Settle on fuel for
-- their rounds; without fuel they stop with a value of its own, which is no result.
-- Promise/Execute/Depth says how much is enough. A panic, such as an index
-- outside the DAG, is such a stop too; one in a host function is `crashed`. The
-- loop of SHA-256 over whole blocks runs on the number of bytes, of which each round takes 64.
--
-- Not modelled: printed traces, the command line, the fork's network access, the linker, and the
-- third-party crates for WebAssembly, the curves and the digests.
pub mod Base
pub mod State
pub mod Promise
pub mod Host
pub mod Tx
pub mod Gas
pub mod Schnorr
pub mod Bls
pub mod Bn254
pub mod CryptoReal
pub mod NameMap
pub mod Chain
pub mod Fork

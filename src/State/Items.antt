-- ===== src/State/Items.antt =====
-- ecosystem/state/transaction_database_store.cpp: how an item is written and read.
pub mod RoundTrip
use req_pack_core.Prelude.{
  ℕ, zero, suc, ◌+◌, ◌-◌, ◌*◌, ◌/◌, ◌%◌, ◌^◌, ◌<◌, ltb, leb, Bool, true, false, not, ◌&&◌, ◌||◌,
  ◌==◌, if◌then◌else◌, nat_eq, Text, text_eq, codes, List, [], ◌∷◌, ◌++◌, Option, none, some, ℤ,
  pos, is_empty, starts_with, take, drop, length,
}
use req_pack_core.Types.{ActionType, Package, empty_package}
use req_pack_core.Decimal.{to_string, stoul, stoi}
use req_pack_core.State.Records.{TransactionItemRecord, ActionCodes}
use req_pack_core.State.Keys.{parse_item_key}
use req_pack_core.State.Fields.{
  split_first, getlines, field, transaction_database_escape_field,
  transaction_database_unescape_field,
}

module _ (actions : ActionCodes) where
  open actions use {code, of_code}

  pub transaction_database_serialize_item : TransactionItemRecord → Text
  transaction_database_serialize_item item =
      codes "sequence="
      ++ (to_string item.sequence
          ++ (10
              ∷ (codes "action="
                  ++ (to_string (code item.pkg.action)
                      ++ (10
                          ∷ field (codes "system=") item.pkg.system (
                              field (codes "name=") item.pkg.name (
                                field (codes "version=") item.pkg.version (
                                  field (codes "sourcePath=") item.pkg.source_path (
                                    codes "localTarget="
                                    ++ ((if item.pkg.local_target then b'1' else b'0')
                                        ∷ 10
                                        ∷ field (codes "status=") item.status
                                            (field (codes "error=") item.error_message [])))))))))))

-- To go on, unless the function has returned `std::nullopt`.
and_then : {A : Type 0} → Option A → (A → Option A) → Option A
and_then none f = none
and_then (some a) f = f a

-- The variables of the loop of `deserialize_item`.
pub record ItemParse : Type 0 where
  pub item : TransactionItemRecord
  pub has_sequence : Bool
  pub has_action : Bool
  pub has_system : Bool
  pub has_name : Bool
  pub has_version : Bool
  pub has_source_path : Bool
  pub has_local_target : Bool
  pub has_status : Bool
  pub has_error : Bool

-- `item.package.… = value`
set_package : ItemParse → (Package → Package) → ItemParse
set_package p f = record p { item = record (p.item) { pkg = f p.item.pkg } }

set_sequence : Option ℕ → ItemParse → Option ItemParse
set_sequence none p = none
set_sequence (some n) p =
    some (record p { item = record (p.item) { sequence = n }; has_sequence = true })

set_local_target : Text → ItemParse → Option ItemParse
unfolding set_package
set_local_target value p =
    if value == codes "1"
    then some
        (record (set_package p (λ q. record q { local_target = true })) { has_local_target = true })
    else if value == codes "0"
    then some (record (set_package p (λ q. record q { local_target = false })) {
      has_local_target = true;
    })
    else none

module _ (actions : ActionCodes) where
  open actions use {code, of_code}

  set_action : Option ℤ → ItemParse → Option ItemParse
  unfolding set_package
  set_action none p = none
  set_action (some n) p =
      some (record (set_package p (λ q. record q { action = of_code n })) { has_action = true })

  -- One line's assignment; `none` is the early `return std::nullopt`.
  set_item_field : Text → Text → ItemParse → Option ItemParse
  unfolding set_sequence set_action set_package set_local_target
  set_item_field key value p =
      if key == codes "sequence"
      then set_sequence (stoul value) p
      else if key == codes "action"
      then set_action (stoi value) p
      else if key == codes "system"
      then some (record (set_package p (λ q. record q { system = value })) { has_system = true })
      else if key == codes "name"
      then some (record (set_package p (λ q. record q { name = value })) { has_name = true })
      else if key == codes "version"
      then some (record (set_package p (λ q. record q { version = value })) { has_version = true })
      else if key == codes "sourcePath"
      then some (record (set_package p (λ q. record q { source_path = value })) {
        has_source_path = true;
      })
      else if key == codes "localTarget"
      then set_local_target value p
      else if key == codes "status"
      then some (record p { item = record (p.item) { status = value }; has_status = true })
      else if key == codes "error"
      then some (record p { item = record (p.item) { error_message = value }; has_error = true })
      else some p

  read_split_line : Option (Text × Text) → ItemParse → Option ItemParse
  unfolding set_item_field
  read_split_line none p = some p
  read_split_line (some (key, value)) p =
      set_item_field key (transaction_database_unescape_field value) p

  -- Once a line has returned `std::nullopt`, no later line is read.
  read_item_lines : List Text → Option ItemParse → Option ItemParse
  unfolding read_split_line split_first and_then
  read_item_lines [] p = p
  read_item_lines (line ∷ rest) p =
      read_item_lines rest (and_then p (read_split_line (split_first b'=' line)))

finish_item : ItemParse → Option TransactionItemRecord
finish_item p =
    if is_empty p.item.run_id
      || is_empty p.item.item_id
      || not p.has_sequence
      || not p.has_action
      || not p.has_system
      || not p.has_name
      || not p.has_version
      || not p.has_source_path
      || not p.has_local_target
      || not p.has_status
      || not p.has_error
      || is_empty p.item.status
    then none
    else some p.item

abbrev fresh_item : Text → Text → ItemParse
fresh_item run_id item_id = record {
  item = record {
    run_id = run_id;
    item_id = item_id;
    sequence = 0;
    pkg = empty_package;
    status = [];
    error_message = [];
  };
  has_sequence = false;
  has_action = false;
  has_system = false;
  has_name = false;
  has_version = false;
  has_source_path = false;
  has_local_target = false;
  has_status = false;
  has_error = false;
}

finish_read : Option ItemParse → Option TransactionItemRecord
unfolding finish_item
finish_read none = none
finish_read (some p) = finish_item p

module _ (actions : ActionCodes) where
  -- The payload of the item that the key names.
  read_payload : Text → Option (Text × Text) → Option TransactionItemRecord
  unfolding read_item_lines finish_read getlines
  read_payload payload none = none
  read_payload payload (some (run_id, item_id)) =
      finish_read (read_item_lines actions (getlines 10 payload) (some (fresh_item run_id item_id)))

  unfoldable pub transaction_database_deserialize_item : Text → Text → Option TransactionItemRecord
  unfolding read_payload
  transaction_database_deserialize_item key payload = read_payload payload (parse_item_key key)

-- ===== src/State/Database/Changes/Samples.antt =====
-- The operations on a store in memory.
use req_pack_core.Prelude.{
  ℕ, ◌+◌, true, false, if◌then◌else◌, nat_eq, Text, text_eq, text_beq, codes, List, [], ◌∷◌, none,
  starts_with, ◌≡◌, refl,
}
use req_pack_core.Types.{Package, empty_package, install}
use req_pack_core.Decimal.{to_string, stoul, stoi}
use req_pack_core.State.Records.{ActionCodes}
use req_pack_core.State.Keys.{
  transaction_database_run_key, transaction_database_item_key, transaction_database_item_prefix,
  transaction_database_item_id_for_package,
}
use req_pack_core.State.Fields.{transaction_database_unescape_field}
use req_pack_core.State.Keys.{
  to_hex, fnv1a_hash, transaction_database_package_token, parse_item_key,
}
use req_pack_core.State.Items.{transaction_database_deserialize_item}
use req_pack_core.State.Runs.{transaction_database_deserialize_run}
use req_pack_core.State.Store.{value_in, scan_prefix, key_lt}
use req_pack_core.State.Store.Prefix.{value_in-scan_prefix}
use req_pack_core.State.Store.Memory.{
  memory, memory-IsStore, Writes, delete_found, without, sorted, insert, from_key,
}
use req_pack_core.State.Database.{TransactionDatabase, ensure_ready}
use req_pack_core.State.Database.Changes.{
  update_items_status, mark_run_state, mark_run_committed, delete_run,
}
use req_pack_core.State.Database.Frame.{IsForeign}
use req_pack_core.State.Database.Changes.Foreign.{changes-IsForeign}
use req_pack_core.State.Database.Changes.Update.{MarkedAll, update_items_status-Marked}
use req_pack_core.State.Database.Changes.Failure.{update_items_status_unchanged}
use req_pack_core.State.Database.Changes.Commit.{CommittedRun, mark_run_committed-CommittedRun}
use req_pack_core.State.Database.Changes.Delete.{delete_run-Gone}

abbrev no_codes : ActionCodes
no_codes = record { code = λ a. 1; of_code = λ n. install }

abbrev millis : ℕ → ℕ
millis n = 1700 + n

-- A database with a run of one item.
abbrev item_key : Text
item_key = transaction_database_item_key no_codes (codes "7") empty_package

abbrev stored_database : TransactionDatabase Writes
stored_database = record {
  initialized = true;
  env =
      (codes "meta:active_run", codes "7")
      ∷ (codes "run:7", codes "state=open\ncreatedAt=1\nupdatedAt=1\nflags=\n")
      ∷ (
        item_key,
        codes
            "sequence=0\naction=1\nsystem=npm\nname=a\nversion=\nsourcePath=\nlocalTarget=0\nstatus=planned\nerror=\n",
      )
      ∷ [];
  readings = 0;
}

other_key-IsForeign : IsForeign (codes "7") (codes "run:8")
unfolding transaction_database_run_key transaction_database_item_prefix text_beq starts_with
other_key-IsForeign = record { not_active = refl; not_run = refl; not_item = refl }

changes-IsForeign_example :
    (value_in
        (update_items_status memory no_codes millis
          (codes "7")
          (empty_package ∷ [])
          (codes "running")
          []
          stored_database).1.env
        (codes "run:8")
      ≡ value_in stored_database.env (codes "run:8"))
    × (value_in
          (mark_run_state memory no_codes millis (codes "7") (codes "failed") stored_database).1.env
          (codes "run:8")
        ≡ value_in stored_database.env (codes "run:8"))
    × (value_in
          (mark_run_committed memory no_codes millis (codes "7") stored_database).1.env
          (codes "run:8")
        ≡ value_in stored_database.env (codes "run:8"))
    × (value_in
          (delete_run memory no_codes millis (codes "7") stored_database).1.env
          (codes "run:8")
        ≡ value_in stored_database.env (codes "run:8"))
changes-IsForeign_example =
    changes-IsForeign memory memory-IsStore no_codes millis (codes "7") (codes "run:8")
      other_key-IsForeign stored_database (empty_package ∷ []) (codes "running") [] (codes "failed")

is_ready : (ensure_ready memory no_codes millis stored_database).0 ≡ true
unfolding ensure_ready
is_ready = refl

deletes : (delete_run memory no_codes millis (codes "7") stored_database).0 ≡ true
unfolding delete_run scan_prefix to_hex fnv1a_hash transaction_database_package_token to_string
    stoul stoi parse_item_key transaction_database_item_id_for_package
    transaction_database_deserialize_item transaction_database_deserialize_run value_in text_beq
    delete_found without sorted insert from_key starts_with key_lt transaction_database_run_key
    transaction_database_item_prefix transaction_database_item_key
deletes = refl

prefixed : starts_with item_key (transaction_database_item_prefix (codes "7")) ≡ true
unfolding transaction_database_item_key transaction_database_item_prefix starts_with
prefixed = refl

delete_run-Gone_example :
    value_in (delete_run memory no_codes millis (codes "7") stored_database).1.env item_key ≡ none
delete_run-Gone_example =
    delete_run-Gone memory memory-IsStore no_codes millis (codes "7") item_key stored_database
      is_ready refl refl prefixed deletes

commits : (mark_run_committed memory no_codes millis (codes "7") stored_database).0 ≡ true
unfolding mark_run_committed scan_prefix to_hex fnv1a_hash transaction_database_package_token
    to_string stoul stoi parse_item_key transaction_database_item_id_for_package
    transaction_database_deserialize_item transaction_database_deserialize_run value_in text_beq
    delete_found without sorted insert from_key starts_with key_lt transaction_database_run_key
    transaction_database_item_prefix transaction_database_item_key
    transaction_database_unescape_field
commits = refl

mark_run_committed-CommittedRun_example :
    CommittedRun memory memory-IsStore no_codes millis
      (codes "7")
      (mark_run_committed memory no_codes millis (codes "7") stored_database).1.env
mark_run_committed-CommittedRun_example =
    mark_run_committed-CommittedRun memory memory-IsStore no_codes millis (codes "7")
      stored_database commits

-- The package of the second update is not in the run.
abbrev two_packages : List Package
two_packages = empty_package ∷ record empty_package { name = codes "b" } ∷ []

fails :
    (update_items_status memory no_codes millis
      (codes "7")
      two_packages
      (codes "running")
      []
      stored_database).0
    ≡ false
unfolding update_items_status to_hex fnv1a_hash transaction_database_package_token to_string stoul
    stoi parse_item_key transaction_database_item_id_for_package
    transaction_database_deserialize_item transaction_database_deserialize_run value_in text_beq
    transaction_database_item_key transaction_database_item_prefix transaction_database_run_key
    transaction_database_unescape_field
fails = refl

update_items_status_unchanged_example :
    value_in
      (update_items_status memory no_codes millis
        (codes "7")
        two_packages
        (codes "running")
        []
        stored_database).1.env
      item_key
    ≡ value_in stored_database.env item_key
update_items_status_unchanged_example =
    update_items_status_unchanged memory memory-IsStore no_codes millis (codes "7") item_key
      stored_database two_packages (codes "running") [] fails

updates :
    (update_items_status memory no_codes millis
      (codes "7")
      (empty_package ∷ [])
      (codes "running")
      []
      stored_database).0
    ≡ true
unfolding update_items_status to_hex fnv1a_hash transaction_database_package_token to_string stoul
    stoi parse_item_key transaction_database_item_id_for_package
    transaction_database_deserialize_item transaction_database_deserialize_run value_in text_beq
    transaction_database_item_key transaction_database_item_prefix transaction_database_run_key
    transaction_database_unescape_field
updates = refl

update_items_status-Marked_example :
    MarkedAll memory memory-IsStore no_codes
      (codes "running")
      []
      millis
      (codes "7")
      (empty_package ∷ [])
      (update_items_status memory no_codes millis
        (codes "7")
        (empty_package ∷ [])
        (codes "running")
        []
        stored_database).1.env
update_items_status-Marked_example =
    update_items_status-Marked memory memory-IsStore no_codes (codes "running") [] millis
      (codes "7") (empty_package ∷ []) stored_database updates

value_in-scan_prefix_example :
    value_in (scan_prefix memory stored_database.env (codes "run:")) (codes "run:7") ≡ (
      if starts_with (codes "run:7") (codes "run:")
      then value_in stored_database.env (codes "run:7")
      else none)
value_in-scan_prefix_example =
    value_in-scan_prefix memory stored_database.env (codes "run:") (codes "run:7") memory-IsStore
      (λ e. cc) refl

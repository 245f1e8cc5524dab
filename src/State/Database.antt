-- ===== src/State/Database.antt =====
-- ecosystem/state/transaction_database.cpp, transaction_database_read.cpp and
-- transaction_database_write.cpp: the operations of `TransactionDatabase` over LMDB. An operation
-- takes and gives back the whole database, as the step of a single thread: what another thread does
-- while the mutex is free between the critical sections of one operation is not modelled.
pub mod Changes
pub mod Frame
pub mod Outcome
pub mod Written
pub mod Create
pub mod Exclusive
mod Samples
use req_pack_core.Prelude.{
  ℕ, zero, suc, ◌+◌, ltb, leb, Bool, true, false, not, ◌&&◌, ◌||◌, ◌==◌, if◌then◌else◌, nat_eq,
  Text, text_eq, codes, List, [], ◌∷◌, ◌++◌, Option, none, some, is_empty, length,
}
use req_pack_core.Types.{Package}
use req_pack_core.Decimal.{to_string}
use req_pack_core.State.Records.{TransactionRunRecord, TransactionItemRecord, ActionCodes}
use req_pack_core.State.Keys.{
  transaction_database_run_key, transaction_database_item_prefix, transaction_database_item_key,
  transaction_database_item_id_for_package,
}
use req_pack_core.State.Runs.{
  transaction_database_serialize_run, transaction_database_deserialize_run,
}
use req_pack_core.State.Items.{
  transaction_database_serialize_item, transaction_database_deserialize_item,
}
use req_pack_core.State.Store.{Lmdb, scan_prefix}

abbrev pub active_run_key : Text
active_run_key = codes "meta:active_run"

-- `initialized`, the environment, and how often the clock has been read.
pub record TransactionDatabase (D : Type 0) : Type 0 where
  pub initialized : Bool
  pub env : D
  pub readings : ℕ

pub and_then : {A B : Type 0} → Option A → (A → Option B) → Option B
and_then none f = none
and_then (some a) f = f a

-- `activeRun.has_value() && !activeRun->empty()`
abbrev pub has_text : Option Text → Bool
has_text none = false
has_text (some t) = not (is_empty t)

insert_by_sequence : TransactionItemRecord → List TransactionItemRecord → List TransactionItemRecord
insert_by_sequence item [] = item ∷ []
insert_by_sequence item (first ∷ rest) =
    if leb item.sequence first.sequence
    then item ∷ first ∷ rest
    else first ∷ insert_by_sequence item rest

-- `std::sort` by the sequence number.
pub sort_by_sequence : List TransactionItemRecord → List TransactionItemRecord
unfolding insert_by_sequence
sort_by_sequence [] = []
sort_by_sequence (item ∷ rest) = insert_by_sequence item (sort_by_sequence rest)

push_item : Option TransactionItemRecord → List TransactionItemRecord → List TransactionItemRecord
push_item none items = items
push_item (some item) items = item ∷ items

-- The run as it is created.
abbrev pub open_record : Text → Text → List Text → TransactionRunRecord
open_record timestamp run_id flags = record {
  id = run_id;
  state = codes "open";
  created_at = timestamp;
  updated_at = timestamp;
  flags = flags;
}

abbrev pub planned_item : ActionCodes → Text → ℕ → Package → TransactionItemRecord
planned_item actions run_id index pkg = record {
  run_id = run_id;
  item_id = transaction_database_item_id_for_package actions pkg;
  sequence = index;
  pkg = pkg;
  status = codes "planned";
  error_message = [];
}

-- The timestamp with the number of packages.
pub new_run_id : Text → List Package → Text
new_run_id timestamp packages = timestamp ++ (b'-' ∷ to_string (length packages))

-- The parameters are LMDB, the numbers of the actions and the milliseconds of each reading of the
-- clock.
module _ {D : Type 0} (lmdb : Lmdb D) (actions : ActionCodes) (clock : ℕ → ℕ) where
  pub init_storage : TransactionDatabase D → Bool × TransactionDatabase D
  init_storage t =
      let opened = lmdb.open_environment t.env in
      if t.initialized
      then (true, t)
      else (opened.0, record t { initialized = opened.0; env = opened.1 })

  pub ensure_ready : TransactionDatabase D → Bool × TransactionDatabase D
  unfolding init_storage
  ensure_ready t = init_storage t

  pub now_timestamp : TransactionDatabase D → Text × TransactionDatabase D
  now_timestamp t = (to_string (clock t.readings), record t { readings = t.readings + 1 })

  pub load_string : Text → TransactionDatabase D → Option Text × TransactionDatabase D
  unfolding ensure_ready
  load_string key t =
      let ready = ensure_ready t in
      if ready.0 && lmdb.begins_read ready.1.env
      then (lmdb.get ready.1.env key, ready.1)
      else (none, ready.1)

  pub load_prefixed_entries :
      Text → TransactionDatabase D → List (Text × Text) × TransactionDatabase D
  unfolding ensure_ready
  load_prefixed_entries prefix t =
      let ready = ensure_ready t in
      if ready.0 && lmdb.begins_read ready.1.env
      then (scan_prefix lmdb ready.1.env prefix, ready.1)
      else ([], ready.1)

  read_run :
      Text
      → Option Text × TransactionDatabase D
      → Option TransactionRunRecord × TransactionDatabase D
  read_run run_id (none, t) = (none, t)
  read_run run_id (some payload, t) = (transaction_database_deserialize_run run_id payload, t)

  read_active :
      Option Text × TransactionDatabase D → Option TransactionRunRecord × TransactionDatabase D
  unfolding read_run load_string
  read_active (none, t) = (none, t)
  read_active (some run_id, t) =
      if is_empty run_id
      then (none, t)
      else read_run run_id (load_string (transaction_database_run_key run_id) t)

  pub get_active_run : TransactionDatabase D → Option TransactionRunRecord × TransactionDatabase D
  unfolding read_active load_string
  get_active_run t = read_active (load_string active_run_key t)

  pub items_of : List (Text × Text) → List TransactionItemRecord
  unfolding push_item
  items_of [] = []
  items_of ((key, value) ∷ rest) =
      push_item (transaction_database_deserialize_item actions key value) (items_of rest)

  pub get_run_items :
      Text → TransactionDatabase D → List TransactionItemRecord × TransactionDatabase D
  unfolding load_prefixed_entries items_of sort_by_sequence
  get_run_items run_id t =
      let entries = load_prefixed_entries (transaction_database_item_prefix run_id) t in
      (sort_by_sequence (items_of entries.0), entries.1)

  -- An abort leaves the entries as they were; so does a commit that fails.
  pub finish : TransactionDatabase D → Option D → Bool × TransactionDatabase D
  finish t none = (false, t)
  finish t (some written) =
      if lmdb.commits written then (true, record t { env = written }) else (false, t)

  -- The loop over the packages of a new run.
  pub write_items : Text → ℕ → List Package → D → Option D
  unfolding and_then
  write_items run_id index [] d = some d
  write_items run_id index (pkg ∷ rest) d =
      and_then
        (lmdb.put d (transaction_database_item_key actions run_id pkg)
          (transaction_database_serialize_item actions (planned_item actions run_id index pkg)))
        (write_items run_id (index + 1) rest)

  pub write_run : Text → Text → List Package → List Text → D → Option D
  unfolding write_items and_then
  write_run timestamp run_id packages flags d =
      and_then (lmdb.put d active_run_key run_id) (λ named.
        and_then
          (lmdb.put named (transaction_database_run_key run_id)
            (transaction_database_serialize_run (open_record timestamp run_id flags)))
          (write_items run_id 0 packages))

  pub name_created : Text → Bool × TransactionDatabase D → Text × TransactionDatabase D
  name_created run_id (committed, t) = (if committed then run_id else [], t)

  -- `createRun`, behind its two guards.
  pub open_run :
      List Package → List Text → Text × TransactionDatabase D → Text × TransactionDatabase D
  unfolding write_run finish name_created new_run_id
  open_run packages flags (timestamp, t) =
      let run_id = new_run_id timestamp packages in
      if lmdb.begins t.env
      then name_created run_id (finish t (write_run timestamp run_id packages flags t.env))
      else ([], t)

  pub create_run : List Package → List Text → TransactionDatabase D → Text × TransactionDatabase D
  unfolding ensure_ready load_string open_run now_timestamp
  create_run packages flags t =
      let ready = ensure_ready t in
      let active = load_string active_run_key ready.1 in
      if not ready.0
      then ([], ready.1)
      else if has_text active.0
      then ([], active.1)
      else open_run packages flags (now_timestamp active.1)

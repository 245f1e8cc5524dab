-- ===== src/State/Database/Changes.antt =====
-- ecosystem/state/transaction_database_write.cpp: the operations on a run that there is.
pub mod Isolation
pub mod Foreign
pub mod Update
pub mod Lasting
pub mod Commit
pub mod Delete
pub mod Failure
pub mod RunState
mod Samples
use req_pack_core.Prelude.{
  ℕ, zero, suc, ◌+◌, Bool, true, false, not, ◌&&◌, ◌||◌, ◌==◌, if◌then◌else◌, nat_eq, Text, text_eq,
  codes, List, [], ◌∷◌, ◌++◌, Option, none, some, is_empty,
}
use req_pack_core.Types.{Package}
use req_pack_core.State.Records.{TransactionRunRecord, TransactionItemRecord, ActionCodes}
use req_pack_core.State.Keys.{
  transaction_database_run_key, transaction_database_item_prefix, transaction_database_item_key,
}
use req_pack_core.State.Runs.{
  transaction_database_serialize_run, transaction_database_deserialize_run,
}
use req_pack_core.State.Items.{
  transaction_database_serialize_item, transaction_database_deserialize_item,
}
use req_pack_core.State.Store.{Lmdb}
use req_pack_core.State.Database.{
  TransactionDatabase, and_then, active_run_key, ensure_ready, now_timestamp, get_run_items,
  load_prefixed_entries, finish,
}

module _ {D : Type 0} (lmdb : Lmdb D) (actions : ActionCodes) (clock : ℕ → ℕ) where
  pub stored_item : Text → D → Option TransactionItemRecord
  unfolding and_then
  stored_item key d = and_then (lmdb.get d key) (transaction_database_deserialize_item actions key)

  pub put_status : Text → Text → Text → D → Option TransactionItemRecord → Option D
  put_status key status error_message d none = none
  put_status key status error_message d (some item) = lmdb.put d key (
      transaction_database_serialize_item actions
        (record item { status = status; error_message = error_message }))

  -- One turn of the loop of `updateItemsStatus`.
  pub update_item : Text → Text → Text → Package → D → Option D
  unfolding stored_item put_status
  update_item run_id status error_message pkg d =
      let key = transaction_database_item_key actions run_id pkg in
      put_status key status error_message d (stored_item key d)

  pub update_items : Text → Text → Text → List Package → D → Option D
  unfolding update_item and_then
  update_items run_id status error_message [] d = some d
  update_items run_id status error_message (pkg ∷ rest) d =
      and_then (update_item run_id status error_message pkg d)
        (update_items run_id status error_message rest)

  pub stored_run : Text → D → Option TransactionRunRecord
  unfolding and_then
  stored_run run_id d =
      and_then (lmdb.get d (transaction_database_run_key run_id))
        (transaction_database_deserialize_run run_id)

  pub put_run : Text → TransactionRunRecord → D → Option D
  put_run run_id run d =
      lmdb.put d (transaction_database_run_key run_id) (transaction_database_serialize_run run)

  -- The new time of the run, where the run can be read.
  pub touch_run :
      Text → D → TransactionDatabase D → Option TransactionRunRecord → Bool × TransactionDatabase D
  unfolding put_run now_timestamp finish
  touch_run run_id d t none = finish lmdb actions clock t (some d)
  touch_run run_id d t (some run) =
      let now = now_timestamp lmdb actions clock t in
      finish lmdb actions clock now.1 (put_run run_id (record run { updated_at = now.0 }) d)

  pub close_update : Text → TransactionDatabase D → Option D → Bool × TransactionDatabase D
  unfolding touch_run stored_run
  close_update run_id t none = (false, t)
  close_update run_id t (some d) = touch_run run_id d t (stored_run run_id d)

  pub update_items_status :
      Text → List Package → Text → Text → TransactionDatabase D → Bool × TransactionDatabase D
  unfolding ensure_ready close_update update_items
  update_items_status run_id packages status error_message t =
      let ready = ensure_ready lmdb actions clock t in
      if ready.0 && lmdb.begins ready.1.env
      then close_update run_id ready.1
          (update_items run_id status error_message packages ready.1.env)
      else (false, ready.1)

  pub update_item_status :
      Text → Package → Text → Text → TransactionDatabase D → Bool × TransactionDatabase D
  unfolding update_items_status
  update_item_status run_id pkg = update_items_status run_id (pkg ∷ [])

  pub set_run_state :
      Text
      → Text
      → TransactionDatabase D
      → Option TransactionRunRecord
      → Bool × TransactionDatabase D
  unfolding put_run now_timestamp finish
  set_run_state run_id state t none = (false, t)
  set_run_state run_id state t (some run) =
      let now = now_timestamp lmdb actions clock t in
      finish lmdb actions clock now.1
        (put_run run_id (record run { state = state; updated_at = now.0 }) now.1.env)

  pub mark_run_state : Text → Text → TransactionDatabase D → Bool × TransactionDatabase D
  unfolding ensure_ready set_run_state stored_run
  mark_run_state run_id state t =
      let ready = ensure_ready lmdb actions clock t in
      if ready.0 && lmdb.begins ready.1.env
      then set_run_state run_id state ready.1 (stored_run run_id ready.1.env)
      else (false, ready.1)

  pub commit_items : Text → List TransactionItemRecord → D → Option D
  unfolding and_then
  commit_items run_id [] d = some d
  commit_items run_id (item ∷ rest) d =
      and_then
        (lmdb.put d (transaction_database_item_key actions run_id item.pkg) (
          transaction_database_serialize_item actions
            (record item { status = codes "committed"; error_message = [] })))
        (commit_items run_id rest)

  pub kept_or : D → Option D → D
  kept_or d none = d
  kept_or d (some d') = d'

  pub names_run : Text → Option Text → Bool
  names_run run_id none = false
  names_run run_id (some active) = active == run_id

  -- The key of the active run is deleted if it names the run; that this fails is not looked at.
  pub release : Text → D → D
  unfolding kept_or names_run
  release run_id d =
      if names_run run_id (lmdb.get d active_run_key)
      then kept_or d (lmdb.del d active_run_key)
      else d

  pub release_written : Text → Option D → Option D
  unfolding release
  release_written run_id none = none
  release_written run_id (some d) = some (release run_id d)

  -- The run that is written, with the readings of the clock.
  pub committed_run :
      Text
      → TransactionDatabase D
      → Option TransactionRunRecord
      → TransactionRunRecord × TransactionDatabase D
  unfolding now_timestamp
  committed_run run_id t none =
      let now = now_timestamp lmdb actions clock t in
      (
        record {
          id = run_id;
          state = codes "committed";
          created_at = now.0;
          updated_at = now.0;
          flags = [];
        },
        now.1,
      )
  committed_run run_id t (some run) =
      let first = now_timestamp lmdb actions clock t in
      let now = now_timestamp lmdb actions clock first.1 in
      (record run { state = codes "committed"; updated_at = now.0 }, now.1)

  pub close_commit : Text → TransactionDatabase D → Option D → Bool × TransactionDatabase D
  unfolding committed_run release_written put_run finish stored_run
  close_commit run_id t none = (false, t)
  close_commit run_id t (some d) =
      let run = committed_run run_id t (stored_run run_id d) in
      finish lmdb actions clock run.1 (release_written run_id (put_run run_id run.0 d))

  pub mark_run_committed : Text → TransactionDatabase D → Bool × TransactionDatabase D
  unfolding ensure_ready get_run_items close_commit commit_items
  mark_run_committed run_id t =
      let items = get_run_items lmdb actions clock run_id t in
      let ready = ensure_ready lmdb actions clock items.1 in
      if ready.0 && lmdb.begins ready.1.env
      then close_commit run_id ready.1 (commit_items run_id items.0 ready.1.env)
      else (false, ready.1)

  pub delete_entries : List (Text × Text) → D → Option D
  unfolding and_then
  delete_entries [] d = some d
  delete_entries ((key, value) ∷ rest) d = and_then (lmdb.del d key) (delete_entries rest)

  pub delete_stored_run : Text → List (Text × Text) → D → Option D
  unfolding and_then delete_entries release_written
  delete_stored_run run_id entries d = release_written run_id (
      and_then (delete_entries entries d) (λ d'. lmdb.del d' (transaction_database_run_key run_id)))

  pub delete_run : Text → TransactionDatabase D → Bool × TransactionDatabase D
  unfolding ensure_ready load_prefixed_entries delete_stored_run finish
  delete_run run_id t =
      let entries =
        load_prefixed_entries lmdb actions clock (transaction_database_item_prefix run_id) t in
      let ready = ensure_ready lmdb actions clock entries.1 in
      if ready.0 && lmdb.begins ready.1.env
      then finish lmdb actions clock ready.1 (delete_stored_run run_id entries.0 ready.1.env)
      else (false, ready.1)

-- ===== src/Scheduler/Executor/Results.antt =====
-- engine/scheduler/executor_transaction_state.cpp: what the executor writes to the transaction
-- database once the groups have run.
pub mod Settled
use req_pack_core.Prelude.{
  ℕ, Bool, true, false, not, ◌&&◌, ◌||◌, ◌==◌, if◌then◌else◌, Text, text_eq, codes, List, [], ◌∷◌,
  Option, none, some, is_empty, all_of,
}
use req_pack_core.Types.{Package, action_eq, empty_package}
use req_pack_core.State.Records.{TransactionRunRecord, TransactionItemRecord, ActionCodes}
use req_pack_core.State.Store.{Lmdb}
use req_pack_core.State.Database.{TransactionDatabase, get_active_run, get_run_items}
use req_pack_core.State.Database.Changes.{
  update_item_status, mark_run_state, mark_run_committed, delete_run,
}
use req_pack_core.Scheduler.Sequential.{TransactionRecord}
use req_pack_core.Scheduler.Executor.{ExecutorState}

-- The package as a record names it.
abbrev pub named_package : TransactionRecord → Package
named_package r = record empty_package {
  action = r.action;
  system = r.system;
  name = r.package_name;
  version = r.package_version;
}

abbrev pub is_named : Package → TransactionItemRecord → Bool
is_named pkg item =
    item.pkg.action == pkg.action
    && item.pkg.system == pkg.system
    && item.pkg.name == pkg.name
    && item.pkg.version == pkg.version

-- The loop over the items of the run, which ends at the first that is named.
pub as_recorded : Package → List TransactionItemRecord → Package
as_recorded pkg [] = pkg
as_recorded pkg (item ∷ rest) =
    let more = as_recorded pkg rest in
    if is_named pkg item
    then record pkg {
      source_path = item.pkg.source_path;
      local_target = item.pkg.local_target;
      flags = item.pkg.flags;
    }
    else more

abbrev pub is_done : TransactionItemRecord → Bool
is_done item = item.status == codes "success" || item.status == codes "committed"

module _ {D : Type 0} (lmdb : Lmdb D) (actions : ActionCodes) (clock : ℕ → ℕ) where
  pub write_results :
      Text
      → List TransactionItemRecord
      → List TransactionRecord
      → TransactionDatabase D
      → TransactionDatabase D
  unfolding as_recorded
  write_results run_id items [] t = t
  write_results run_id items (r ∷ rest) t =
      write_results run_id items rest
        (update_item_status lmdb actions clock run_id (as_recorded (named_package r) items) r.status
          r.error_message t).1

  written :
      Text
      → List TransactionRecord
      → List TransactionItemRecord × TransactionDatabase D
      → TransactionDatabase D
  unfolding write_results
  written run_id records (items, t) = write_results run_id items records t

  -- `shouldCommit` and what follows from it.
  pub commit_or_fail :
      Text → List TransactionItemRecord × TransactionDatabase D → TransactionDatabase D
  commit_or_fail run_id (items, t) =
      if all_of is_done items
      then (mark_run_committed lmdb actions clock run_id t).1
      else (mark_run_state lmdb actions clock run_id (codes "failed") t).1

  module _ {S : Type 0} where
    pub write_transaction_results : List TransactionRecord → ExecutorState S D → ExecutorState S D
    unfolding written
    write_transaction_results records x = if is_empty x.active_run_id then x else record x {
      database =
          written x.active_run_id records
            (get_run_items lmdb actions clock x.active_run_id x.database);
    }

    pub mark_committed_transactions : ExecutorState S D → ExecutorState S D
    unfolding commit_or_fail
    mark_committed_transactions x = if is_empty x.active_run_id then x else record x {
      database =
          commit_or_fail x.active_run_id
            (get_run_items lmdb actions clock x.active_run_id x.database);
    }

    -- What `getActiveRun` returned.
    delete_unless_active :
        ExecutorState S D → Option TransactionRunRecord × TransactionDatabase D → ExecutorState S D
    delete_unless_active x (some run, t) = record x { database = t }
    delete_unless_active x (none, t) = record x {
      database = (delete_run lmdb actions clock x.active_run_id t).1;
      active_run_id = [];
    }

    pub delete_committed_transactions : ExecutorState S D → ExecutorState S D
    unfolding delete_unless_active
    delete_committed_transactions x =
        if is_empty x.active_run_id
        then x
        else delete_unless_active x (get_active_run lmdb actions clock x.database)

    -- The end of `execute` and of the recovery in it, with `deleteCommittedTransactions` of the
    -- configuration.
    pub close_run : Bool → List TransactionRecord → ExecutorState S D → ExecutorState S D
    unfolding write_transaction_results mark_committed_transactions delete_committed_transactions
    close_run deletes records x =
        let marked = mark_committed_transactions (write_transaction_results records x) in
        if deletes then delete_committed_transactions marked else marked

-- ===== src/Scheduler/Executor/Recovery.antt =====
-- engine/scheduler/executor_transaction_recovery.cpp: the groups of a run that was interrupted.
pub mod Accounted
pub mod Reconciled
pub mod Pending
pub mod Systems
pub mod Origin
use req_pack_core.Prelude.{
  ℕ, Bool, true, false, not, ◌&&◌, ◌||◌, ◌==◌, if◌then◌else◌, Text, text_eq, codes, List, [], ◌∷◌,
  ◌++◌, Option, none, some, is_empty, map, any_of, keep_if, contains,
}
use req_pack_core.Types.{ActionType, action_eq, Package, install, ensure, remove, update}
use req_pack_core.State.Records.{TransactionRunRecord, TransactionItemRecord, ActionCodes}
use req_pack_core.State.Store.{Lmdb}
use req_pack_core.State.Database.{TransactionDatabase, get_active_run, get_run_items}
use req_pack_core.State.Database.Changes.{
  update_item_status, mark_run_state, mark_run_committed, delete_run,
}
use req_pack_core.Scheduler.Groups.{TaskGroup, create_task_groups_from_records, packages_of}
use req_pack_core.Scheduler.Executor.{PluginHost, ExecutorState, same_package}

pub action_supports_recovery_reconciliation : ActionType → Bool
action_supports_recovery_reconciliation action =
    action == install || action == ensure || action == remove || action == update

abbrev pub is_finished : TransactionItemRecord → Bool
is_finished item =
    item.status == codes "success"
    || item.status == codes "committed"
    || item.status == codes "failed"

abbrev pub with_system : Text → TransactionItemRecord → TransactionItemRecord
with_system system item = record item { pkg = record item.pkg { system = system } }

abbrev pub is_of_system : Text → TransactionItemRecord → Bool
is_of_system system item = item.pkg.system == system

-- The items that are pending at once, and those that can be checked.
pub record Split : Type 0 where
  pub pending : List TransactionItemRecord
  pub recoverable : List TransactionItemRecord

abbrev add_pending : TransactionItemRecord → Split → Split
add_pending item split = record split { pending = item ∷ split.pending }

abbrev add_recoverable : TransactionItemRecord → Split → Split
add_recoverable item split = record split { recoverable = item ∷ split.recoverable }

module _ {S : Type 0} (host : PluginHost S) where
  load_found : Text → Bool × S → Bool × S
  load_found system (found, s) = if found then host.load_plugin s system else (false, s)

  find_resolved : Text × S → (Bool × S) × Text
  unfolding load_found
  find_resolved (system, s) = (load_found system (host.has_plugin s system), system)

  -- Whether the plugin of an item is there, and the name it is resolved to.
  pub find_plugin : TransactionItemRecord → S → (Bool × S) × Text
  unfolding find_resolved
  find_plugin item s = find_resolved (host.resolve_plugin_name s item.pkg.system)

  -- The first loop of `reconcileRecoveredItems`.
  pub split_items : List TransactionItemRecord → S → Split × S
  unfolding find_plugin
  split_items [] s = (record { pending = []; recoverable = [] }, s)
  split_items (item ∷ rest) s =
      let found = find_plugin item s in
      let supported = action_supports_recovery_reconciliation item.pkg.action in
      let more = split_items rest (if supported then found.0.1 else s) in
      (
        if supported && found.0.0
            then add_recoverable (with_system found.1 item) more.0
            else add_pending item more.0,
        more.1,
      )

  module _ {D : Type 0} (lmdb : Lmdb D) (actions : ActionCodes) (clock : ℕ → ℕ) where
    -- The loop over the items of one system, whose missing packages are known: what stays pending.
    pub settle_items :
        Text
        → List Package
        → List TransactionItemRecord
        → TransactionDatabase D
        → List TransactionItemRecord × TransactionDatabase D
    settle_items run_id missing [] t = ([], t)
    settle_items run_id missing (item ∷ rest) t =
        let done = update_item_status lmdb actions clock run_id item.pkg (codes "success") [] t in
        let is_missing = any_of (λ pkg. same_package pkg item.pkg) missing in
        let more = settle_items run_id missing rest (if is_missing then t else done.1) in
        (if is_missing || not done.0 then item ∷ more.0 else more.0, more.1)

    keep_host :
        S
        → List TransactionItemRecord × TransactionDatabase D
        → List TransactionItemRecord × (S × TransactionDatabase D)
    keep_host s (items, t) = (items, (s, t))

    settle_missing :
        Text
        → List TransactionItemRecord
        → TransactionDatabase D
        → List Package × S
        → List TransactionItemRecord × (S × TransactionDatabase D)
    unfolding settle_items keep_host
    settle_missing run_id items t (missing, s) = keep_host s (settle_items run_id missing items t)

    -- `getPlugin` for the items of a system.
    pub settle_system :
        Text
        → Text
        → List TransactionItemRecord
        → TransactionDatabase D
        → Bool × S
        → List TransactionItemRecord × (S × TransactionDatabase D)
    unfolding settle_missing
    settle_system run_id system items t (found, s) =
        if found
        then settle_missing run_id items t (host.get_missing_packages s system (packages_of items))
        else (items, (s, t))

    -- The loop over the items that can be checked, with `checkedSystems`; `all` are the items.
    pub settle_systems :
        Text
        → List TransactionItemRecord
        → List Text
        → List TransactionItemRecord
        → S × TransactionDatabase D
        → List TransactionItemRecord × (S × TransactionDatabase D)
    unfolding settle_system
    settle_systems run_id all checked [] x = ([], x)
    settle_systems run_id all checked (item ∷ rest) x =
        let system = item.pkg.system in
        let settled =
          settle_system run_id system (keep_if (is_of_system system) all) x.1
            (host.has_plugin x.0 system) in
        let skip = contains checked system in
        let more =
          settle_systems run_id all (if skip then checked else system ∷ checked) rest
            (if skip then x else settled.1) in
        (if skip then more.0 else settled.0 ++ more.0, more.1)

    reconcile_split :
        Text
        → TransactionDatabase D
        → Split × S
        → List TransactionItemRecord × (S × TransactionDatabase D)
    unfolding settle_systems
    reconcile_split run_id t (split, s) =
        let more = settle_systems run_id split.recoverable [] split.recoverable (s, t) in
        (split.pending ++ more.0, more.1)

    pub reconcile_recovered_items :
        Text
        → List TransactionItemRecord
        → S × TransactionDatabase D
        → List TransactionItemRecord × (S × TransactionDatabase D)
    unfolding reconcile_split split_items
    reconcile_recovered_items run_id items (s, t) = reconcile_split run_id t (split_items items s)

    -- Nothing is pending: the run is committed, and deleted where the configuration says so.
    close_recovered : Bool → Text → TransactionDatabase D → TransactionDatabase D
    close_recovered deletes run_id t =
        let committed = (mark_run_committed lmdb actions clock run_id t).1 in
        if deletes then (delete_run lmdb actions clock run_id committed).1 else committed

    recover_items :
        Bool
        → TransactionRunRecord
        → List TransactionItemRecord × (S × TransactionDatabase D)
        → List TaskGroup × ExecutorState S D
    unfolding close_recovered
    recover_items deletes run ([], (s, t)) =
        ([], record { host = s; database = close_recovered deletes run.id t; active_run_id = [] })
    recover_items deletes run (item ∷ rest, (s, t)) = (
      map {A = TaskGroup} (λ group. record group { flags = run.flags })
          (create_task_groups_from_records (item ∷ rest)),
      record {
        host = s;
        database = (mark_run_state lmdb actions clock run.id (codes "recovered") t).1;
        active_run_id = run.id;
      },
    )

    reconcile_run :
        Bool
        → TransactionRunRecord
        → S
        → List TransactionItemRecord × TransactionDatabase D
        → List TaskGroup × ExecutorState S D
    unfolding recover_items reconcile_recovered_items
    reconcile_run deletes run s (items, t) =
        recover_items deletes run
          (reconcile_recovered_items run.id (keep_if (λ item. not (is_finished item)) items) (s, t))

    recover_run :
        Bool
        → ExecutorState S D
        → Option TransactionRunRecord × TransactionDatabase D
        → List TaskGroup × ExecutorState S D
    unfolding reconcile_run
    recover_run deletes x (none, t) = ([], record x { database = t })
    recover_run deletes x (some run, t) =
        if run.state == codes "committed"
        then ([], record x { database = t })
        else reconcile_run deletes run x.host (get_run_items lmdb actions clock run.id t)

    -- `deletes` is `deleteCommittedTransactions` of the configuration.
    pub recover_pending_task_groups : Bool → ExecutorState S D → List TaskGroup × ExecutorState S D
    unfolding recover_run
    recover_pending_task_groups deletes x =
        recover_run deletes x (get_active_run lmdb actions clock x.database)

-- ===== src/Scheduler/Executor/Transactional.antt =====
-- engine/scheduler/transactional_runner.cpp, without what it displays: a group whose items are in
-- the transaction database.
pub mod Reports
pub mod Marking
use req_pack_core.Prelude.{
  ℕ, Bool, true, false, not, ◌&&◌, ◌||◌, ◌==◌, if◌then◌else◌, Text, text_eq, codes, List, [], ◌∷◌,
  ◌++◌, is_empty, map, any_of, keep_if, contains,
}
use req_pack_core.Types.{Package}
use req_pack_core.State.Records.{ActionCodes}
use req_pack_core.State.Store.{Lmdb}
use req_pack_core.State.Database.{TransactionDatabase}
use req_pack_core.State.Database.Changes.{update_items_status}
use req_pack_core.Scheduler.Groups.{TaskGroup}
use req_pack_core.Scheduler.Sequential.{TransactionRecord}
use req_pack_core.Scheduler.Filter.{action_uses_missing_package_filter}
use req_pack_core.Scheduler.Executor.{
  PluginHost, PluginEventRecord, ExecutorState, same_package, package_request_spec,
  build_success_records, build_failure_records, with_run_id, with_failure,
  dispatch_task_group_to_plugin,
}

-- The lambda `containsPackage`.
pub contains_package : List Package → Package → Bool
contains_package packages candidate = any_of (λ pkg. same_package pkg candidate) packages

-- The set `unavailablePackages`.
pub unavailable_packages : List PluginEventRecord → List Text
unavailable_packages [] = []
unavailable_packages (event ∷ rest) =
    let more = unavailable_packages rest in
    if event.name == codes "unavailable" && not (is_empty event.payload)
    then event.payload ∷ more
    else more

module _ (group : TaskGroup) (run_id : Text) where
  -- The lambdas `appendSuccessRecords` and `appendFailureRecords`: what they append.
  pub success_records : List Package → List TransactionRecord
  success_records packages =
      with_run_id run_id (build_success_records (record group { packages = packages }))

  pub failure_records : Text → List Package → List TransactionRecord
  failure_records message packages =
      with_failure run_id message (build_failure_records (record group { packages = packages }))

  pub failure_message : List Text → Package → Text
  failure_message unavailable pkg =
      if contains unavailable (package_request_spec pkg)
      then codes "package unavailable"
      else codes "plugin action failed"

  -- The loop over the packages that failed.
  pub failed_records : List Text → List Package → List TransactionRecord
  unfolding failure_records failure_message
  failed_records unavailable [] = []
  failed_records unavailable (pkg ∷ rest) =
      failure_records (failure_message unavailable pkg) (pkg ∷ [])
      ++ failed_records unavailable rest

  module _ {S : Type 0} (host : PluginHost S) (preloaded : Bool) where
    take_events : Bool × S → List Text × S
    unfolding unavailable_packages
    take_events (found, s) =
        let taken = host.take_recent_events s group.system in
        if found then (unavailable_packages taken.0, taken.1) else ([], s)

    -- The packages that failed although the plugin was asked which of them are missing.
    missing_of : Bool × S → List Package × S
    unfolding contains_package
    missing_of (found, s) =
        let missing = host.get_missing_packages s group.system group.packages in
        if found
        then (keep_if (contains_package missing.0) group.packages, missing.1)
        else (group.packages, s)

    pub failed_packages : S → List Package × S
    unfolding missing_of
    failed_packages s =
        if action_uses_missing_package_filter group.action
        then missing_of (host.has_plugin s group.system)
        else (group.packages, s)

    -- `succeededPackages`: none where the plugin is not asked.
    succeeded_of : Bool × S → List Package
    unfolding contains_package
    succeeded_of (found, s) =
        if found
        then keep_if
            (λ pkg.
              not
                (contains_package (host.get_missing_packages s group.system group.packages).0 pkg))
            group.packages
        else []

    pub succeeded_packages : S → List Package
    unfolding succeeded_of
    succeeded_packages s =
        if action_uses_missing_package_filter group.action
        then succeeded_of (host.has_plugin s group.system)
        else []

    split_records : List Text × S → List TransactionRecord × S
    unfolding failed_packages succeeded_packages success_records failed_records
    split_records (unavailable, s) =
        let failed = failed_packages s in
        (success_records (succeeded_packages s) ++ failed_records unavailable failed.0, failed.1)

    -- What `dispatchTaskGroupToPlugin` returned.
    after_dispatch : Bool × S → List TransactionRecord × S
    unfolding split_records take_events success_records
    after_dispatch (ok, s) =
        if ok
        then (success_records group.packages, s)
        else split_records (take_events (host.has_plugin s group.system))

    after_local_dispatch : Bool × S → List TransactionRecord × S
    unfolding success_records failure_records
    after_local_dispatch (ok, s) = (
      if ok
          then success_records group.packages
          else failure_records (codes "plugin action failed") group.packages,
      s,
    )

    module _ {D : Type 0} (lmdb : Lmdb D) (actions : ActionCodes) (clock : ℕ → ℕ) where
      with_host :
          ExecutorState S D
          → TransactionDatabase D
          → List TransactionRecord × S
          → List TransactionRecord × ExecutorState S D
      with_host x database (records, s) = (records, record x { host = s; database = database })

      -- `updateItemsStatus(runId, packages, "running")` comes first.
      when_marked :
          ExecutorState S D
          → Bool × TransactionDatabase D
          → List TransactionRecord × ExecutorState S D
      unfolding with_host after_dispatch failure_records
      when_marked x (marked, database) =
          if marked
          then with_host x database
              (after_dispatch (dispatch_task_group_to_plugin host preloaded group x.host))
          else (
            failure_records (codes "transaction update failed") group.packages,
            record x { database = database },
          )

      pub run_task_group : ExecutorState S D → List TransactionRecord × ExecutorState S D
      unfolding when_marked with_host after_local_dispatch
      run_task_group x =
          if group.uses_local_target
          then with_host x x.database
              (after_local_dispatch (dispatch_task_group_to_plugin host preloaded group x.host))
          else when_marked x (
              update_items_status lmdb actions clock run_id group.packages (codes "running") []
                x.database)

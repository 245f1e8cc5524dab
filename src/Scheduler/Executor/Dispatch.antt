-- ===== src/Scheduler/Executor/Dispatch.antt =====
-- engine/scheduler/executor_dispatch.cpp, `executeTaskGroup`, without what it displays.
pub mod Complete
use req_pack_core.Prelude.{
  ℕ, Bool, true, false, not, ◌&&◌, ◌||◌, ◌==◌, if◌then◌else◌, Text, List, [], ◌∷◌, codes, is_empty,
}
use req_pack_core.Types.{ActionType, action_eq, install, ensure, update}
use req_pack_core.State.Records.{ActionCodes}
use req_pack_core.State.Store.{Lmdb}
use req_pack_core.Scheduler.Groups.{TaskGroup, is_nix_install_system}
use req_pack_core.Scheduler.Sequential.{TransactionRecord}
use req_pack_core.Scheduler.Executor.{
  PluginHost, ExecutorState, build_success_records, build_failure_records, with_run_id,
  with_failure, dispatch_task_group_to_plugin, dispatch_task_group_to_security_gateway,
}
use req_pack_core.Scheduler.Executor.Transactional.{run_task_group}

unfoldable pub is_install_like_action : ActionType → Bool
is_install_like_action action = action == install || action == ensure || action == update

-- `dryRun` and `useTransactionDb` of the configuration, `planner_platform::softSkipNixInstalls()`.
pub record ExecutionConfig : Type 0 where
  pub dry_run : Bool
  pub use_transaction_db : Bool
  pub soft_skip_nix_installs : Bool

-- `plugin != nullptr`, `pluginLoadFailed` and `nixSoftSkipConsumers` of a group.
pub record Preparation : Type 0 where
  pub preloaded : Bool
  pub plugin_load_failed : Bool
  pub nix_soft_skip_consumers : List Text

module _ {S : Type 0} (host : PluginHost S) (prepared : Preparation) (group : TaskGroup)
    (run_id : Text) where
  -- `getPlugin(system) == nullptr || !loadPlugin(system)`, as whether the plugin is there.
  pub find_and_load : Text → Bool × S → Bool × S
  find_and_load system (found, s) = if found then host.load_plugin s system else (false, s)

  -- The loop over the consumers, which ends at the first that is not ready.
  load_consumers : List Text → S → S
  unfolding find_and_load
  load_consumers [] s = s
  load_consumers (consumer ∷ rest) s =
      let ready = find_and_load consumer (host.has_plugin s consumer) in
      let more = load_consumers rest ready.1 in if ready.0 then more else ready.1

  pub report : Text → Bool → List TransactionRecord
  report message ok =
      if ok
      then with_run_id run_id (build_success_records group)
      else with_failure run_id message (build_failure_records group)

  -- The name under which nix is looked for, where it is asked for.
  unfoldable pub skips_nix : ExecutionConfig → Text → Bool
  skips_nix config name =
      config.soft_skip_nix_installs
      && is_install_like_action group.action
      && is_nix_install_system name

  -- Whether the plugin can be called.
  load_group : S → Bool × S
  unfolding find_and_load
  load_group s =
      if prepared.plugin_load_failed
      then (false, s)
      else if prepared.preloaded
      then (true, s)
      else find_and_load group.system (host.has_plugin s group.system)

  module _ {D : Type 0} (lmdb : Lmdb D) (actions : ActionCodes) (clock : ℕ → ℕ)
      (config : ExecutionConfig) where
    abbrev reported_by :
        ExecutorState S D → Text → Bool × S → List TransactionRecord × ExecutorState S D
    reported_by x message (ok, s) = (report message ok, record x { host = s })

    -- What is done once the plugin is loaded.
    run_loaded : ExecutorState S D → List TransactionRecord × ExecutorState S D
    unfolding report
    run_loaded x =
        if config.dry_run
        then (with_run_id run_id (build_success_records group), x)
        else if config.use_transaction_db && not (is_empty run_id)
        then run_task_group group run_id host prepared.preloaded lmdb actions clock x
        else reported_by x (codes "plugin action failed")
            (dispatch_task_group_to_plugin host prepared.preloaded group x.host)

    once_group_loaded : ExecutorState S D → Bool × S → List TransactionRecord × ExecutorState S D
    unfolding run_loaded report
    once_group_loaded x (loaded, s) =
        if loaded
        then run_loaded (record x { host = s })
        else (report (codes "plugin load failed") false, record x { host = s })

    once_resolved : ExecutorState S D → Text × S → List TransactionRecord × ExecutorState S D
    unfolding load_consumers once_group_loaded report load_group skips_nix
    once_resolved x (name, s) =
        if skips_nix config name
        then ([], record x { host = load_consumers prepared.nix_soft_skip_consumers s })
        else if host.is_gateway_system group.system
        then reported_by x (codes "security gateway action failed")
            (dispatch_task_group_to_security_gateway host prepared.preloaded group s)
        else once_group_loaded x (load_group s)

    -- The name of the plugin is only resolved where nix may be skipped.
    pub execute_task_group : ExecutorState S D → List TransactionRecord × ExecutorState S D
    unfolding once_resolved skips_nix
    execute_task_group x =
        if is_empty group.packages && not group.uses_local_target
        then ([], x)
        else if config.soft_skip_nix_installs && is_install_like_action group.action
        then once_resolved x (host.resolve_plugin_name x.host group.system)
        else once_resolved x ([], x.host)

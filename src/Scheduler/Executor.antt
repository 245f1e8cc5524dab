-- ===== src/Scheduler/Executor.antt =====
-- src/engine/scheduler/executor.h, scheduler_support.hpp and executor_dispatch.cpp: the state of the
-- executor, and what it does with one group. The plugins, the registry and the security gateway are
-- a parameter, over a state.
pub mod Transactional
pub mod Dispatch
pub mod Results
pub mod Recovery
mod Samples
use req_pack_core.Prelude.{
  ℕ, Bool, true, false, not, ◌&&◌, ◌||◌, ◌==◌, if◌then◌else◌, Text, text_eq, codes, List, [], ◌∷◌,
  ◌++◌, is_empty, map, any_of, bool_eq,
}
use req_pack_core.Types.{ActionType, action_eq, Package, install, ensure, remove, update, pack}
use req_pack_core.Scheduler.Groups.{TaskGroup}
use req_pack_core.Scheduler.Sequential.{TransactionRecord}
use req_pack_core.State.Database.{TransactionDatabase}

-- An event of a plugin: its name and its payload.
pub record PluginEventRecord : Type 0 where
  pub name : Text
  pub payload : Text

-- `registry->getPlugin(system) != nullptr`, `registry->loadPlugin(system)`,
-- `registry->resolvePluginName(system)`, the calls of the plugin of a system with the context built
-- for a group, and the kinds of the findings of `securityGateway.executeGatewayRequest`.
pub record PluginHost (S : Type 0) : Type 0 where
  pub has_plugin : S → Text → Bool × S
  pub load_plugin : S → Text → Bool × S
  pub resolve_plugin_name : S → Text → Text × S
  pub is_gateway_system : Text → Bool
  pub execute_gateway_request : S → TaskGroup → List Text × S
  pub install_local : S → TaskGroup → Bool × S
  pub install_packages : S → TaskGroup → Bool × S
  pub remove_packages : S → TaskGroup → Bool × S
  pub update_packages : S → TaskGroup → Bool × S
  pub supports_pack : S → Text → Bool × S
  pub pack_local : S → TaskGroup → Bool × S
  pub get_missing_packages : S → Text → List Package → List Package × S
  pub take_recent_events : S → Text → List PluginEventRecord × S

-- What the operations change: the plugins, the transaction database and `activeRunId`.
pub record ExecutorState (S D : Type 0) : Type 0 where
  pub host : S
  pub database : TransactionDatabase D
  pub active_run_id : Text

pub same_package : Package → Package → Bool
same_package left right =
    left.action == right.action
    && left.system == right.system
    && left.name == right.name
    && left.version == right.version
    && left.source_path == right.source_path
    && left.local_target == right.local_target

pub package_request_spec : Package → Text
package_request_spec pkg =
    if is_empty pkg.version then pkg.name else pkg.name ++ (b'-' ∷ pkg.version)

pub record_of : TaskGroup → Text → Package → TransactionRecord
record_of group status pkg = record {
  run_id = [];
  system = group.system;
  action = group.action;
  package_name = pkg.name;
  package_version = pkg.version;
  status = status;
  error_message = [];
}

pub build_success_records : TaskGroup → List TransactionRecord
unfolding record_of
build_success_records group = map (record_of group (codes "success")) group.packages

pub build_failure_records : TaskGroup → List TransactionRecord
unfolding record_of
build_failure_records group = map (record_of group (codes "failed")) group.packages

-- The loops that set `runId`, and the one that sets the message too.
pub with_run_id : Text → List TransactionRecord → List TransactionRecord
with_run_id run_id = map {A = TransactionRecord} (λ r. record r { run_id = run_id })

pub with_failure : Text → Text → List TransactionRecord → List TransactionRecord
with_failure run_id message =
    map {A = TransactionRecord} (λ r. record r { run_id = run_id; error_message = message })

-- `preloaded` is `taskGroup.plugin != nullptr`.
module _ {S : Type 0} (host : PluginHost S) (preloaded : Bool) (group : TaskGroup) where
  gateway_answer : List Text × S → Bool × S
  gateway_answer (kinds, s) = (not (any_of (λ kind. kind == codes "sync_error") kinds), s)

  pub dispatch_task_group_to_security_gateway : S → Bool × S
  unfolding gateway_answer
  dispatch_task_group_to_security_gateway s = gateway_answer (host.execute_gateway_request s group)

  when_pack_supported : Bool × S → Bool × S
  when_pack_supported (supported, s) = if supported then host.pack_local s group else (false, s)

  abbrev install_group : S → Bool × S
  install_group s =
      if group.uses_local_target then host.install_local s group else host.install_packages s group

  -- The switch over the action of the group.
  call_plugin : ActionType → S → Bool × S
  unfolding when_pack_supported
  call_plugin install s = install_group s
  call_plugin ensure s = install_group s
  call_plugin remove s = host.remove_packages s group
  call_plugin update s = host.update_packages s group
  call_plugin pack s = when_pack_supported (host.supports_pack s group.system)
  call_plugin action s = (false, s)

  with_found_plugin : Bool × S → Bool × S
  unfolding call_plugin
  with_found_plugin (found, s) = if found then call_plugin group.action s else (false, s)

  pub dispatch_task_group_to_plugin : S → Bool × S
  unfolding dispatch_task_group_to_security_gateway with_found_plugin
  dispatch_task_group_to_plugin s =
      if host.is_gateway_system group.system
      then dispatch_task_group_to_security_gateway s
      else with_found_plugin (if preloaded then (true, s) else host.has_plugin s group.system)

-- ===== src/Scheduler/Filter.antt =====
-- engine/scheduler/task_graph_builder.cpp, `filterExecutable`: groups lose the packages that are
-- as they should be. The registry and its plugins are a parameter, over a state.
pub mod Thinned
mod Samples
use req_pack_core.Prelude.{
  Bool, true, false, not, ◌&&◌, ◌||◌, ◌==◌, if◌then◌else◌, Text, List, [], ◌∷◌, Option, none, some,
  is_empty, map,
}
use req_pack_core.Types.{ActionType, action_eq, Package, unknown, install, ensure, remove, update}
use req_pack_core.Scheduler.Groups.{TaskGroup}

-- `registry->getPlugin(system) != nullptr`, `registry->loadPlugin(system)`,
-- `securityGateway.isGatewaySystem(system)` and the plugin's `getMissingPackages(packages)`.
pub record FilterHost (S : Type 0) : Type 0 where
  pub has_plugin : S → Text → Bool × S
  pub load_plugin : S → Text → Bool × S
  pub is_gateway_system : Text → Bool
  pub get_missing_packages : S → Text → List Package → List Package × S

abbrev pub action_uses_missing_package_filter : ActionType → Bool
action_uses_missing_package_filter action =
    action == install || action == ensure || action == remove || action == update

with_action : ActionType → Package → Package
with_action action pkg = record pkg {
  action = if pkg.action == unknown then action else pkg.action;
}

still_missing : {S : Type 0} → TaskGroup → List Package × S → Option TaskGroup × S
still_missing group ([], s) = (none, s)
still_missing group (pkg ∷ rest, s) = (some (record group { packages = pkg ∷ rest }), s)

module _ {S : Type 0} (host : FilterHost S) where
  open host use {has_plugin, load_plugin, is_gateway_system, get_missing_packages}

  once_loaded : TaskGroup → Bool × S → Option TaskGroup × S
  unfolding still_missing with_action
  once_loaded group (loaded, s) =
      if not loaded || group.uses_local_target
      then (some group, s)
      else still_missing group
          (get_missing_packages s group.system (map (with_action group.action) group.packages))

  once_found : TaskGroup → Bool × S → Option TaskGroup × S
  unfolding once_loaded
  once_found group (found, s) =
      if is_gateway_system group.system || not found
      then (some group, s)
      else once_loaded group (load_plugin s group.system)

  -- One turn of the loop: the group that is pushed.
  filter_group : S → TaskGroup → Option TaskGroup × S
  unfolding once_found
  filter_group s group =
      if is_empty group.packages
      then (none, s)
      else if not (action_uses_missing_package_filter group.action)
      then (some group, s)
      else once_found group (has_plugin s group.system)

  push_group : Option TaskGroup → List TaskGroup → List TaskGroup
  push_group none groups = groups
  push_group (some group) groups = group ∷ groups

  pub filter_executable : S → List TaskGroup → List TaskGroup × S
  unfolding filter_group push_group
  filter_executable s [] = ([], s)
  filter_executable s (group ∷ rest) =
      let first = filter_group s group in
      let more = filter_executable first.1 rest in (push_group first.0 more.0, more.1)

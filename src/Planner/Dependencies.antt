-- ===== src/Planner/Dependencies.antt =====
-- engine/planner/planner_dependency_policy.cpp: which packages a plan is still to install. The
-- registry, its plugins, the downloader and the bundles are a parameter, over a state.
pub mod Missing
use req_pack_core.Prelude.{
  ℕ, suc, Bool, true, false, not, ◌&&◌, ◌||◌, ◌==◌, if◌then◌else◌, Text, text_eq, List, [], ◌∷◌,
  ◌++◌, Option, none, some, is_empty, map,
}
use req_pack_core.Types.{Package, Request, ActionType, action_eq, install, ensure}
use req_pack_core.State.Store.{key_lt}
use req_pack_core.Planner.Engine.{
  planner_normalize_dependency, planner_make_requested_package, planner_filter_install_request,
}
use req_pack_core.Planner.EnsureOrder.{set_internal_ensure_order_flag}

-- `gatewayExists(system)`, `registry->getPlugin(system) != nullptr`, `loadPlugin`,
-- `resolvePluginName`, `getMissingPackages` of the plugin of a system, the downloader, and the
-- packages of an installed bundle: those of the plugin and those of the project.
pub record PlannerHost (S : Type 0) : Type 0 where
  pub gateway_exists : Text → Bool
  pub has_plugin : S → Text → Bool × S
  pub load_plugin : S → Text → Bool × S
  pub resolve_plugin_name : S → Text → Text
  pub get_missing_packages : S → Text → List Package → List Package × S
  pub download_plugin : S → Text → Bool × S
  pub ensure_plugins_discovered : S → Text → S
  pub bundle_packages : S → Text → Option (List Package × List Package)

-- The entries of `dependenciesBySystem` and `pluginsBySystem` of one resolved system; a plugin is
-- named by the system it was found for.
pub record SystemDependencies : Type 0 where
  pub resolved : Text
  pub plugin : Text
  pub dependencies : List Package

-- `push_back` and the assignment under a key of the ordered maps.
pub add_to_system : Text → Package → List SystemDependencies → List SystemDependencies
add_to_system resolved pkg [] =
    record { resolved = resolved; plugin = pkg.system; dependencies = pkg ∷ [] } ∷ []
add_to_system resolved pkg (entry ∷ rest) =
    let more = add_to_system resolved pkg rest in
    if entry.resolved == resolved
    then record entry { plugin = pkg.system; dependencies = entry.dependencies ++ (pkg ∷ []) }
      ∷ rest
    else if key_lt resolved entry.resolved
    then record { resolved = resolved; plugin = pkg.system; dependencies = pkg ∷ [] } ∷ entry ∷ rest
    else entry ∷ more

-- What the first loop of `filterMissingDependencies` collects.
pub record Sorted : Type 0 where
  pub missing : List Package
  pub by_system : List SystemDependencies

module _ {S : Type 0} (host : PlannerHost S) where
  pub resolve_dependency_system : S → Package → Package
  resolve_dependency_system s dependency =
      if is_empty dependency.system
      then dependency
      else record dependency { system = host.resolve_plugin_name s dependency.system }

  once_loaded_for_use : Text → Bool × S → Bool × S
  once_loaded_for_use system (loaded, s) = if loaded then host.has_plugin s system else (false, s)

  once_found_for_use : Text → Bool × S → Bool × S
  unfolding once_loaded_for_use
  once_found_for_use system (found, s) =
      if found then once_loaded_for_use system (host.load_plugin s system) else (false, s)

  pub load_plugin_for_use : S → Text → Bool × S
  unfolding once_found_for_use
  load_plugin_for_use s system = once_found_for_use system (host.has_plugin s system)

  pub dependency_exists : S → Package → Bool × S
  dependency_exists s dependency =
      if not (is_empty dependency.system) && host.gateway_exists dependency.system
      then (true, s)
      else if is_empty dependency.system
      then (false, s)
      else host.has_plugin s dependency.system

  discover_downloaded : Text → Bool × S → S
  discover_downloaded system (downloaded, s) =
      if downloaded then host.ensure_plugins_discovered s system else s

  pub queue_dependency_download : Package → S → S
  unfolding discover_downloaded
  queue_dependency_download dependency s =
      if is_empty dependency.system
      then s
      else discover_downloaded dependency.system (host.download_plugin s dependency.system)

  -- `auto_download` is `autoDownloadMissingDependencies` of the configuration.
  module _ (auto_download : Bool) where
    download_unless : Package → Bool × S → S
    unfolding queue_dependency_download
    download_unless dependency (exists_, s) =
        if not exists_ && auto_download then queue_dependency_download dependency s else s

    -- What is known of a dependency: the plugin to be asked for it, if there is one.
    pub plugin_for : Package → S → Bool × S
    unfolding download_unless dependency_exists load_plugin_for_use
    plugin_for dependency s =
        if is_empty dependency.system || host.gateway_exists dependency.system
        then (false, s)
        else load_plugin_for_use (download_unless dependency (dependency_exists s dependency))
            dependency.system

    -- The first loop, with what it has collected so far.
    pub sort_dependencies : List Package → Sorted → S → Sorted × S
    unfolding plugin_for add_to_system
    sort_dependencies [] so_far s = (so_far, s)
    sort_dependencies (dependency ∷ rest) so_far s =
        let asked = plugin_for dependency s in
        let resolved = host.resolve_plugin_name asked.1 dependency.system in
        sort_dependencies rest
          (if asked.0
            then record so_far { by_system = add_to_system resolved dependency so_far.by_system }
            else record so_far { missing = so_far.missing ++ (dependency ∷ []) })
          asked.1

    -- The second loop, over the systems in order.
    pub ask_plugins : List SystemDependencies → S → List Package × S
    ask_plugins [] s = ([], s)
    ask_plugins (entry ∷ rest) s =
        let answer = host.get_missing_packages s entry.plugin entry.dependencies in
        let more = ask_plugins rest answer.1 in (answer.0 ++ more.0, more.1)

    ask_sorted : Sorted × S → List Package × S
    unfolding ask_plugins
    ask_sorted (sorted, s) =
        let more = ask_plugins sorted.by_system s in (sorted.missing ++ more.0, more.1)

    pub filter_missing_dependencies : List Package → S → List Package × S
    unfolding sort_dependencies ask_sorted
    filter_missing_dependencies dependencies s =
        ask_sorted (sort_dependencies dependencies (record { missing = []; by_system = [] }) s)

    pub ensure_plugin_dependencies_available : List Package → S → S
    unfolding download_unless dependency_exists
    ensure_plugin_dependencies_available [] s = s
    ensure_plugin_dependencies_available (dependency ∷ rest) s =
        let more =
          ensure_plugin_dependencies_available rest
            (download_unless dependency (dependency_exists s dependency)) in
        if auto_download then more else s

  -- A dependency of the bundle of a request.
  ordered_dependency : S → Text → ℕ → Package → Package
  unfolding resolve_dependency_system
  ordered_dependency s system index dependency =
      set_internal_ensure_order_flag
        (record (resolve_dependency_system s (planner_normalize_dependency dependency system)) {
          action = ensure;
        })
        index

  bundle_dependencies : S → Text → ℕ → Option (List Package × List Package) → List Package
  unfolding ordered_dependency
  bundle_dependencies s system index none = []
  bundle_dependencies s system index (some (plugin, project)) =
      map (ordered_dependency s system index) (plugin ++ project)

  -- The requests from an index on.
  collect_from : S → ℕ → List Request → List Package
  unfolding bundle_dependencies
  collect_from s index [] = []
  collect_from s index (request ∷ rest) =
      let more = collect_from s (suc index) rest in
      if host.gateway_exists request.system
      then more
      else bundle_dependencies s request.system index (host.bundle_packages s request.system)
        ++ more

  pub collect_plugin_dependencies : S → List Request → List Package
  unfolding collect_from
  collect_plugin_dependencies s requests = collect_from s 0 requests

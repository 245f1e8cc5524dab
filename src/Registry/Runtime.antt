-- ===== src/Registry/Runtime.antt =====
-- ecosystem/registry/registry_runtime.cpp: loading plugins, and what shuts them down.
pub mod Loading
pub mod Active
mod Samples
use req_pack_core.Prelude.{
  Bool, true, false, not, ◌&&◌, ◌||◌, ◌==◌, if◌then◌else◌, Text, text_eq, List, [], ◌∷◌, Option,
  none, some, is_empty, contains, keep_if,
}
use req_pack_core.Registry.{
  PluginState, not_found, registered, active, failed, shutdown, is_active, is_failed,
  builtin_rq_plugin_id, RegistryHost, Registry, RegistryConfig, set_at, or_not_found, set_state,
  state_at, has_path, resolve_plugin_name, discover, ensure_plugin_constructed,
}

module _ {S R : Type 0} (host : RegistryHost S R) (config : RegistryConfig) where
  -- What `init` returned.
  initialised : Text → Registry S → Bool × S → Bool × Registry S
  unfolding set_state
  initialised name r (ok, world) =
      (ok, set_state name (if ok then active else failed) (record r { world = world }))

  -- By the state of the plugin; `loads` is `autoLoadPlugins`, and true for the builtin plugin.
  activate : Bool → Text → PluginState × Registry S → Bool × Registry S
  unfolding initialised set_state
  activate loads name (state, r) =
      if is_active state
      then (true, r)
      else if is_failed state || not loads
      then (false, r)
      else if not (host.has_api_version r.world name)
      then (false, set_state name failed r)
      else initialised name r (host.init r.world name)

  load_constructed : Bool → Text → Bool × Registry S → Bool × Registry S
  unfolding activate state_at
  load_constructed loads name (constructed, r) =
      if not constructed || not (contains r.plugins name)
      then (false, r)
      else activate loads name (state_at name r)

  refuse : Text → Registry S → Bool × Registry S
  unfolding set_state
  refuse name r = (false, set_state name failed r)

  -- The record that is materialized, with its hashes looked at.
  materialize : Text → Registry S → Option R × S → Bool × Registry S
  unfolding refuse discover
  materialize name r (none, world) = refuse name (record r { world = world })
  materialize name r (some found, world) =
      if host.matches_expected_hashes world found
      then (
        true,
        discover host config name (record r { world = host.materialize_plugin_script world found }),
      )
      else refuse name (record r { world = world })

  -- What is done where no path of the plugin is known; false is an early return.
  prepare : Text → Registry S → Option R × S → Bool × Registry S
  unfolding materialize refuse discover
  prepare name r (none, world) = (true, discover host config name (record r { world = world }))
  prepare name r (some found, world) =
      if not (host.passes_thin_layer_trust world found)
      then refuse name (record r { world = world })
      else materialize name r (
          if is_empty (host.script found) && not (host.is_alias found)
          then host.refresh_record world name
          else (some found, world))

  load_prepared : Text → Bool × Registry S → Bool × Registry S
  unfolding load_constructed ensure_plugin_constructed
  load_prepared name (goes_on, r) =
      if goes_on
      then load_constructed config.auto_load_plugins name
          (ensure_plugin_constructed host config name r)
      else (false, r)

  cannot_materialize : Option R → Bool
  cannot_materialize none = false
  cannot_materialize (some found) = not (host.can_materialize_plugin found)

  load_recorded : Text → Registry S → Option R × S → Bool × Registry S
  unfolding load_prepared prepare cannot_materialize has_path
  load_recorded name r (found, world) =
      let next = record r { world = world } in
      if cannot_materialize found
      then (false, next)
      else load_prepared name (
          if has_path name r
          then (true, next)
          else prepare name next (host.resolve_record world name))

  pub load_plugin : Text → Registry S → Bool × Registry S
  unfolding load_recorded load_constructed ensure_plugin_constructed resolve_plugin_name
  load_plugin name r =
      let resolved = resolve_plugin_name host config r.world name in
      if resolved == builtin_rq_plugin_id
      then load_constructed true resolved (ensure_plugin_constructed host config resolved r)
      else load_recorded resolved r (host.resolve_record r.world resolved)

  -- The plugin is shut down if it is active, and erased.
  stop_plugin : Text → PluginState × Registry S → Registry S
  stop_plugin name (state, r) = record r {
    world = if is_active state then host.shut_down r.world name else r.world;
    plugins = keep_if (λ n. not (n == name)) r.plugins;
  }

  forget : Text → Registry S → Registry S
  unfolding set_at
  forget name r = record r {
    plugin_paths = set_at name none r.plugin_paths;
    states = set_at name none r.states;
  }

  pub unload_plugin : Text → Registry S → Registry S
  unfolding stop_plugin forget state_at resolve_plugin_name
  unload_plugin name r =
      let resolved = resolve_plugin_name host config r.world name in
      forget resolved
        (if contains r.plugins resolved then stop_plugin resolved (state_at resolved r) else r)

  pub get_state : Text → Registry S → PluginState
  unfolding resolve_plugin_name or_not_found
  get_state name r = or_not_found (r.states (resolve_plugin_name host config r.world name))

  pub is_loaded : Text → Registry S → Bool
  unfolding get_state
  is_loaded name r = is_active (get_state name r)

  pub get_plugin : Text → Registry S → Bool × Registry S
  unfolding resolve_plugin_name ensure_plugin_constructed
  get_plugin name r =
      let resolved = resolve_plugin_name host config r.world name in
      let constructed = ensure_plugin_constructed host config resolved r in
      (constructed.0 && contains constructed.1.plugins resolved, constructed.1)

  shut_down_one : Text → PluginState × Registry S → Registry S
  unfolding set_state
  shut_down_one name (state, r) =
      if is_active state
      then set_state name shutdown (record r { world = host.shut_down r.world name })
      else r

  shut_down_from : List Text → Registry S → Registry S
  unfolding shut_down_one state_at
  shut_down_from [] r = r
  shut_down_from (name ∷ rest) r = shut_down_from rest (shut_down_one name (state_at name r))

  pub shutdown_all : Registry S → Registry S
  unfolding shut_down_from
  shutdown_all r = if config.shut_down_plugins_on_exit then shut_down_from r.plugins r else r

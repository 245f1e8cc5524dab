-- ===== src/Registry.antt =====
-- src/ecosystem/registry: the plugins that are constructed and their states. The registry database,
-- the files and the plugins themselves are a parameter, over a state.
pub mod Lifecycle
pub mod Runtime
use req_pack_core.Prelude.{
  ℕ, Bool, true, false, not, ◌&&◌, ◌||◌, ◌==◌, if◌then◌else◌, Text, text_eq, codes, List, [], ◌∷◌,
  Option, none, some, is_empty, contains, keep_if, map, tolower, EqTest,
}
use req_pack_core.State.Store.{key_lt}

pub data PluginState : Type 0 where
  not_found registered active failed shutdown : PluginState

abbrev pub is_active : PluginState → Bool
is_active active = true
is_active state = false

abbrev pub is_failed : PluginState → Bool
is_failed failed = true
is_failed state = false

abbrev pub builtin_rq_plugin_id : Text
builtin_rq_plugin_id = codes "rqp"

-- What the code asks of the database and its records, of the files and of a plugin. A record is
-- read through the functions below; a probe is the name and the script of the bundle that stands in
-- the plugin directory, or in the workspace where that is another one.
pub record RegistryHost (S R : Type 0) : Type 0 where
  pub get_record : S → Text → Option R
  pub target_system : R → Text
  pub is_alias : R → Bool
  pub source : R → Text
  pub script : R → Text
  pub resolve_record : S → Text → Option R × S
  pub refresh_record : S → Text → Option R × S
  pub can_materialize_plugin : R → Bool
  pub passes_thin_layer_trust : S → R → Bool
  pub matches_expected_hashes : S → R → Bool
  pub materialize_plugin_script : S → R → S
  pub probe_plugin_directory : S → Text → Option (Text × Text)
  pub probe_workspace : S → Text → Option (Text × Text)
  pub construct : S → Text → Text → S
  pub metadata_matches_trust_record : S → Text → R → Bool
  pub has_api_version : S → Text → Bool
  pub init : S → Text → Bool × S
  pub shut_down : S → Text → S

-- The maps of the class, and the state of the parameter. The plugins are their names in order.
pub record Registry (S : Type 0) : Type 0 where
  pub plugin_paths : Text → Option Text
  pub plugins : List Text
  pub states : Text → Option PluginState
  pub world : S

-- `systemAliases`, `autoLoadPlugins` and `shutDownPluginsOnExit` of the configuration.
pub record RegistryConfig : Type 0 where
  pub system_aliases : Text → Option Text
  pub auto_load_plugins : Bool
  pub shut_down_plugins_on_exit : Bool

pub set_at : {A : Type 0} → Text → Option A → (Text → Option A) → Text → Option A
set_at name a entries key = if key == name then a else entries key

insert_name : Text → List Text → List Text
insert_name name [] = name ∷ []
insert_name name (first ∷ rest) =
    let more = insert_name name rest in
    if key_lt name first then name ∷ first ∷ rest else first ∷ more

-- A state, with `NOT_FOUND` for an entry that is missing.
pub or_not_found : Option PluginState → PluginState
or_not_found none = not_found
or_not_found (some state) = state

module _ {S : Type 0} where
  pub set_state : Text → PluginState → Registry S → Registry S
  unfolding set_at
  set_state name state r = record r { states = set_at name (some state) r.states }

  -- `m_states[name]`, which adds the entry if it is missing.
  pub state_at : Text → Registry S → PluginState × Registry S
  unfolding set_state or_not_found
  state_at name r = (or_not_found (r.states name), set_state name (or_not_found (r.states name)) r)

  pub add_path : Text → Text → Registry S → Registry S
  unfolding set_at
  add_path name path r = record r { plugin_paths = set_at name (some path) r.plugin_paths }

  -- `NOT_FOUND` or missing becomes `REGISTERED`.
  pub register_found : PluginState → Text → Registry S → Registry S
  unfolding set_state
  register_found not_found name r = set_state name registered r
  register_found state name r = r

  pub register_probe : Option (Text × Text) → Registry S → Registry S
  unfolding add_path register_found or_not_found
  register_probe none r = r
  register_probe (some (id, path)) r =
      if id == builtin_rq_plugin_id
      then r
      else register_found (or_not_found (r.states id)) id (add_path id path r)

  pub has_path : Text → Registry S → Bool
  has_path name r = elim (r.plugin_paths name) [ none ↦ false | some path ↦ true ]

  pub register_missing : Option PluginState → Text → Registry S → Registry S
  unfolding set_state
  register_missing none name r = set_state name registered r
  register_missing (some state) name r = r

module _ {S R : Type 0} (host : RegistryHost S R) (config : RegistryConfig) where
  alias_or : Text → Option Text → Text
  alias_or normalized none = normalized
  alias_or normalized (some target) = target

  resolve_by_record : Text → Option R → Text
  unfolding alias_or
  resolve_by_record normalized none = alias_or normalized (config.system_aliases normalized)
  resolve_by_record normalized (some found) =
      if not (is_empty (host.target_system found))
      then host.target_system found
      else if host.is_alias found && not (is_empty (host.source found))
      then host.source found
      else alias_or normalized (config.system_aliases normalized)

  pub resolve_plugin_name : S → Text → Text
  unfolding resolve_by_record
  resolve_plugin_name world name =
      let normalized = map tolower name in
      if normalized == builtin_rq_plugin_id
      then normalized
      else resolve_by_record normalized (host.get_record world normalized)

  -- `ensurePluginsDiscovered({name})`
  pub discover : Text → Registry S → Registry S
  unfolding register_probe has_path resolve_plugin_name
  discover name r =
      let id = resolve_plugin_name r.world name in
      let first = register_probe (host.probe_plugin_directory r.world id) r in
      if id == builtin_rq_plugin_id || has_path id r
      then r
      else if has_path id first
      then first
      else register_probe (host.probe_workspace first.world id) first

  -- Once the plugin is constructed.
  trust_constructed : Text → Registry S → Option R × S → Bool × Registry S
  unfolding register_missing set_state
  trust_constructed name r (none, world) =
      (true, register_missing (r.states name) name (record r { world = world }))
  trust_constructed name r (some found, world) =
      if host.metadata_matches_trust_record world name found
      then (true, register_missing (r.states name) name (record r { world = world }))
      else (
        false,
        set_state name failed
            (record r { world = world; plugins = keep_if (λ n. not (n == name)) r.plugins }),
      )

  construct_at : Text → Registry S → Option Text → Bool × Registry S
  unfolding trust_constructed insert_name
  construct_at name r none = (false, r)
  construct_at name r (some path) =
      let world = host.construct r.world name path in
      trust_constructed name (record r { plugins = insert_name name r.plugins; world = world })
        (host.resolve_record world name)

  pub ensure_plugin_constructed : Text → Registry S → Bool × Registry S
  unfolding construct_at resolve_plugin_name
  ensure_plugin_constructed name r =
      let resolved = resolve_plugin_name r.world name in
      if contains r.plugins resolved
      then (true, r)
      else construct_at resolved r (r.plugin_paths resolved)

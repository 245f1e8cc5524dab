-- ===== src/Registry/Runtime/Samples.antt =====
-- A registry with one plugin that is started twice.
use req_pack_core.Prelude.{
  ℕ, suc, true, false, text_eq, text_beq, codes, [], none, some, ◌≡◌, refl, tolower, contains,
}
use req_pack_core.Registry.{active, RegistryHost, Registry, RegistryConfig, resolve_plugin_name}
use req_pack_core.Registry.Runtime.{load_plugin}
use req_pack_core.Registry.Lifecycle.{Refines, state_of}
use req_pack_core.Registry.Runtime.Loading.{load_plugin-Refines}
use req_pack_core.Registry.Runtime.Active.{load_plugin-Active}

-- No records; every directory holds a plugin, and the state counts the plugins that are started.
abbrev one_plugin : RegistryHost ℕ Unit
one_plugin = record {
  get_record = λ s name. none;
  target_system = λ r. [];
  is_alias = λ r. false;
  source = λ r. [];
  script = λ r. [];
  resolve_record = λ s name. (none, s);
  refresh_record = λ s name. (none, s);
  can_materialize_plugin = λ r. true;
  passes_thin_layer_trust = λ s r. true;
  matches_expected_hashes = λ s r. true;
  materialize_plugin_script = λ s r. s;
  probe_plugin_directory = λ s name. some (name, codes "run.lua");
  probe_workspace = λ s name. none;
  construct = λ s name path. s;
  metadata_matches_trust_record = λ s name r. true;
  has_api_version = λ s name. true;
  init = λ s name. (true, suc s);
  shut_down = λ s name. s;
}

abbrev config : RegistryConfig
config = record {
  system_aliases = λ name. none;
  auto_load_plugins = true;
  shut_down_plugins_on_exit = true;
}

abbrev empty : Registry ℕ
empty = record { plugin_paths = λ name. none; plugins = []; states = λ name. none; world = 0 }

loads : (load_plugin one_plugin config (codes "APT") empty).0 ≡ true
unfolding load_plugin text_beq tolower contains
loads = refl

load_plugin-Active_example :
    state_of
      (resolve_plugin_name one_plugin config 0 (codes "APT"))
      (load_plugin one_plugin config (codes "APT") empty).1
    ≡ active
load_plugin-Active_example = load_plugin-Active one_plugin config (codes "APT") empty loads

load_plugin-Refines_example : Refines empty (load_plugin one_plugin config (codes "APT") empty).1
load_plugin-Refines_example = load_plugin-Refines one_plugin config (codes "APT") empty

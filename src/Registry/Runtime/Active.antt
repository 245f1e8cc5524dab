-- ===== src/Registry/Runtime/Active.antt =====
-- What a plugin that is loaded is.
use req_pack_core.Prelude.{
  Bool, true, false, not, ◌||◌, ◌==◌, Text, text_eq, Option, contains, ◌≡◌, refl, sym, ◌∙◌,
  if_cases, true_ne_false,
}
use req_pack_core.Registry.{
  PluginState, not_found, registered, active, failed, shutdown, is_active, is_failed, RegistryHost,
  Registry, RegistryConfig, builtin_rq_plugin_id, or_not_found, set_state, state_at,
  resolve_plugin_name, ensure_plugin_constructed,
}
use req_pack_core.Registry.Runtime.{
  initialised, activate, load_constructed, load_prepared, cannot_materialize, load_recorded,
  load_plugin,
}
use req_pack_core.Registry.Lifecycle.{state_of, state_of-set_state}

active_of : (state : PluginState) → is_active state ≡ true → state ≡ active
active_of active e = refl
active_of not_found e = elim (true_ne_false (sym e)) [ ]
active_of registered e = elim (true_ne_false (sym e)) [ ]
active_of failed e = elim (true_ne_false (sym e)) [ ]
active_of shutdown e = elim (true_ne_false (sym e)) [ ]

module _ {S R : Type 0} (host : RegistryHost S R) (config : RegistryConfig) (name : Text) where
  -- A success that leaves the plugin active.
  abbrev Loaded : Bool × Registry S → Type 0
  Loaded (ok, r) = ok ≡ true → state_of name r ≡ active

  refused-Loaded : (r : Registry S) → Loaded (false, r)
  refused-Loaded r e = elim (true_ne_false (sym e)) [ ]

  initialised-Loaded : (r : Registry S) (x : Bool × S) → Loaded (initialised host config name r x)
  unfolding initialised
  initialised-Loaded r (true, world) =
      λ e. state_of-set_state name active (record r { world = world })
  initialised-Loaded r (false, world) =
      refused-Loaded (set_state name failed (record r { world = world }))

  activate-Loaded :
      (loads : Bool) (state : PluginState) (r : Registry S)
      → state_of name r ≡ state
      → Loaded (activate host config loads name (state, r))
  unfolding activate
  activate-Loaded loads state r e =
      if_cases Loaded (is_active state) (λ a ok. e ∙ active_of state a)
        (λ a.
          if_cases Loaded (is_failed state || not loads) (λ f. refused-Loaded r)
            (λ f.
              if_cases Loaded (not (host.has_api_version r.world name))
                (λ v. refused-Loaded (set_state name failed r))
                (λ v. initialised-Loaded r (host.init r.world name))))

  load_constructed-Loaded :
      (loads : Bool) (x : Bool × Registry S) → Loaded (load_constructed host config loads name x)
  unfolding load_constructed state_at
  load_constructed-Loaded loads (constructed, r) =
      let state = or_not_found (r.states name) in
      if_cases Loaded (not constructed || not (contains r.plugins name)) (λ e. refused-Loaded r)
        (λ e.
          activate-Loaded loads state (set_state name state r) (state_of-set_state name state r))

  load_prepared-Loaded : (x : Bool × Registry S) → Loaded (load_prepared host config name x)
  unfolding load_prepared
  load_prepared-Loaded (goes_on, r) =
      if_cases Loaded goes_on
        (λ e.
          load_constructed-Loaded config.auto_load_plugins
            (ensure_plugin_constructed host config name r))
        (λ e. refused-Loaded r)

  load_recorded-Loaded :
      (r : Registry S) (rec : Option R × S) → Loaded (load_recorded host config name r rec)
  unfolding load_recorded
  load_recorded-Loaded r (rec, world) =
      if_cases Loaded (cannot_materialize host config rec)
        (λ e. refused-Loaded (record r { world = world })) (λ e. load_prepared-Loaded _)

module _ {S R : Type 0} (host : RegistryHost S R) (config : RegistryConfig) where
  -- A plugin whose loading succeeds is active, under the name that is resolved.
  pub load_plugin-Active :
      (name : Text) (r : Registry S)
      → (load_plugin host config name r).0 ≡ true
      → state_of (resolve_plugin_name host config r.world name) (load_plugin host config name r).1
        ≡ active
  unfolding load_plugin
  load_plugin-Active name r =
      let resolved = resolve_plugin_name host config r.world name in
      if_cases (Loaded host config resolved) (resolved == builtin_rq_plugin_id)
        (λ e.
          load_constructed-Loaded host config resolved true
            (ensure_plugin_constructed host config resolved r))
        (λ e. load_recorded-Loaded host config resolved r (host.resolve_record r.world resolved))

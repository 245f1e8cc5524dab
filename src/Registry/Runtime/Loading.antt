-- ===== src/Registry/Runtime/Loading.antt =====
-- Loading a plugin follows the specification.
use req_pack_core.Prelude.{
  Bool, true, false, not, ◌||◌, ◌==◌, if◌then◌else◌, Text, text_eq, Option, none, some, contains,
  keep_if, ◌≡◌, refl, ap, ◌∙◌, if_cases, true_ne_false,
}
use req_pack_core.Registry.{
  PluginState, active, failed, is_active, is_failed, RegistryHost, Registry, RegistryConfig,
  builtin_rq_plugin_id, or_not_found, set_state, state_at, register_probe, has_path,
  resolve_plugin_name, insert_name, discover, trust_constructed, construct_at,
  ensure_plugin_constructed,
}
use req_pack_core.Registry.Runtime.{
  initialised, activate, load_constructed, refuse, materialize, prepare, load_prepared,
  cannot_materialize, load_recorded, load_plugin,
}
use req_pack_core.Registry.Lifecycle.{
  PluginSteps, activated, refused, then_, done, state_of, state_of-set_state, Refines,
  Refines-append, set_state-Refines, register_probe-Refines, register_missing-Refines,
}

or_false : (a b : Bool) → (a || b) ≡ false → a ≡ false
or_false true b e = elim (true_ne_false e) [ ]
or_false false b e = refl

module _ {S R : Type 0} (host : RegistryHost S R) (config : RegistryConfig) where
  -- A result whose registry is reached.
  abbrev Reached : Registry S → Bool × Registry S → Type 0
  Reached r (ok, r') = Refines r r'

  Reached-append :
      (a b : Registry S) (c : Bool × Registry S) → Refines a b → Reached b c → Reached a c
  Reached-append a b (ok, r) h k = Refines-append a b r h k

  refuse-Reached : (name : Text) (r : Registry S) → Reached r (refuse host config name r)
  unfolding refuse
  refuse-Reached name r = set_state-Refines name failed r (then_ refused done)

  discover-Refines : (name : Text) (r : Registry S) → Refines r (discover host config name r)
  unfolding discover
  discover-Refines name r =
      let id = resolve_plugin_name host config r.world name in
      let first = register_probe (host.probe_plugin_directory r.world id) r in
      let h = register_probe-Refines (host.probe_plugin_directory r.world id) r in
      if_cases (λ (r' : Registry S). Refines r r') (id == builtin_rq_plugin_id || has_path id r)
        (λ e key. done)
        (λ e.
          if_cases (λ (r' : Registry S). Refines r r') (has_path id first) (λ e. h)
            (λ e.
              Refines-append r first (register_probe (host.probe_workspace first.world id) first) h
                (register_probe-Refines (host.probe_workspace first.world id) first)))

  trust_constructed-Reached :
      (name : Text) (r : Registry S) (record_found : Option R × S)
      → Reached r (trust_constructed host config name r record_found)
  unfolding trust_constructed
  trust_constructed-Reached name r (none, world) =
      register_missing-Refines (r.states name) name (record r { world = world }) refl
  trust_constructed-Reached name r (some rec, world) =
      if_cases (λ (y : Bool × Registry S). Reached r y)
        (host.metadata_matches_trust_record world name rec)
        (λ e. register_missing-Refines (r.states name) name (record r { world = world }) refl)
        (λ e.
          set_state-Refines name failed
            (record r { world = world; plugins = keep_if (λ n. not (n == name)) r.plugins })
            (then_ refused done))

  construct_at-Reached :
      (name : Text) (r : Registry S) (path : Option Text)
      → Reached r (construct_at host config name r path)
  unfolding construct_at
  construct_at-Reached name r none = λ key. done
  construct_at-Reached name r (some path) =
      let world = host.construct r.world name path in
      trust_constructed-Reached name
        (record r { plugins = insert_name name r.plugins; world = world })
        (host.resolve_record world name)

  ensure_plugin_constructed-Reached :
      (name : Text) (r : Registry S) → Reached r (ensure_plugin_constructed host config name r)
  unfolding ensure_plugin_constructed
  ensure_plugin_constructed-Reached name r =
      let resolved = resolve_plugin_name host config r.world name in
      if_cases (Reached r) (contains r.plugins resolved) (λ e key. done)
        (λ e. construct_at-Reached resolved r (r.plugin_paths resolved))

  -- A plugin that has not failed may be started.
  activate-Reached :
      (loads : Bool) (name : Text) (r : Registry S) (state : PluginState)
      → state_of name r ≡ state
      → Reached r (activate host config loads name (state, r))
  unfolding activate initialised
  activate-Reached loads name r state e =
      let started = host.init r.world name in
      if_cases (Reached r) (is_active state) (λ a key. done)
        (λ a.
          if_cases (Reached r) (is_failed state || not loads) (λ f key. done)
            (λ f.
              if_cases (Reached r) (not (host.has_api_version r.world name))
                (λ v. set_state-Refines name failed r (then_ refused done))
                (λ v.
                  set_state-Refines name (if started.0 then active else failed)
                    (record r { world = started.1 })
                    (if_cases (PluginSteps (state_of name r)) started.0
                      (λ ok.
                        then_
                          (activated (ap is_failed e ∙ or_false (is_failed state) (not loads) f))
                          done)
                      (λ bad. then_ refused done)))))

  load_constructed-Reached :
      (loads : Bool) (name : Text) (x : Bool × Registry S)
      → Reached x.1 (load_constructed host config loads name x)
  unfolding load_constructed state_at
  load_constructed-Reached loads name (constructed, r) =
      let state = or_not_found (r.states name) in
      if_cases (Reached r) (not constructed || not (contains r.plugins name)) (λ e key. done)
        (λ e.
          Reached-append r (set_state name state r)
            (activate host config loads name (state, set_state name state r))
            (set_state-Refines name state r done)
            (activate-Reached loads name (set_state name state r) state
              (state_of-set_state name state r)))

  materialize-Reached :
      (name : Text) (r : Registry S) (rec : Option R × S)
      → Reached r (materialize host config name r rec)
  unfolding materialize
  materialize-Reached name r (none, world) = refuse-Reached name (record r { world = world })
  materialize-Reached name r (some rec, world) =
      if_cases (Reached r) (host.matches_expected_hashes world rec)
        (λ e. discover-Refines name (record r { world = host.materialize_plugin_script world rec }))
        (λ e. refuse-Reached name (record r { world = world }))

  prepare-Reached :
      (name : Text) (r : Registry S) (rec : Option R × S)
      → Reached r (prepare host config name r rec)
  unfolding prepare
  prepare-Reached name r (none, world) = discover-Refines name (record r { world = world })
  prepare-Reached name r (some rec, world) =
      if_cases (Reached r) (not (host.passes_thin_layer_trust world rec))
        (λ e. refuse-Reached name (record r { world = world })) (λ e. materialize-Reached name r _)

  load_prepared-Reached :
      (name : Text) (x : Bool × Registry S) → Reached x.1 (load_prepared host config name x)
  unfolding load_prepared
  load_prepared-Reached name (goes_on, r) =
      let constructed = ensure_plugin_constructed host config name r in
      if_cases (Reached r) goes_on
        (λ e.
          Reached-append r constructed.1
            (load_constructed host config config.auto_load_plugins name constructed)
            (ensure_plugin_constructed-Reached name r)
            (load_constructed-Reached config.auto_load_plugins name constructed))
        (λ e key. done)

  load_recorded-Reached :
      (name : Text) (r : Registry S) (rec : Option R × S)
      → Reached r (load_recorded host config name r rec)
  unfolding load_recorded
  load_recorded-Reached name r (rec, world) =
      let next = record r { world = world } in
      let prepared =
        if has_path name r
        then (true, next)
        else prepare host config name next (host.resolve_record world name) in
      if_cases (Reached r) (cannot_materialize host config rec) (λ e key. done)
        (λ e.
          Reached-append r prepared.1 (load_prepared host config name prepared)
            (if_cases (Reached r) (has_path name r) (λ f key. done)
              (λ f. prepare-Reached name next (host.resolve_record world name)))
            (load_prepared-Reached name prepared))

  -- Loading a plugin follows the specification for the state of every plugin: a plugin is found
  -- where there was none, started unless it has failed, or it fails. So no plugin that has failed is
  -- started, and none that is active is shut down.
  pub load_plugin-Refines :
      (name : Text) (r : Registry S) → Refines r (load_plugin host config name r).1
  unfolding load_plugin
  load_plugin-Refines name r =
      let resolved = resolve_plugin_name host config r.world name in
      let constructed = ensure_plugin_constructed host config resolved r in
      if_cases (Reached r) (resolved == builtin_rq_plugin_id)
        (λ e.
          Reached-append r constructed.1 (load_constructed host config true resolved constructed)
            (ensure_plugin_constructed-Reached resolved r)
            (load_constructed-Reached true resolved constructed))
        (λ e. load_recorded-Reached resolved r (host.resolve_record r.world resolved))

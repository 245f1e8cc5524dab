-- ===== src/Registry/Lifecycle.antt =====
-- How the state of a plugin changes when one is loaded.
use req_pack_core.Prelude.{
  false, ◌==◌, Text, text_eq, text_beq_iff, Option, none, some, ◌≡◌, refl, sym, ap, subst,
  Bool-cases, if_cases, inl, inr, beq_refl,
}
use req_pack_core.Registry.{
  PluginState, not_found, registered, active, failed, shutdown, is_failed, Registry,
  builtin_rq_plugin_id, set_at, or_not_found, set_state, state_at, add_path, register_found,
  register_probe, register_missing,
}

-- The specification: what loading may do to the state of a plugin.
pub data PluginStep : PluginState → PluginState → Type 0 where
  found : PluginStep not_found registered
  activated : {state : PluginState} → is_failed state ≡ false → PluginStep state active
  refused : {state : PluginState} → PluginStep state failed

pub data PluginSteps : PluginState → PluginState → Type 0 where
  done : {state : PluginState} → PluginSteps state state
  then_ :
      {first second last : PluginState}
      → PluginStep first second
      → PluginSteps second last
      → PluginSteps first last

PluginSteps-append :
    {first second last : PluginState}
    → PluginSteps first second
    → PluginSteps second last
    → PluginSteps first last
PluginSteps-append done more = more
PluginSteps-append (then_ step rest) more = then_ step (PluginSteps-append rest more)

-- The state of the plugin of a name that is resolved.
abbrev pub state_of : {S : Type 0} → Text → Registry S → PluginState
state_of name r = or_not_found (r.states name)

-- Every state of the second registry is reached from the first by steps.
abbrev pub Refines : {S : Type 0} → Registry S → Registry S → Type 0
Refines r r' = (key : Text) → PluginSteps (state_of key r) (state_of key r')

module _ {S : Type 0} where
  pub Refines-append : (a b c : Registry S) → Refines a b → Refines b c → Refines a c
  Refines-append a b c first second key = PluginSteps-append (first key) (second key)

  -- Only the state of one name changes.
  pub set_state-Refines :
      (name : Text) (state : PluginState) (r : Registry S)
      → PluginSteps (state_of name r) state
      → Refines r (set_state name state r)
  unfolding set_state set_at or_not_found
  set_state-Refines name state r h key = elim (Bool-cases (key == name)) [
    | inl e ↦
        rw e (subst (λ n. PluginSteps (state_of n r) state) (sym ((text_beq_iff key name).0 e)) h)
    | inr e ↦ rw e done
  ]

  -- Reading a state only adds the entry that stands for none.
  state_at-Refines : (name : Text) (r : Registry S) → Refines r (state_at name r).1
  unfolding state_at
  state_at-Refines name r = set_state-Refines name _ r done

  register_found-Refines :
      (state : PluginState) (name : Text) (r : Registry S)
      → state_of name r ≡ state
      → Refines r (register_found state name r)
  unfolding register_found
  register_found-Refines not_found name r e =
      set_state-Refines name registered r
        (subst (λ s. PluginSteps s registered) (sym e) (then_ found done))
  register_found-Refines registered name r e = λ key. done
  register_found-Refines active name r e = λ key. done
  register_found-Refines failed name r e = λ key. done
  register_found-Refines shutdown name r e = λ key. done

  pub register_probe-Refines :
      (probe : Option (Text × Text)) (r : Registry S) → Refines r (register_probe probe r)
  unfolding register_probe add_path
  register_probe-Refines none r = λ key. done
  register_probe-Refines (some (id, path)) r =
      if_cases (λ (r' : Registry S). Refines r r') (id == builtin_rq_plugin_id) (λ e key. done)
        (λ e. register_found-Refines _ id (add_path id path r) refl)

  pub register_missing-Refines :
      (state : Option PluginState) (name : Text) (r : Registry S)
      → r.states name ≡ state
      → Refines r (register_missing state name r)
  unfolding register_missing or_not_found
  register_missing-Refines none name r e =
      set_state-Refines name registered r
        (subst (λ s. PluginSteps s registered) (sym (ap or_not_found e)) (then_ found done))
  register_missing-Refines (some state) name r e = λ key. done

pub state_of-set_state :
    {S : Type 0} (name : Text) (state : PluginState) (r : Registry S)
    → state_of name (set_state name state r) ≡ state
unfolding set_state set_at or_not_found
state_of-set_state name state r = rw (beq_refl name) refl

-- ===== src/Scheduler/Executor/Recovery/Reconciled.antt =====
-- Which items `reconcileRecoveredItems` checks with their plugin.
use req_pack_core.Prelude.{
  Bool, ◌&&◌, List, [], ◌∷◌, contains, arith, Text, ◌≡◌, refl, Bool-cases, inl, inr,
}
use req_pack_core.Types.{ActionType, install, ensure, remove, update, action_eq}
use req_pack_core.State.Records.{TransactionItemRecord}
use req_pack_core.Scheduler.Executor.{PluginHost}
use req_pack_core.Scheduler.Executor.Recovery.{
  find_plugin, find_resolved, load_found, action_supports_recovery_reconciliation,
}

-- The actions whose items are checked.
abbrev pub recovered_actions : List ActionType
recovered_actions = install ∷ ensure ∷ remove ∷ update ∷ []

action_supports_recovery_reconciliation_lem :
    (action : ActionType)
    → action_supports_recovery_reconciliation action ≡ contains recovered_actions action
unfolding action_supports_recovery_reconciliation contains
action_supports_recovery_reconciliation_lem action = ground arith

module _ {S : Type 0} (host : PluginHost S) where
  -- The name that the system of an item is resolved to, and whether the item is reconciled: its
  -- action is one of the four, and the plugin of that name is there and can be loaded.
  abbrev pub name_of : TransactionItemRecord → S → Text
  name_of item s = (host.resolve_plugin_name s item.pkg.system).0

  abbrev pub is_reconciled : TransactionItemRecord → S → Bool
  is_reconciled item s =
      let resolved_ = host.resolve_plugin_name s item.pkg.system in
      let there = host.has_plugin resolved_.1 resolved_.0 in
      contains recovered_actions item.pkg.action
      && (there.0 && (host.load_plugin there.1 resolved_.0).0)

  pub is_reconciled_lem :
      (item : TransactionItemRecord) (s : S)
      → (action_supports_recovery_reconciliation item.pkg.action && (find_plugin host item s).0.0)
        ≡ is_reconciled item s
  unfolding find_plugin find_resolved load_found
  is_reconciled_lem item s =
      let resolved_ = host.resolve_plugin_name s item.pkg.system in
      elim (Bool-cases (host.has_plugin resolved_.1 resolved_.0).0) [
        | inl e ↦ rw (e, action_supports_recovery_reconciliation_lem) refl
        | inr e ↦ rw (e, action_supports_recovery_reconciliation_lem) refl
      ]

  pub find_plugin-name :
      (item : TransactionItemRecord) (s : S) → (find_plugin host item s).1 ≡ name_of item s
  unfolding find_plugin find_resolved
  find_plugin-name item s = refl

  -- An item under the name its system is resolved to.
  abbrev pub resolved_item : S → TransactionItemRecord → TransactionItemRecord
  resolved_item s item = record item { pkg = record item.pkg { system = name_of item s } }

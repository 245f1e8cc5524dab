-- ===== src/Scheduler/Executor/Recovery/Pending.antt =====
-- What carries over from the stored items to those that are pending after the reconciliation.
use req_pack_core.Prelude.{
  ℕ, Bool, true, false, not, ◌&&◌, ◌||◌, Text, text_eq, codes, List, [], ◌∷◌, ◌++◌, keep_if, any_of,
  contains, ◌≡◌, refl, sym, ap, ◌∙◌, if_cases, All, All-append,
}
use req_pack_core.Types.{Package}
use req_pack_core.State.Records.{TransactionItemRecord, ActionCodes}
use req_pack_core.State.Store.{Lmdb}
use req_pack_core.State.Database.{TransactionDatabase}
use req_pack_core.State.Database.Changes.{update_item_status}
use req_pack_core.Scheduler.Groups.{packages_of}
use req_pack_core.Scheduler.Executor.{PluginHost, same_package}
use req_pack_core.Scheduler.Executor.Recovery.{
  Split, is_of_system, find_plugin, split_items, find_resolved, settle_items, settle_missing,
  keep_host, settle_system, settle_systems, reconcile_split, reconcile_recovered_items,
  action_supports_recovery_reconciliation,
}
use req_pack_core.Scheduler.Executor.Recovery.Reconciled.{
  is_reconciled, is_reconciled_lem, resolved_item,
}

module _ {S D : Type 0} (host : PluginHost S) (lmdb : Lmdb D) (actions : ActionCodes)
    (clock : ℕ → ℕ) where
  -- What holds of the items, of those that are reconciled under the names that their systems are
  -- resolved to when the first loop comes to them, holds of those that are pending.
  module _ (P : TransactionItemRecord → Type 0) where
    abbrev pub ResolvedAll : List TransactionItemRecord → S → Type 0
    ResolvedAll items s =
        (before after : List TransactionItemRecord) (item : TransactionItemRecord)
        → items ≡ before ++ (item ∷ after)
        → let came = (split_items host before s).1 in
          (is_reconciled host item came ≡ false → P item)
          × (is_reconciled host item came ≡ true → P (resolved_item host came item))

    All-keep_if :
        (p : TransactionItemRecord → Bool) (xs : List TransactionItemRecord)
        → All P xs
        → All P (keep_if p xs)
    unfolding keep_if
    All-keep_if p [] h = tt
    All-keep_if p (x ∷ xs) h =
        if_cases (All P) (p x) (λ e. (h.0, All-keep_if p xs h.1)) (λ e. All-keep_if p xs h.1)

    split_items-All :
        (items : List TransactionItemRecord) (s : S)
        → ResolvedAll items s
        → All P (split_items host items s).0.pending
          × All P (split_items host items s).0.recoverable
    unfolding split_items find_plugin find_resolved
    split_items-All [] s h = (tt, tt)
    split_items-All (item ∷ rest) s h =
        let found = find_plugin host item s in
        let first = h [] rest item refl in
        let more =
          split_items-All rest _
            (λ before after other e. h (item ∷ before) after other (ap (◌∷◌ item) e)) in
        if_cases (λ (split : Split). All P split.pending × All P split.recoverable)
          (action_supports_recovery_reconciliation item.pkg.action && found.0.0)
          (λ e. (more.0, (first.1 (sym (is_reconciled_lem host item s) ∙ e), more.1)))
          (λ e. ((first.0 (sym (is_reconciled_lem host item s) ∙ e), more.0), more.1))

    settle_items-All :
        (run_id : Text) (missing : List Package) (items : List TransactionItemRecord)
        (t : TransactionDatabase D)
        → All P items
        → All P (settle_items host lmdb actions clock run_id missing items t).0
    unfolding settle_items
    settle_items-All run_id missing [] t h = tt
    settle_items-All run_id missing (item ∷ rest) t h =
        if_cases (All P)
          (any_of (λ pkg. same_package pkg item.pkg) missing
            || not (update_item_status lmdb actions clock run_id item.pkg (codes "success") [] t).0)
          (λ e. (h.0, settle_items-All run_id missing rest _ h.1))
          (λ e. settle_items-All run_id missing rest _ h.1)

    settle_system-All :
        (run_id system : Text) (items : List TransactionItemRecord) (t : TransactionDatabase D)
        (found : Bool × S)
        → All P items
        → All P (settle_system host lmdb actions clock run_id system items t found).0
    unfolding settle_system settle_missing keep_host
    settle_system-All run_id system items t (true, s) h =
        settle_items-All run_id (host.get_missing_packages s system (packages_of items)).0 items t h
    settle_system-All run_id system items t (false, s) h = h

    settle_systems-All :
        (run_id : Text) (all rest : List TransactionItemRecord) (checked : List Text)
        (x : S × TransactionDatabase D)
        → All P all
        → All P (settle_systems host lmdb actions clock run_id all checked rest x).0
    unfolding settle_systems
    settle_systems-All run_id all [] checked x h = tt
    settle_systems-All run_id all (item ∷ rest) checked x h =
        if_cases (All P) (contains checked item.pkg.system)
          (λ e. settle_systems-All run_id all rest _ _ h)
          (λ e.
            All-append P _ _
              (settle_system-All run_id item.pkg.system _ x.1 _
                (All-keep_if (is_of_system item.pkg.system) all h))
              (settle_systems-All run_id all rest _ _ h))

    pub reconcile_recovered_items-All :
        (run_id : Text) (items : List TransactionItemRecord) (s : S) (t : TransactionDatabase D)
        → ResolvedAll items s
        → All P (reconcile_recovered_items host lmdb actions clock run_id items (s, t)).0
    unfolding reconcile_recovered_items reconcile_split
    reconcile_recovered_items-All run_id items s t h =
        let parts = split_items-All items s h in
        let split = split_items host items s in
        All-append P _ _ parts.0 (
          settle_systems-All run_id split.0.recoverable split.0.recoverable [] (split.1, t) parts.1)

-- ===== src/Scheduler/Executor/Recovery/Systems.antt =====
-- The loop over the systems, and the whole of `reconcileRecoveredItems`.
use req_pack_core.Prelude.{
  ℕ, true, false, ◌&&◌, ◌==◌, Text, text_eq, text_beq_iff, List, [], ◌∷◌, ◌++◌, if◌then◌else◌,
  keep_if, any_of, contains, ◌≡◌, refl, sym, ap, ◌∙◌, ◌⊎◌, inl, inr, Bool-cases, if_cases,
  true_ne_false, beq_false_comm, beq_refl,
}
use req_pack_core.Types.{Package}
use req_pack_core.State.Records.{TransactionItemRecord, ActionCodes}
use req_pack_core.State.Store.{Lmdb, IsStore}
use req_pack_core.State.Database.{TransactionDatabase}
use req_pack_core.Scheduler.Executor.{PluginHost}
use req_pack_core.Scheduler.Executor.Recovery.{
  Split, is_of_system, with_system, find_plugin, split_items, settle_system, settle_systems,
  reconcile_split, reconcile_recovered_items, action_supports_recovery_reconciliation, add_pending,
  add_recoverable,
}
use req_pack_core.Scheduler.Executor.Recovery.Reconciled.{
  name_of, resolved_item, is_reconciled, is_reconciled_lem, find_plugin-name,
}
use req_pack_core.Scheduler.Executor.Recovery.Accounted.{
  Listed, Listed-append_left, Listed-append_right, Listed-keep_if, Listed-any_of, Settled,
  Settled-more, Succeeded, settle_system-Succeeded, settle_system-Settled,
}

module _ {S D : Type 0} (host : PluginHost S) (lmdb : Lmdb D) (store : IsStore lmdb)
    (actions : ActionCodes) (clock : ℕ → ℕ) (run_id : Text) where
  module _ (all : List TransactionItemRecord) where
    settle_systems-Succeeded :
        (rest : List TransactionItemRecord) (checked : List Text) (x : S × TransactionDatabase D)
        (done : List Package)
        → Succeeded lmdb store actions clock run_id done x.1.env
        → Succeeded lmdb store actions clock run_id done
            (settle_systems host lmdb actions clock run_id all checked rest x).1.1.env
    unfolding settle_systems
    settle_systems-Succeeded [] checked x done h = h
    settle_systems-Succeeded (item ∷ rest) checked x done h =
        settle_systems-Succeeded rest _ _ done (
          if_cases
            (λ (y : S × TransactionDatabase D).
              Succeeded lmdb store actions clock run_id done y.1.env)
            (contains checked item.pkg.system) (λ e. h)
            (λ e.
              settle_system-Succeeded lmdb store actions clock run_id host done item.pkg.system _
                x.1 (host.has_plugin x.0 item.pkg.system) h))

    settle_systems-Settled :
        (rest : List TransactionItemRecord) (checked : List Text) (x : S × TransactionDatabase D)
        (item : TransactionItemRecord)
        → Listed item all
        → contains checked item.pkg.system ≡ false
        → any_of (is_of_system item.pkg.system) rest ≡ true
        → Settled lmdb store actions clock run_id host item
            (settle_systems host lmdb actions clock run_id all checked rest x).0
            (settle_systems host lmdb actions clock run_id all checked rest x).1.1.env
    unfolding settle_systems any_of contains
    settle_systems-Settled [] checked x item l new among = elim (true_ne_false (sym among)) [ ]
    settle_systems-Settled (first ∷ rest) checked x item l new among =
        let settled =
          settle_system host lmdb actions clock run_id first.pkg.system
            (keep_if (is_of_system first.pkg.system) all) x.1
            (host.has_plugin x.0 first.pkg.system) in
        elim (Bool-cases (first.pkg.system == item.pkg.system)) [
          | inl same ↦
              let e = (text_beq_iff first.pkg.system item.pkg.system).0 same in
              rw (ap (contains checked) e ∙ new) (
                Settled-more lmdb store actions clock run_id host item settled.0 _ settled.1.1.env _
                  (λ h. Listed-append_left item settled.0 _ h)
                  (λ h. settle_systems-Succeeded rest _ settled.1 (item.pkg ∷ []) h)
                  (settle_system-Settled lmdb store actions clock run_id host first.pkg.system _ x.1
                    _ item
                    (Listed-keep_if (is_of_system first.pkg.system) item all
                      ((text_beq_iff item.pkg.system first.pkg.system).1 (sym e)) l)
                    e))
          | inr other ↦ elim (Bool-cases (contains checked first.pkg.system)) [
            | inl skip ↦
                rw skip (settle_systems-Settled rest checked x item l new (rw other at among))
            | inr check ↦ rw check (
                Settled-more lmdb store actions clock run_id host item _ _ _ _
                  (λ h. Listed-append_right item settled.0 _ h) (λ h. h)
                  (settle_systems-Settled rest (first.pkg.system ∷ checked) settled.1 item l
                    (rw (beq_false_comm first.pkg.system item.pkg.system other, new) refl)
                    (rw other at among)))
          ]
        ]

  -- Where an item is put: `s` is the state in which the loop comes to it.
  abbrev Part : TransactionItemRecord → S → Split → Type 0
  Part item s split =
      ((is_reconciled host item s ≡ true) × Listed (resolved_item host s item) split.recoverable)
      ⊎ ((is_reconciled host item s ≡ false) × Listed item split.pending)

  Part-add_pending :
      (item first : TransactionItemRecord) (s : S) (split : Split)
      → Part item s split
      → Part item s (add_pending first split)
  Part-add_pending item first s split (inl h) = inl h
  Part-add_pending item first s split (inr (e, h)) = inr (e, inr h)

  Part-add_recoverable :
      (item first : TransactionItemRecord) (s : S) (split : Split)
      → Part item s split
      → Part item s (add_recoverable first split)
  Part-add_recoverable item first s split (inl (e, h)) = inl (e, inr h)
  Part-add_recoverable item first s split (inr h) = inr h

  split_items-Part :
      (before after : List TransactionItemRecord) (item : TransactionItemRecord) (s : S)
      → Part item (split_items host before s).1 (split_items host (before ++ (item ∷ after)) s).0
  unfolding split_items
  split_items-Part [] after item s =
      let found = find_plugin host item s in
      if_cases (Part item s) (action_supports_recovery_reconciliation item.pkg.action && found.0.0)
        (λ h. inl (
          sym (is_reconciled_lem host item s) ∙ h,
          inl (ap (λ n. with_system n item) (find_plugin-name host item s)),
        ))
        (λ h. inr (sym (is_reconciled_lem host item s) ∙ h, inl refl))
  split_items-Part (first ∷ before) after item s =
      let found = find_plugin host first s in
      let supported = action_supports_recovery_reconciliation first.pkg.action in
      let more = split_items-Part before after item (if supported then found.0.1 else s) in
      if_cases (Part item _) (supported && found.0.0) (λ h. Part-add_recoverable item _ _ _ more)
        (λ h. Part-add_pending item first _ _ more)

  -- An item that is reconciled is pending or stored as done, under the name of its system, and one
  -- that is not reconciled is pending as it is.
  abbrev pub Accounted : TransactionItemRecord → S → List TransactionItemRecord → D → Type 0
  Accounted item s pending d =
      ((is_reconciled host item s ≡ true)
        × Settled lmdb store actions clock run_id host (resolved_item host s item) pending d)
      ⊎ ((is_reconciled host item s ≡ false) × Listed item pending)

  reconcile_split-Accounted :
      (split : Split) (end : S) (t : TransactionDatabase D) (item : TransactionItemRecord) (s : S)
      → Part item s split
      → Accounted item s
          (reconcile_split host lmdb actions clock run_id t (split, end)).0
          (reconcile_split host lmdb actions clock run_id t (split, end)).1.1.env
  unfolding reconcile_split contains
  reconcile_split-Accounted split end t item s (inr (e, h)) =
      inr (e, Listed-append_left item split.pending _ h)
  reconcile_split-Accounted split end t item s (inl (e, h)) =
      let system = name_of host item s in
      inl (
        e,
        Settled-more lmdb store actions clock run_id host (resolved_item host s item) _ _ _ _
            (λ l. Listed-append_right (resolved_item host s item) split.pending _ l) (λ d. d)
            (settle_systems-Settled split.recoverable split.recoverable [] (end, t)
              (resolved_item host s item) h refl
              (Listed-any_of (is_of_system system) (resolved_item host s item) split.recoverable
                (beq_refl system) h)),
      )

  -- Of the items given to the reconciliation none is lost. In the state in which the first loop comes
  -- to an item: where its action is install, ensure, remove or update and the plugin of the name its
  -- system is resolved to can be loaded, the item is pending under that name, or it is stored under
  -- it with the status success and its plugin does not report its package as missing whenever it is
  -- asked; everywhere else the item is pending as it is.
  pub reconcile_recovered_items-Accounted :
      (before after : List TransactionItemRecord) (item : TransactionItemRecord) (s : S)
      (t : TransactionDatabase D)
      → let out =
          reconcile_recovered_items host lmdb actions clock run_id
            (before ++ (item ∷ after))
            (s, t) in
        Accounted item (split_items host before s).1 out.0 out.1.1.env
  unfolding reconcile_recovered_items
  reconcile_recovered_items-Accounted before after item s t =
      let split = split_items host (before ++ (item ∷ after)) s in
      reconcile_split-Accounted split.0 split.1 t item (split_items host before s).1
        (split_items-Part before after item s)

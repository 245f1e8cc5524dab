-- ===== src/State/Database/Written.antt =====
-- What the transaction of `createRun` writes.
use req_pack_core.Prelude.{
  ℕ, ◌+◌, false, ◌==◌, nat_eq, Text, text_eq, text_beq_iff, codes, List, [], ◌∷◌, ◌⊎◌, some, ◌≡◌,
  refl, sym, ap, ◌∙◌, Bool-cases, inl, inr, All,
}
use req_pack_core.Types.{Package}
use req_pack_core.State.Records.{TransactionRunRecord, TransactionItemRecord, ActionCodes}
use req_pack_core.State.Keys.{transaction_database_run_key, transaction_database_item_key}
use req_pack_core.State.Runs.{transaction_database_serialize_run}
use req_pack_core.State.Items.{transaction_database_serialize_item}
use req_pack_core.State.Store.{Lmdb, IsStore}
use req_pack_core.State.Database.{active_run_key, write_items, write_run, planned_item, open_record}
use req_pack_core.State.Database.Outcome.{
  Holds, and_then-Holds, Holds-both, Holds-three, get-put_self, get-put_other, item_key-ne-active,
  item_key-ne-run_key, run_key-ne-active,
}

module _ {D : Type 0} (lmdb : Lmdb D) (store : IsStore lmdb) (actions : ActionCodes) where
  -- The key holds a planned item of the run, whose package has this key.
  abbrev pub Planned : Text → Text → D → Type 0
  Planned run_id key d =
      (item : TransactionItemRecord) × (lmdb.get d key
        ≡ some (transaction_database_serialize_item actions item))
      × (item.run_id ≡ run_id)
      × (item.status ≡ codes "planned")
      × (transaction_database_item_key actions run_id item.pkg ≡ key)

  -- The key holds a run that is open.
  abbrev pub Opened : Text → List Text → D → Type 0
  Opened run_id flags d =
      (run : TransactionRunRecord) × (lmdb.get d (transaction_database_run_key run_id)
        ≡ some (transaction_database_serialize_run run))
      × (run.id ≡ run_id)
      × (run.state ≡ codes "open")
      × (run.flags ≡ flags)

  put-Planned :
      (run_id key at_key : Text) (item : TransactionItemRecord) (d d' : D)
      → lmdb.put d at_key (transaction_database_serialize_item actions item) ≡ some d'
      → item.run_id ≡ run_id
      → item.status ≡ codes "planned"
      → transaction_database_item_key actions run_id item.pkg ≡ at_key
      → (at_key ≡ key) ⊎ Planned run_id key d
      → Planned run_id key d'
  put-Planned run_id key at_key item d d' e r s k (inl same) =
      (item, ap (lmdb.get d') (sym same) ∙ get-put_self lmdb store d d' at_key _ e, r, s, k ∙ same)
  put-Planned run_id key at_key item d d' e r s k (inr (old, stored, r', s', k')) =
      elim (Bool-cases (at_key == key)) [
        | inl same ↦ (
          item,
          ap (lmdb.get d') (sym ((text_beq_iff at_key key).0 same))
              ∙ get-put_self lmdb store d d' at_key _ e,
          r,
          s,
          k ∙ (text_beq_iff at_key key).0 same,
        )
        | inr other ↦ (old, get-put_other lmdb store d d' at_key _ key e other ∙ stored, r', s', k')
      ]

  module _ (clock : ℕ → ℕ) (run_id : Text) where
    write_items-Planned_kept :
        (key : Text) (index : ℕ) (packages : List Package) (d : D)
        → Planned run_id key d
        → Holds (Planned run_id key) (write_items lmdb actions clock run_id index packages d)
    unfolding write_items
    write_items-Planned_kept key index [] d h = h
    write_items-Planned_kept key index (pkg ∷ rest) d h =
        and_then-Holds (Planned run_id key) _ _ (λ d' e.
          write_items-Planned_kept key (index + 1) rest d'
            (put-Planned run_id key _ _ d d' e refl refl refl (inr h)))

    -- A key that is no item's is left alone.
    write_items_same :
        (Q : D → Type 0) (key : Text) (index : ℕ) (packages : List Package) (d : D)
        → ((d d' : D) → lmdb.get d' key ≡ lmdb.get d key → Q d → Q d')
        → ((pkg : Package) → (transaction_database_item_key actions run_id pkg == key) ≡ false)
        → Q d
        → Holds Q (write_items lmdb actions clock run_id index packages d)
    unfolding write_items
    write_items_same Q key index [] d move other h = h
    write_items_same Q key index (pkg ∷ rest) d move other h = and_then-Holds Q _ _ (λ d' e.
        write_items_same Q key (index + 1) rest d' move other
          (move d d' (get-put_other lmdb store d d' _ _ key e (other pkg)) h))

    abbrev pub PlannedAll : List Package → D → Type 0
    PlannedAll packages d =
        All (λ pkg. Planned run_id (transaction_database_item_key actions run_id pkg) d) packages

    write_items-Planned :
        (index : ℕ) (packages : List Package) (d : D)
        → Holds (PlannedAll packages) (write_items lmdb actions clock run_id index packages d)
    unfolding write_items
    write_items-Planned index [] d = tt
    write_items-Planned index (pkg ∷ rest) d =
        let key = transaction_database_item_key actions run_id pkg in
        let item = planned_item actions run_id index pkg in
        and_then-Holds (PlannedAll (pkg ∷ rest))
          (lmdb.put d key (transaction_database_serialize_item actions item))
          (write_items lmdb actions clock run_id (index + 1) rest)
          (λ d' e.
            Holds-both (Planned run_id key) (PlannedAll rest)
              (write_items lmdb actions clock run_id (index + 1) rest d')
              (write_items-Planned_kept key (index + 1) rest d'
                (put-Planned run_id key key item d d' e refl refl refl (inl refl)))
              (write_items-Planned (index + 1) rest d'))

    -- What a transaction of `createRun` writes.
    abbrev pub Created : List Package → List Text → D → Type 0
    Created packages flags d =
        (lmdb.get d active_run_key ≡ some run_id) × Opened run_id flags d × PlannedAll packages d

    pub write_run-Created :
        (timestamp : Text) (packages : List Package) (flags : List Text) (d : D)
        → Holds
            (Created packages flags)
            (write_run lmdb actions clock timestamp run_id packages flags d)
    unfolding write_run
    write_run-Created timestamp packages flags d =
        let opened_run = open_record timestamp run_id flags in
        and_then-Holds (Created packages flags) _ _ (λ named e.
          and_then-Holds (Created packages flags) _ _ (λ opened f.
            let written = write_items lmdb actions clock run_id 0 packages opened in
            let active : lmdb.get opened active_run_key ≡ some run_id =
              get-put_other lmdb store named opened _ _ active_run_key f (run_key-ne-active run_id)
              ∙ get-put_self lmdb store d named active_run_key run_id e in
            let run : Opened run_id flags opened =
              (opened_run, get-put_self lmdb store named opened _ _ f, refl, refl, refl) in
            Holds-three (λ x. lmdb.get x active_run_key ≡ some run_id) (Opened run_id flags)
              (PlannedAll packages) written
              (write_items_same (λ x. lmdb.get x active_run_key ≡ some run_id) active_run_key 0
                packages opened (λ x y same h. same ∙ h) (item_key-ne-active actions run_id) active)
              (write_items_same (Opened run_id flags) (transaction_database_run_key run_id) 0
                packages opened (λ x y same h. (h.0, same ∙ h.1, h.2, h.3, h.4))
                (item_key-ne-run_key actions run_id run_id) run)
              (write_items-Planned 0 packages opened)))

-- ===== src/State/Database/Changes/Update.antt =====
-- What an update of items leaves in the database.
use req_pack_core.Prelude.{
  ℕ, true, ◌&&◌, ◌==◌, nat_eq, Text, text_eq, text_beq_iff, List, [], ◌∷◌, ◌⊎◌, Option, none, some,
  ◌≡◌, refl, sym, ap, ◌∙◌, Bool-cases, inl, inr, true_ne_false, All,
}
use req_pack_core.Types.{Package}
use req_pack_core.State.Records.{TransactionRunRecord, TransactionItemRecord, ActionCodes}
use req_pack_core.State.Keys.{transaction_database_item_key}
use req_pack_core.State.Items.{transaction_database_serialize_item}
use req_pack_core.State.Store.{Lmdb, IsStore}
use req_pack_core.State.Database.{TransactionDatabase, ensure_ready, now_timestamp}
use req_pack_core.State.Database.Changes.{
  stored_item, put_status, update_item, update_items, put_run, touch_run, close_update,
  update_items_status, stored_run,
}
use req_pack_core.State.Database.Outcome.{
  Holds, and_then-Holds, Holds-self, Holds-step, Holds-both, get-put_self, get-put_other,
  finish-Holds, run_key-ne-item_key,
}

module _ {D : Type 0} (lmdb : Lmdb D) (store : IsStore lmdb) (actions : ActionCodes)
    (status error_message : Text) where
  -- The key holds an item with the status and the message.
  abbrev pub Marked : Text → D → Type 0
  Marked key d =
      (item : TransactionItemRecord) × (lmdb.get d key
        ≡ some (transaction_database_serialize_item actions item))
      × (item.status ≡ status)
      × (item.error_message ≡ error_message)

  put-Marked :
      (key at_key : Text) (item : TransactionItemRecord) (d d' : D)
      → lmdb.put d at_key (transaction_database_serialize_item actions item) ≡ some d'
      → item.status ≡ status
      → item.error_message ≡ error_message
      → (at_key ≡ key) ⊎ Marked key d
      → Marked key d'
  put-Marked key at_key item d d' e s m (inl same) =
      (item, ap (lmdb.get d') (sym same) ∙ get-put_self lmdb store d d' at_key _ e, s, m)
  put-Marked key at_key item d d' e s m (inr (old, stored, s', m')) =
      elim (Bool-cases (at_key == key)) [
        | inl same ↦ (
          item,
          ap (lmdb.get d') (sym ((text_beq_iff at_key key).0 same))
              ∙ get-put_self lmdb store d d' at_key _ e,
          s,
          m,
        )
        | inr other ↦ (old, get-put_other lmdb store d d' at_key _ key e other ∙ stored, s', m')
      ]

  module _ (clock : ℕ → ℕ) (run_id : Text) where
    put_status-Marked :
        (key at_key : Text) (d : D) (item : Option TransactionItemRecord)
        → (at_key ≡ key) ⊎ Marked key d
        → Holds (Marked key) (put_status lmdb actions clock at_key status error_message d item)
    unfolding put_status
    put_status-Marked key at_key d none h = tt
    put_status-Marked key at_key d (some item) h =
        let written = record item { status = status; error_message = error_message } in
        Holds-self (Marked key)
          (lmdb.put d at_key (transaction_database_serialize_item actions written))
          (λ d' e. put-Marked key at_key written d d' e refl refl h)

    update_item-Marked :
        (key : Text) (pkg : Package) (d : D)
        → (transaction_database_item_key actions run_id pkg ≡ key) ⊎ Marked key d
        → Holds (Marked key) (update_item lmdb actions clock run_id status error_message pkg d)
    unfolding update_item
    update_item-Marked key pkg d h =
        let at_key = transaction_database_item_key actions run_id pkg in
        put_status-Marked key at_key d (stored_item lmdb actions clock at_key d) h

    pub update_items-Marked_kept :
        (key : Text) (packages : List Package) (d : D)
        → Marked key d
        → Holds
            (Marked key)
            (update_items lmdb actions clock run_id status error_message packages d)
    unfolding update_items
    update_items-Marked_kept key [] d h = h
    update_items-Marked_kept key (pkg ∷ rest) d h =
        let first = update_item lmdb actions clock run_id status error_message pkg d in
        and_then-Holds (Marked key) first
          (update_items lmdb actions clock run_id status error_message rest)
          (λ d' e.
            update_items-Marked_kept key rest d'
              (Holds-step (Marked key) first (update_item-Marked key pkg d (inr h)) d' e))

    abbrev pub MarkedAll : List Package → D → Type 0
    MarkedAll packages d =
        All (λ pkg. Marked (transaction_database_item_key actions run_id pkg) d) packages

    update_items-Marked :
        (packages : List Package) (d : D)
        → Holds
            (MarkedAll packages)
            (update_items lmdb actions clock run_id status error_message packages d)
    unfolding update_items
    update_items-Marked [] d = tt
    update_items-Marked (pkg ∷ rest) d =
        let key = transaction_database_item_key actions run_id pkg in
        let first = update_item lmdb actions clock run_id status error_message pkg d in
        and_then-Holds (MarkedAll (pkg ∷ rest)) first
          (update_items lmdb actions clock run_id status error_message rest)
          (λ d' e.
            Holds-both (Marked key) (MarkedAll rest)
              (update_items lmdb actions clock run_id status error_message rest d')
              (update_items-Marked_kept key rest d'
                (Holds-step (Marked key) first (update_item-Marked key pkg d (inl refl)) d' e))
              (update_items-Marked rest d'))

    pub MarkedAll-same :
        (packages : List Package) (d d' : D)
        → ((pkg : Package)
            → lmdb.get d' (transaction_database_item_key actions run_id pkg)
              ≡ lmdb.get d (transaction_database_item_key actions run_id pkg))
        → MarkedAll packages d
        → MarkedAll packages d'
    MarkedAll-same [] d d' same h = tt
    MarkedAll-same (pkg ∷ rest) d d' same h =
        ((h.0.0, same pkg ∙ h.0.1, h.0.2, h.0.3), MarkedAll-same rest d d' same h.1)

    -- Writing the run leaves the items alone.
    put_run-Marked :
        (packages : List Package) (run : TransactionRunRecord) (d : D)
        → MarkedAll packages d
        → Holds (MarkedAll packages) (put_run lmdb actions clock run_id run d)
    unfolding put_run
    put_run-Marked packages run d h = Holds-self (MarkedAll packages) (lmdb.put d _ _) (λ d' e.
        MarkedAll-same packages d d'
          (λ pkg.
            get-put_other lmdb store d d' _ _ _ e (run_key-ne-item_key actions run_id run_id pkg))
          h)

    touch_run-Marked :
        (packages : List Package) (d : D) (t : TransactionDatabase D)
        (run : Option TransactionRunRecord)
        → MarkedAll packages d
        → (touch_run lmdb actions clock run_id d t run).0 ≡ true
        → MarkedAll packages (touch_run lmdb actions clock run_id d t run).1.env
    unfolding touch_run now_timestamp
    touch_run-Marked packages d t none h e =
        finish-Holds lmdb actions clock (MarkedAll packages) t (some d) h e
    touch_run-Marked packages d t (some run) h e =
        finish-Holds lmdb actions clock (MarkedAll packages) _ _ (put_run-Marked packages _ d h) e

    pub close_update-Marked :
        (packages : List Package) (t : TransactionDatabase D) (o : Option D)
        → Holds (MarkedAll packages) o
        → (close_update lmdb actions clock run_id t o).0 ≡ true
        → MarkedAll packages (close_update lmdb actions clock run_id t o).1.env
    unfolding close_update
    close_update-Marked packages t none h e = elim (true_ne_false (sym e)) [ ]
    close_update-Marked packages t (some d) h e =
        touch_run-Marked packages d t (stored_run lmdb actions clock run_id d) h e

    -- An update that succeeds leaves an item with the status and the message under the key of each
    -- of the packages.
    pub update_items_status-Marked :
        (packages : List Package) (t : TransactionDatabase D)
        → (update_items_status lmdb actions clock run_id packages status error_message t).0 ≡ true
        → MarkedAll packages
            (update_items_status lmdb actions clock run_id packages status error_message t).1.env
    unfolding update_items_status
    update_items_status-Marked packages t e =
        let ready = ensure_ready lmdb actions clock t in
        let o = update_items lmdb actions clock run_id status error_message packages ready.1.env in
        elim (Bool-cases (ready.0 && lmdb.begins ready.1.env)) [
          | inl up ↦ rw up (
              close_update-Marked packages ready.1 o (update_items-Marked packages ready.1.env)
                (rw up at e))
          | inr shut ↦ elim (true_ne_false (sym (rw shut at e))) [ ]
        ]

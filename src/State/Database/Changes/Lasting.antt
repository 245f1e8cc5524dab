-- ===== src/State/Database/Changes/Lasting.antt =====
-- Items that are marked stay marked by further updates.
use req_pack_core.Prelude.{
  ℕ, Bool, true, ◌&&◌, Text, List, [], ◌∷◌, ◌≡◌, sym, Bool-cases, if_cases, inl, inr, true_ne_false,
}
use req_pack_core.Types.{Package}
use req_pack_core.State.Records.{ActionCodes}
use req_pack_core.State.Keys.{transaction_database_item_key}
use req_pack_core.State.Store.{Lmdb, IsStore}
use req_pack_core.State.Database.{TransactionDatabase, ensure_ready}
use req_pack_core.State.Database.Frame.{get-ensure_ready}
use req_pack_core.State.Database.Changes.{update_items, update_items_status, update_item_status}
use req_pack_core.State.Database.Changes.Failure.{update_items_status_unchanged}
use req_pack_core.State.Database.Changes.Update.{
  MarkedAll, MarkedAll-same, close_update-Marked, update_items-Marked_kept,
  update_items_status-Marked,
}
use req_pack_core.State.Database.Outcome.{Holds, Holds-self, Holds-both}

module _ {D : Type 0} (lmdb : Lmdb D) (store : IsStore lmdb) (actions : ActionCodes)
    (status error_message : Text) (clock : ℕ → ℕ) (run_id : Text) where
  abbrev Done : List Package → D → Type 0
  Done = MarkedAll lmdb store actions status error_message clock run_id

  update_items-Done :
      (done packages : List Package) (d : D)
      → Done done d
      → Holds (Done done) (update_items lmdb actions clock run_id status error_message packages d)
  update_items-Done [] packages d h = Holds-self (Done []) _ (λ d' e. tt)
  update_items-Done (pkg ∷ done) packages d h =
      Holds-both _ (Done done)
        (update_items lmdb actions clock run_id status error_message packages d)
        (update_items-Marked_kept lmdb store actions status error_message clock run_id
          (transaction_database_item_key actions run_id pkg) packages d h.0)
        (update_items-Done done packages d h.1)

  succeeds-Done :
      (done packages : List Package) (t : TransactionDatabase D)
      → Done done t.env
      → (update_items_status lmdb actions clock run_id packages status error_message t).0 ≡ true
      → Done done
          (update_items_status lmdb actions clock run_id packages status error_message t).1.env
  unfolding update_items_status
  succeeds-Done done packages t h =
      let ready = ensure_ready lmdb actions clock t in
      let opened =
        MarkedAll-same lmdb store actions status error_message clock run_id done t.env ready.1.env
          (λ pkg. get-ensure_ready lmdb store _ actions clock t) h in
      if_cases (λ (y : Bool × TransactionDatabase D). y.0 ≡ true → Done done y.1.env)
        (ready.0 && lmdb.begins ready.1.env)
        (λ up.
          close_update-Marked lmdb store actions status error_message clock run_id done ready.1 _
            (update_items-Done done packages ready.1.env opened))
        (λ shut e. elim (true_ne_false (sym e)) [ ])

  -- Whether or not the update succeeds.
  pub update_items_status-Marked_kept :
      (done packages : List Package) (t : TransactionDatabase D)
      → Done done t.env
      → Done done
          (update_items_status lmdb actions clock run_id packages status error_message t).1.env
  update_items_status-Marked_kept done packages t h =
      let after = update_items_status lmdb actions clock run_id packages status error_message t in
      elim (Bool-cases after.0) [
        | inl e ↦ succeeds-Done done packages t h e
        | inr e ↦
            MarkedAll-same lmdb store actions status error_message clock run_id done t.env
              after.1.env
              (λ pkg.
                update_items_status_unchanged lmdb store actions clock run_id _ t packages status
                  error_message e)
              h
      ]

  -- The same for the update of one item.
  pub update_item_status-Marked :
      (pkg : Package) (t : TransactionDatabase D)
      → (update_item_status lmdb actions clock run_id pkg status error_message t).0 ≡ true
      → Done
          (pkg ∷ [])
          (update_item_status lmdb actions clock run_id pkg status error_message t).1.env
  unfolding update_item_status
  update_item_status-Marked pkg t =
      update_items_status-Marked lmdb store actions status error_message clock run_id (pkg ∷ []) t

  pub update_item_status-Marked_kept :
      (done : List Package) (pkg : Package) (t : TransactionDatabase D)
      → Done done t.env
      → Done done (update_item_status lmdb actions clock run_id pkg status error_message t).1.env
  unfolding update_item_status
  update_item_status-Marked_kept done pkg t = update_items_status-Marked_kept done (pkg ∷ []) t

-- ===== src/Scheduler/Executor/Recovery/Origin.antt =====
-- Where the packages of the recovered groups come from.
use req_pack_core.Prelude.{
  ℕ, true, false, not, text_eq, codes, List, [], ◌∷◌, ◌++◌, keep_if, Option, none, some, ◌≡◌, ◌≢◌,
  ◌⊎◌,
}
use req_pack_core.Types.{Package}
use req_pack_core.State.Records.{TransactionRunRecord, TransactionItemRecord, ActionCodes}
use req_pack_core.State.Store.{Lmdb}
use req_pack_core.State.Database.{TransactionDatabase, get_run_items}
use req_pack_core.Scheduler.Executor.{PluginHost}
use req_pack_core.Scheduler.Executor.Recovery.{is_finished, split_items}
use req_pack_core.Scheduler.Executor.Recovery.Reconciled.{is_reconciled, resolved_item}
use req_pack_core.Scheduler.Executor.Recovery.Accounted.{Listed}

-- The status is none of the three with which an item is finished.
abbrev pub NotFinished : TransactionItemRecord → Type 0
NotFinished item =
    (item.status ≢ codes "success")
    × (item.status ≢ codes "committed")
    × (item.status ≢ codes "failed")

module _ {S D : Type 0} (host : PluginHost S) (lmdb : Lmdb D) (actions : ActionCodes)
    (clock : ℕ → ℕ) where
  -- The items of a run that are neither done nor failed, in their order.
  abbrev pub open_items : List TransactionItemRecord → List TransactionItemRecord
  open_items items = keep_if (λ item. not (is_finished item)) items

  -- The package of an item, as the first loop leaves it that comes to the item in the state `came`:
  -- with the system resolved if the item is reconciled.
  abbrev Came : TransactionItemRecord → S → Package → Type 0
  Came item came pkg =
      ((is_reconciled host item came ≡ false) × (pkg ≡ item.pkg))
      ⊎ ((is_reconciled host item came ≡ true) × (pkg ≡ (resolved_item host came item).pkg))

  -- A package of a stored item that is not finished.
  abbrev pub Unfinished : List TransactionItemRecord → S → Package → Type 0
  Unfinished items s pkg =
      (before after : List TransactionItemRecord) × (item : TransactionItemRecord) × (open_items
          items
        ≡ before ++ (item ∷ after))
      × Listed item items
      × NotFinished item
      × Came item (split_items host before s).1 pkg

  -- The items of the run that is read.
  abbrev pub items_of_run :
      Option TransactionRunRecord × TransactionDatabase D → List TransactionItemRecord
  items_of_run (none, t) = []
  items_of_run (some run, t) = (get_run_items lmdb actions clock run.id t).0

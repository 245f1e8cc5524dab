-- ===== src/Scheduler/Executor/Results/Settled.antt =====
-- What the executor leaves of a run in the transaction database.
use req_pack_core.Prelude.{
  ℕ, Bool, true, false, ◌==◌, Text, text_eq, codes, List, [], ◌∷◌, is_empty, all_of, ◌≡◌, refl, ◌∙◌,
  sym, All, text_beq_iff, true_ne_false, arith, ◌⊎◌, inl, inr, Bool-cases,
}
use req_pack_core.State.Records.{TransactionItemRecord, ActionCodes}
use req_pack_core.State.Keys.{transaction_database_run_key}
use req_pack_core.State.Store.{Lmdb, IsStore}
use req_pack_core.State.Database.{TransactionDatabase, get_run_items}
use req_pack_core.State.Database.Changes.{mark_run_state, mark_run_committed}
use req_pack_core.State.Database.Changes.Commit.{
  Stored, CommittedRun, mark_run_committed-CommittedRun,
}
use req_pack_core.State.Database.Changes.RunState.{get-mark_run_state_other, mark_run_state-Stored}
use req_pack_core.State.Database.Changes.Failure.{
  mark_run_state_unchanged, mark_run_committed_unchanged,
}
use req_pack_core.State.Database.Frame.{get-get_run_items}
use req_pack_core.Scheduler.Executor.{ExecutorState}
use req_pack_core.Scheduler.Executor.Results.{is_done, commit_or_fail, mark_committed_transactions}

-- An item that is stored as a success, or as committed.
abbrev pub IsDone : TransactionItemRecord → Type 0
IsDone item = (item.status ≡ codes "success") ⊎ (item.status ≡ codes "committed")

is_done-IsDone : (item : TransactionItemRecord) → is_done item ≡ true → IsDone item
is_done-IsDone item e = elim (Bool-cases (item.status == codes "success")) [
  | inl s ↦ inl ((text_beq_iff _ _).0 s)
  | inr n ↦ inr ((text_beq_iff item.status (codes "committed")).0 (ground arith))
]

IsDone-is_done : (item : TransactionItemRecord) → IsDone item → is_done item ≡ true
IsDone-is_done item (inl e) = ground (arith, (text_beq_iff item.status (codes "success")).1 e)
IsDone-is_done item (inr e) = ground (arith, (text_beq_iff item.status (codes "committed")).1 e)

all_of-IsDone :
    (items : List TransactionItemRecord) → all_of is_done items ≡ true → All IsDone items
unfolding all_of
all_of-IsDone [] e = tt
all_of-IsDone (item ∷ rest) e = elim (Bool-cases (is_done item)) [
  | inl done ↦ (is_done-IsDone item done, all_of-IsDone rest (rw done at e))
  | inr open_ ↦ elim (true_ne_false (sym (rw open_ at e))) [ ]
]

IsDone-all_of :
    (items : List TransactionItemRecord) → All IsDone items → all_of is_done items ≡ true
unfolding all_of
IsDone-all_of [] h = refl
IsDone-all_of (item ∷ rest) h = rw (IsDone-is_done item h.0) (IsDone-all_of rest h.1)

module _ {D : Type 0} (lmdb : Lmdb D) (store : IsStore lmdb) (actions : ActionCodes) (clock : ℕ → ℕ)
    (run_id : Text) where
  abbrev pub Unchanged : D → D → Type 0
  Unchanged d d' = (key : Text) → lmdb.get d' key ≡ lmdb.get d key

  -- A change of the run that is made, or that fails and changes nothing.
  abbrev Made : Bool → Type 0 → D → D → Type 0
  Made succeeded Done d d' = ((succeeded ≡ true) × Done) ⊎ ((succeeded ≡ false) × Unchanged d d')

  -- Every item is done, and the run is committed; or some item is not, and the run is failed.
  abbrev pub Settled : List TransactionItemRecord → TransactionDatabase D → D → D → Type 0
  Settled items t d d' =
      (All IsDone items
        × Made (mark_run_committed lmdb actions clock run_id t).0
            (CommittedRun lmdb store actions clock run_id d') d d')
      ⊎ ((¬ (All IsDone items))
          × ((key : Text)
              → (transaction_database_run_key run_id == key) ≡ false
              → lmdb.get d' key ≡ lmdb.get d key)
          × Made (mark_run_state lmdb actions clock run_id (codes "failed") t).0
              (Stored lmdb store actions clock run_id (codes "failed") d') d d')

  committed-Made :
      (t : TransactionDatabase D)
      → let out = mark_run_committed lmdb actions clock run_id t in
        Made out.0 (CommittedRun lmdb store actions clock run_id out.1.env) t.env out.1.env
  committed-Made t = elim (Bool-cases (mark_run_committed lmdb actions clock run_id t).0) [
    | inl e ↦ inl (e, mark_run_committed-CommittedRun lmdb store actions clock run_id t e)
    | inr e ↦ inr (e, λ key. mark_run_committed_unchanged lmdb store actions clock run_id key t e)
  ]

  failed-Made :
      (t : TransactionDatabase D)
      → let out = mark_run_state lmdb actions clock run_id (codes "failed") t in
        Made out.0
          (Stored lmdb store actions clock run_id (codes "failed") out.1.env)
          t.env
          out.1.env
  failed-Made t =
      elim (Bool-cases (mark_run_state lmdb actions clock run_id (codes "failed") t).0) [
        | inl e ↦
            inl (e, mark_run_state-Stored lmdb store actions clock run_id (codes "failed") t e)
        | inr e ↦ inr (
          e,
          λ key. mark_run_state_unchanged lmdb store actions clock run_id key t (codes "failed") e,
        )
      ]

  commit_or_fail-Settled :
      (items : List TransactionItemRecord) (t : TransactionDatabase D)
      → Settled items t t.env (commit_or_fail lmdb actions clock run_id (items, t)).env
  unfolding commit_or_fail
  commit_or_fail-Settled items t = elim (Bool-cases (all_of is_done items)) [
    | inl e ↦ rw e (inl (all_of-IsDone items e, committed-Made t))
    | inr e ↦ rw e (
        inr (
          (λ h. true_ne_false (sym (IsDone-all_of items h) ∙ e)),
          (λ key. get-mark_run_state_other lmdb store actions clock run_id (codes "failed") key t),
          failed-Made t,
        ))
  ]

  Made-from :
      (succeeded : Bool) (Done : Type 0) (d d0 d' : D)
      → Unchanged d d0
      → Made succeeded Done d0 d'
      → Made succeeded Done d d'
  Made-from succeeded Done d d0 d' same (inl h) = inl h
  Made-from succeeded Done d d0 d' same (inr (e, kept)) = inr (e, λ key. kept key ∙ same key)

  Settled-from :
      (items : List TransactionItemRecord) (t : TransactionDatabase D) (d d0 d' : D)
      → Unchanged d d0
      → Settled items t d0 d'
      → Settled items t d d'
  Settled-from items t d d0 d' same (inl (done, made)) = inl (done, Made-from _ _ d d0 d' same made)
  Settled-from items t d d0 d' same (inr (open_, others, made)) =
      inr (open_, (λ key e. others key e ∙ same key), Made-from _ _ d d0 d' same made)

module _ {S D : Type 0} (lmdb : Lmdb D) (store : IsStore lmdb) (actions : ActionCodes)
    (clock : ℕ → ℕ) (x : ExecutorState S D) where
  abbrev pub items_read : List TransactionItemRecord × TransactionDatabase D
  items_read = get_run_items lmdb actions clock x.active_run_id x.database

  -- For an executor that has a run: where every item that is read has the status success or
  -- committed, which holds too where the read fails and gives no items, the run is committed and
  -- released if `markRunCommitted` succeeds, and no entry changes if it fails. Otherwise all keys but
  -- that of the run stay as they are, and the run is stored as failed if `markRunState` succeeds, and
  -- no entry changes if it fails.
  pub mark_committed_transactions-Settled :
      is_empty x.active_run_id ≡ false
      → Settled lmdb store actions clock x.active_run_id items_read.0 items_read.1 x.database.env
          (mark_committed_transactions lmdb actions clock x).database.env
  unfolding mark_committed_transactions
  mark_committed_transactions-Settled named = rw named (
      Settled-from lmdb store actions clock x.active_run_id items_read.0 items_read.1 x.database.env
        items_read.1.env _
        (λ key. get-get_run_items lmdb store key actions clock x.active_run_id x.database)
        (commit_or_fail-Settled lmdb store actions clock x.active_run_id items_read.0 items_read.1))

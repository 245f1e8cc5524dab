-- ===== src/Scheduler/Executor/Transactional/Marking.antt =====
-- What is in the transaction database before a plugin is called for a group.
use req_pack_core.Prelude.{
  ℕ, Bool, false, Text, codes, List, [], ◌≡◌, refl, ◌⊎◌, inl, inr, if_cases, true_ne_false, sym,
  ◌∙◌,
}
use req_pack_core.State.Records.{ActionCodes}
use req_pack_core.State.Store.{Lmdb, IsStore}
use req_pack_core.State.Database.Changes.{update_items_status}
use req_pack_core.State.Database.Changes.Update.{MarkedAll, update_items_status-Marked}
use req_pack_core.Scheduler.Groups.{TaskGroup}
use req_pack_core.Scheduler.Sequential.{TransactionRecord}
use req_pack_core.Scheduler.Executor.{PluginHost, ExecutorState}
use req_pack_core.Scheduler.Executor.Transactional.{
  failure_records, when_marked, with_host, run_task_group,
}

module _ {S D : Type 0} (host : PluginHost S) (preloaded : Bool) (lmdb : Lmdb D)
    (store : IsStore lmdb) (actions : ActionCodes) (clock : ℕ → ℕ) (group : TaskGroup)
    (run_id : Text) (x : ExecutorState S D) where
  abbrev MarkedOrRefused : List TransactionRecord × ExecutorState S D → Type 0
  MarkedOrRefused (records, x') =
      MarkedAll lmdb store actions (codes "running") [] clock run_id group.packages x'.database.env
      ⊎ ((x'.host ≡ x.host)
          × (records
              ≡ failure_records group run_id (codes "transaction update failed") group.packages))

  -- A group without a local target is either stored as running, each of its packages, or no plugin
  -- is called and every package is reported as failed because of the database.
  pub run_task_group-Marked :
      group.uses_local_target ≡ false
      → MarkedAll lmdb store actions
          (codes "running")
          []
          clock
          run_id
          group.packages
          (run_task_group group run_id host preloaded lmdb actions clock x).1.database.env
        ⊎ (((run_task_group group run_id host preloaded lmdb actions clock x).1.host ≡ x.host)
            × ((run_task_group group run_id host preloaded lmdb actions clock x).0
                ≡ failure_records group run_id (codes "transaction update failed") group.packages))
  unfolding run_task_group when_marked with_host
  run_task_group-Marked remote =
      let marked =
        update_items_status lmdb actions clock run_id group.packages (codes "running") []
          x.database in
      if_cases MarkedOrRefused group.uses_local_target
        (λ local. elim (true_ne_false (sym local ∙ remote)) [ ])
        (λ e.
          if_cases MarkedOrRefused marked.0
            (λ m. inl (
              update_items_status-Marked lmdb store actions (codes "running") [] clock run_id
                group.packages x.database m))
            (λ m. inr (refl, refl)))

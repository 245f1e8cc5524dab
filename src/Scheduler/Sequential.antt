-- ===== src/Scheduler/Sequential.antt =====
-- engine/scheduler/parallel_task_scheduler.cpp, `run_sequential`. `execute` stands for
-- `executor.executeTaskGroup` on the group of an index, over a state of its own.
pub mod Trace
pub mod Order
mod Samples
use req_pack_core.Prelude.{
  ℕ, zero, suc, ◌+◌, ◌-◌, ltb, Bool, true, false, not, ◌&&◌, ◌||◌, ◌==◌, if◌then◌else◌, nat_eq,
  Text, text_eq, codes, List, [], ◌∷◌, ◌++◌, any_of,
}
use req_pack_core.Types.{ActionType}
use req_pack_core.Scheduler.Family.{update}
use req_pack_core.Scheduler.Parallel.{Plans}

pub record TransactionRecord : Type 0 where
  pub run_id : Text
  pub system : Text
  pub action : ActionType
  pub package_name : Text
  pub package_version : Text
  pub status : Text
  pub error_message : Text

pub has_failure : List TransactionRecord → Bool
has_failure records = any_of (λ r. r.status == codes "failed") records

-- The variables of the loop, and the state of the executor.
pub record SequentialRun (S : Type 0) : Type 0 where
  pub records : List TransactionRecord
  pub pending_dependencies : ℕ → ℕ
  pub blocked : ℕ → Bool
  pub executor : S

-- One turn of the loop over the successors of a group that has run.
pub block_successor : {S : Type 0} → Bool → ℕ → SequentialRun S → SequentialRun S
block_successor has_failed successor run =
    let left = run.pending_dependencies successor in
    record run {
      pending_dependencies =
          update run.pending_dependencies successor (if ltb 0 left then left - 1 else left);
      blocked = if has_failed then update run.blocked successor true else run.blocked;
    }

pub block_successors : {S : Type 0} → Bool → List ℕ → SequentialRun S → SequentialRun S
unfolding block_successor
block_successors has_failed [] run = run
block_successors has_failed (successor ∷ rest) run =
    block_successors has_failed rest (block_successor has_failed successor run)

module _ {S : Type 0} (execute : S → ℕ → List TransactionRecord × S) (stop_on_first_failure : Bool)
    (plans : Plans) where
  pub run_group : ℕ → SequentialRun S → SequentialRun S
  unfolding block_successors
  run_group index run =
      let out = execute run.executor index in
      block_successors (has_failure out.0) (plans.successors index)
        (record run { records = run.records ++ out.0; executor = out.1 })

  -- The groups from an index on; `more` of them are left.
  run_from : ℕ → ℕ → SequentialRun S → SequentialRun S
  unfolding run_group
  run_from zero index run = run
  run_from (suc more) index run =
      let skipped = run.blocked index || not (run.pending_dependencies index == 0) in
      let next = if skipped then run else run_group index run in
      let rest = run_from more (suc index) next in
      if not skipped && has_failure (execute run.executor index).0 && stop_on_first_failure
      then next
      else rest

  pub run_sequential : S → SequentialRun S
  unfolding run_from
  run_sequential executor = run_from plans.size 0 (record {
    records = [];
    pending_dependencies = plans.pending_dependencies;
    blocked = λ index. false;
    executor = executor;
  })

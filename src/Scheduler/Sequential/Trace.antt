-- ===== src/Scheduler/Sequential/Trace.antt =====
-- What a sequential run has executed, and what holds of it between two turns of the loop.
use req_pack_core.Prelude.{
  ℕ, suc, ◌-◌, ◌<◌, ltb, Bool, true, false, ◌&&◌, ◌||◌, ◌==◌, if◌then◌else◌, nat_eq, List, [], ◌∷◌,
  ◌≡◌, refl, arith,
}
use req_pack_core.Scheduler.Family.{count}
use req_pack_core.Scheduler.Parallel.{Plans}
use req_pack_core.Scheduler.Parallel.Invariant.{Precedes, waits}
use req_pack_core.Scheduler.Sequential.{
  TransactionRecord, SequentialRun, has_failure, block_successors, block_successor,
}

block_one-pending :
    {S : Type 0} (has_failed : Bool) (i j : ℕ) (run : SequentialRun S)
    → (block_successor has_failed i run).pending_dependencies j
      ≡ run.pending_dependencies j - (if i == j then 1 else 0)
unfolding block_successor
block_one-pending has_failed i j run = ground arith

block_one-blocked :
    {S : Type 0} (has_failed : Bool) (i j : ℕ) (run : SequentialRun S)
    → (block_successor has_failed i run).blocked j ≡ (run.blocked j || has_failed && i == j)
unfolding block_successor
block_one-blocked has_failed i j run = ground arith

pub block-pending :
    {S : Type 0} (has_failed : Bool) (successors : List ℕ) (run : SequentialRun S) (j : ℕ)
    → (block_successors has_failed successors run).pending_dependencies j
      ≡ run.pending_dependencies j - count j successors
unfolding block_successors count
block-pending has_failed [] run j = omega arith
block-pending has_failed (i ∷ rest) run j = omega (
  arith,
  block-pending has_failed rest (block_successor has_failed i run) j,
  block_one-pending has_failed i j run,
)

pub block-blocked :
    {S : Type 0} (has_failed : Bool) (successors : List ℕ) (run : SequentialRun S) (j : ℕ)
    → (block_successors has_failed successors run).blocked j
      ≡ (run.blocked j || has_failed && ltb 0 (count j successors))
unfolding block_successors count
block-blocked has_failed [] run j = ground arith
block-blocked has_failed (i ∷ rest) run j = ground (
  arith,
  block-blocked has_failed rest (block_successor has_failed i run) j,
  block_one-blocked has_failed i j run,
)

pub block-executor :
    {S : Type 0} (has_failed : Bool) (successors : List ℕ) (run : SequentialRun S)
    → (block_successors has_failed successors run).executor ≡ run.executor
unfolding block_successors block_successor
block-executor has_failed [] run = refl
block-executor has_failed (i ∷ rest) run =
    block-executor has_failed rest (block_successor has_failed i run)

-- The groups that were executed, the latest in front, and whether each one failed.
abbrev pub Trace : Type 0
Trace = List (ℕ × Bool)

-- An executor that notes what it executes.
unfoldable pub traced :
    {S : Type 0}
    → (S → ℕ → List TransactionRecord × S)
    → S × Trace
    → ℕ
    → List TransactionRecord × (S × Trace)
traced execute (s, trace) index =
    let out = execute s index in (out.0, (out.1, (index, has_failure out.0) ∷ trace))

abbrev pub ran : Trace → ℕ → Bool
ran [] p = false
ran ((i, f) ∷ trace) p = i == p || ran trace p

abbrev pub has_failed_in : Trace → ℕ → Bool
has_failed_in [] p = false
has_failed_in ((i, f) ∷ trace) p = i == p && f || has_failed_in trace p

pub lt_irrefl : (n : ℕ) → n < n → ⊥
lt_irrefl n h = omega arith

module _ (plans : Plans) where
  -- Each group was executed once, and behind the groups before it, none of which failed.
  abbrev pub InOrder : Trace → Type 0
  InOrder [] = Unit
  InOrder ((j, f) ∷ older) =
      (ran older j ≡ false)
      × ((p : ℕ)
          → p < plans.size
          → Precedes plans p j
          → (ran older p ≡ true) × (has_failed_in older p ≡ false))
      × InOrder older

  module _ {S : Type 0} where
    pub record IsBehind (index : ℕ) (run : SequentialRun (S × Trace)) : Type 0 where
      pub waiting :
          (j : ℕ) → j < plans.size → run.pending_dependencies j ≡ waits plans (ran run.executor.1) j
      pub stopped :
          (p j : ℕ)
          → has_failed_in run.executor.1 p ≡ true
          → Precedes plans p j
          → run.blocked j ≡ true
      pub behind : (p : ℕ) → ran run.executor.1 p ≡ true → p < index
      pub in_order : InOrder run.executor.1

    pub IsBehind-later :
        (index : ℕ) (run : SequentialRun (S × Trace))
        → IsBehind index run
        → IsBehind (suc index) run
    IsBehind-later index run inv = record {
      waiting = inv.waiting;
      stopped = inv.stopped;
      behind = λ p r. let h = inv.behind p r in omega arith;
      in_order = inv.in_order;
    }

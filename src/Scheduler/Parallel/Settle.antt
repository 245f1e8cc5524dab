-- ===== src/Scheduler/Parallel/Settle.antt =====
-- What the loop over the successors of a group changes.
use req_pack_core.Prelude.{
  ℕ, ◌-◌, ◌<◌, ltb, Bool, true, false, ◌&&◌, ◌||◌, ◌==◌, if◌then◌else◌, nat_eq, text_eq, List, [],
  ◌∷◌, ◌++◌, ◌≡◌, refl, arith, All-append,
}
use req_pack_core.Scheduler.Family.{count}
use req_pack_core.Scheduler.Parallel.{
  Plans, ParallelExecutionState, settle_successor, settle_successors,
}
use req_pack_core.Scheduler.Parallel.Scan.{InRange}

-- What the loop leaves alone.
pub record IsKept (s t : ParallelExecutionState) : Type 0 where
  pub started : t.started ≡ s.started
  pub completed : t.completed ≡ s.completed
  pub busy_systems : t.busy_systems ≡ s.busy_systems

pub settle-IsKept :
    (has_failed : Bool) (successors : List ℕ) (s : ParallelExecutionState)
    → IsKept s (settle_successors has_failed successors s)
unfolding settle_successors
settle-IsKept has_failed [] s = record { started = refl; completed = refl; busy_systems = refl }
settle-IsKept has_failed (j ∷ rest) s =
    let ih = settle-IsKept has_failed rest (settle_successor has_failed j s) in
    record { started = ih.started; completed = ih.completed; busy_systems = ih.busy_systems }

settle_one-pending :
    (has_failed : Bool) (j i : ℕ) (s : ParallelExecutionState)
    → (settle_successor has_failed j s).pending_dependencies i
      ≡ s.pending_dependencies i - (if j == i then 1 else 0)
unfolding settle_successor
settle_one-pending has_failed j i s = ground arith

-- Each mention of a group takes one from its pending dependencies.
pub settle-pending :
    (has_failed : Bool) (successors : List ℕ) (s : ParallelExecutionState) (i : ℕ)
    → (settle_successors has_failed successors s).pending_dependencies i
      ≡ s.pending_dependencies i - count i successors
unfolding settle_successors count
settle-pending has_failed [] s i = omega arith
settle-pending has_failed (j ∷ rest) s i = omega (
  arith,
  settle-pending has_failed rest (settle_successor has_failed j s) i,
  settle_one-pending has_failed j i s,
)

settle_one-failed :
    (has_failed : Bool) (j i : ℕ) (s : ParallelExecutionState)
    → (settle_successor has_failed j s).failed i ≡ (s.failed i || has_failed && j == i)
unfolding settle_successor
settle_one-failed has_failed j i s = ground arith

-- A failure marks the groups that are mentioned; no mark is taken back.
pub settle-failed :
    (has_failed : Bool) (successors : List ℕ) (s : ParallelExecutionState) (i : ℕ)
    → (settle_successors has_failed successors s).failed i
      ≡ (s.failed i || has_failed && ltb 0 (count i successors))
unfolding settle_successors count
settle-failed has_failed [] s i = ground arith
settle-failed has_failed (j ∷ rest) s i = ground (
  arith,
  settle-failed has_failed rest (settle_successor has_failed j s) i,
  settle_one-failed has_failed j i s,
)

if-InRange :
    (plans : Plans) (b : Bool) (xs ys : List ℕ)
    → InRange plans xs
    → InRange plans ys
    → InRange plans (if b then xs else ys)
if-InRange plans true xs ys hx hy = hx
if-InRange plans false xs ys hx hy = hy

settle_one-InRange :
    (plans : Plans) (has_failed : Bool) (j : ℕ) (s : ParallelExecutionState)
    → j < plans.size
    → InRange plans s.ready_indices
    → InRange plans (settle_successor has_failed j s).ready_indices
unfolding settle_successor
settle_one-InRange plans has_failed j s h r =
    if-InRange plans _ (s.ready_indices ++ (j ∷ [])) s.ready_indices
      (All-append _ s.ready_indices _ r (h, tt)) r

pub settle-InRange :
    (plans : Plans) (has_failed : Bool) (successors : List ℕ) (s : ParallelExecutionState)
    → InRange plans successors
    → InRange plans s.ready_indices
    → InRange plans (settle_successors has_failed successors s).ready_indices
unfolding settle_successors
settle-InRange plans has_failed [] s h r = r
settle-InRange plans has_failed (j ∷ rest) s h r =
    settle-InRange plans has_failed rest (settle_successor has_failed j s) h.1
      (settle_one-InRange plans has_failed j s h.0 r)

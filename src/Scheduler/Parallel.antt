-- ===== src/Scheduler/Parallel.antt =====
-- engine/scheduler/parallel_task_scheduler.cpp, from "const std::size_t workerCount" on: worker
-- threads that share one state under a mutex. Each critical section of the worker is a function on
-- the shared state; a step of the system is one critical section of one worker.
pub mod Scan
pub mod Settle
pub mod Invariant
pub mod Steps
pub mod Safety
mod Samples
use req_pack_core.Prelude.{
  ℕ, zero, suc, ◌+◌, ◌-◌, ltb, Bool, true, false, not, ◌&&◌, ◌||◌, ◌==◌, if◌then◌else◌, nat_eq,
  Text, text_eq, List, [], ◌∷◌, ◌++◌, Option, none, some, is_empty, contains, keep_if, length, ◌≡◌,
}
use req_pack_core.Scheduler.Family.{update}

-- What the workers read of the plans: how many there are, the system of each group, and the groups
-- that wait for it.
pub record Plans : Type 0 where
  pub size : ℕ
  pub system : ℕ → Text
  pub successors : ℕ → List ℕ
  pub pending_dependencies : ℕ → ℕ

-- `ParallelExecutionState`, without the mutex and the condition variable.
pub record ParallelExecutionState : Type 0 where
  pub ready_indices : List ℕ
  pub busy_systems : List Text
  pub pending_dependencies : ℕ → ℕ
  pub started : ℕ → Bool
  pub completed : ℕ → Bool
  pub failed : ℕ → Bool
  pub stop_launching : Bool
  pub running_workers : ℕ

-- The indices that have no dependency, in order.
pub initial_ready : (ℕ → ℕ) → ℕ → ℕ → List ℕ
initial_ready pending zero index = []
initial_ready pending (suc more) index =
    let rest = initial_ready pending more (suc index) in
    if pending index == 0 then index ∷ rest else rest

unfoldable pub initial_state : Plans → ParallelExecutionState
unfolding initial_ready
initial_state plans = record {
  ready_indices = initial_ready plans.pending_dependencies plans.size 0;
  busy_systems = [];
  pending_dependencies = plans.pending_dependencies;
  started = λ i. false;
  completed = λ i. false;
  failed = λ i. false;
  stop_launching = false;
  running_workers = 0;
}

-- `if (state.started[candidate] || state.failed[candidate] || pending != 0) continue;`
pub is_stale : ParallelExecutionState → ℕ → Bool
is_stale s candidate =
    s.started candidate || s.failed candidate || not (s.pending_dependencies candidate == 0)

-- The loop over the attempts: the candidate that was found, and what is left of the queue. Nothing
-- else changes before a candidate is found.
pub scan : Plans → ParallelExecutionState → ℕ → List ℕ → Option ℕ × List ℕ
unfolding is_stale
scan plans s zero ready = (none, ready)
scan plans s (suc attempts) [] = (none, [])
scan plans s (suc attempts) (candidate ∷ rest) =
    let dropped = scan plans s attempts rest in
    let rotated = scan plans s attempts (rest ++ (candidate ∷ [])) in
    if is_stale s candidate
    then dropped
    else if contains s.busy_systems (plans.system candidate)
    then rotated
    else (some candidate, rest)

-- What the first critical section decides for its worker.
pub data Decision : Type 0 where
  launch : ℕ → Decision
  wait leave : Decision

pub decide_found :
    Plans → ParallelExecutionState → Option ℕ × List ℕ → Decision × ParallelExecutionState
decide_found plans s (some index, rest) = (
  launch index,
  record s {
    ready_indices = rest;
    started = update s.started index true;
    busy_systems = plans.system index ∷ s.busy_systems;
    running_workers = s.running_workers + 1;
  },
)
decide_found plans s (none, rest) =
    (if s.running_workers == 0 then leave else wait, record s { ready_indices = rest })

-- The critical section in which a worker looks for a group.
unfoldable pub take_group : Plans → ParallelExecutionState → Decision × ParallelExecutionState
unfolding scan decide_found
take_group plans s =
    if s.stop_launching || is_empty s.ready_indices && s.running_workers == 0
    then (leave, s)
    else decide_found plans s (scan plans s (length s.ready_indices) s.ready_indices)

-- One turn of the loop over the successors of a group that has run.
pub settle_successor : Bool → ℕ → ParallelExecutionState → ParallelExecutionState
settle_successor has_failed successor s =
    let left = s.pending_dependencies successor in
    let pending = update s.pending_dependencies successor (if ltb 0 left then left - 1 else left) in
    let failed = if has_failed then update s.failed successor true else s.failed in
    record s {
      pending_dependencies = pending;
      failed = failed;
      ready_indices =
          if pending successor == 0
            && not (s.started successor)
            && not (s.completed successor)
            && not (failed successor)
          then s.ready_indices ++ (successor ∷ [])
          else s.ready_indices;
    }

pub settle_successors : Bool → List ℕ → ParallelExecutionState → ParallelExecutionState
unfolding settle_successor
settle_successors has_failed [] s = s
settle_successors has_failed (successor ∷ rest) s =
    settle_successors has_failed rest (settle_successor has_failed successor s)

-- `busySystems.erase(system)` of a set.
pub erase : Text → List Text → List Text
unfolding keep_if
erase system systems = keep_if (λ other. not (other == system)) systems

pub mark_completed : Plans → ℕ → Bool → ParallelExecutionState → ParallelExecutionState
unfolding erase
mark_completed plans index has_failed s = record s {
  completed = update s.completed index true;
  failed = update s.failed index has_failed;
  busy_systems = erase (plans.system index) s.busy_systems;
}

-- The critical section behind the run of a group; the records of the group are what `failed` says.
pub complete_group : Bool → Plans → ℕ → Bool → ParallelExecutionState → ParallelExecutionState
unfolding mark_completed settle_successors
complete_group stop_on_first_failure plans index has_failed s =
    let settled =
      settle_successors has_failed (plans.successors index)
        (mark_completed plans index has_failed s) in
    record settled {
      stop_launching = if has_failed && stop_on_first_failure then true else settled.stop_launching;
      running_workers =
          if ltb 0 settled.running_workers
          then settled.running_workers - 1
          else settled.running_workers;
    }

-- Where a worker stands: before its first critical section, running a group, or returned.
pub data Worker : Type 0 where
  looking : Worker
  running : ℕ → Worker
  returned : Worker

pub record System : Type 0 where
  pub state : ParallelExecutionState
  pub worker : ℕ → Worker

-- Any worker that is looking may enter the first section, also when it was woken for nothing, and
-- any group that runs may end, with or without a failure.
pub data Step (stop_on_first_failure : Bool) (plans : Plans) (s t : System) : Type 0 where
  launches :
      (k index : ℕ)
      → s.worker k ≡ looking
      → (take_group plans s.state).0 ≡ launch index
      → t ≡ record {
        state = (take_group plans s.state).1;
        worker = update s.worker k (running index);
      }
      → Step stop_on_first_failure plans s t
  waits :
      (k : ℕ)
      → s.worker k ≡ looking
      → (take_group plans s.state).0 ≡ wait
      → t ≡ record { state = (take_group plans s.state).1; worker = s.worker }
      → Step stop_on_first_failure plans s t
  leaves :
      (k : ℕ)
      → s.worker k ≡ looking
      → (take_group plans s.state).0 ≡ leave
      → t ≡ record { state = (take_group plans s.state).1; worker = update s.worker k returned }
      → Step stop_on_first_failure plans s t
  ends :
      (k index : ℕ) (has_failed : Bool)
      → s.worker k ≡ running index
      → t ≡ record {
        state = complete_group stop_on_first_failure plans index has_failed s.state;
        worker = update s.worker k looking;
      }
      → Step stop_on_first_failure plans s t

pub data Reach (stop_on_first_failure : Bool) (plans : Plans) : System → Type 0 where
  start :
      Reach stop_on_first_failure plans
        (record { state = initial_state plans; worker = λ k. looking })
  later :
      {s t : System}
      → Reach stop_on_first_failure plans s
      → Step stop_on_first_failure plans s t
      → Reach stop_on_first_failure plans t

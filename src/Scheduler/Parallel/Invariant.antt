-- ===== src/Scheduler/Parallel/Invariant.antt =====
-- What holds of the shared state and the workers in every reachable system.
pub mod Launch
pub mod End
use req_pack_core.Prelude.{
  ℕ, ◌<◌, ltb, Bool, true, false, if◌then◌else◌, Text, text_eq, contains, ◌≡◌,
}
use req_pack_core.Scheduler.Family.{count, total}
use req_pack_core.Scheduler.Parallel.{
  Plans, ParallelExecutionState, System, Worker, looking, running, returned,
}
use req_pack_core.Scheduler.Parallel.Scan.{InRange}

module _ (plans : Plans) where
  -- The second group waits for the first.
  abbrev pub Precedes : ℕ → ℕ → Type 0
  Precedes p j = ltb 0 (count j (plans.successors p)) ≡ true

  -- The pending dependencies of a group count the mentions of it as a successor.
  pub record IsPlan : Type 0 where
    pub counted :
        (j : ℕ)
        → j < plans.size
        → plans.pending_dependencies j ≡ total plans.size (λ p. count j (plans.successors p))
    pub in_range : (p : ℕ) → InRange plans (plans.successors p)

  -- The mentions of a group by the groups that have not been completed.
  abbrev pub waits : (ℕ → Bool) → ℕ → ℕ
  waits completed j =
      total plans.size (λ p. if completed p then 0 else count j (plans.successors p))

  pub record IsRunning (s : ParallelExecutionState) (i : ℕ) : Type 0 where
    pub in_range : i < plans.size
    pub started : s.started i ≡ true
    pub unfinished : s.completed i ≡ false
    pub busy : contains s.busy_systems (plans.system i) ≡ true

  -- What holds of the state alone.
  pub record IsOrdered (s : ParallelExecutionState) : Type 0 where
    pub waiting : (j : ℕ) → j < plans.size → s.pending_dependencies j ≡ waits s.completed j
    pub ended : (i : ℕ) → s.completed i ≡ true → s.started i ≡ true
    pub held :
        (p j : ℕ)
        → p < plans.size
        → s.started j ≡ true
        → Precedes p j
        → (s.completed p ≡ true) × (s.failed p ≡ false)
    pub marked :
        (p j : ℕ)
        → s.completed p ≡ true
        → s.failed p ≡ true
        → p < plans.size
        → Precedes p j
        → s.failed j ≡ true
    pub ready : InRange plans s.ready_indices

  -- What holds of the workers.
  pub record IsApart (s : ParallelExecutionState) (worker : ℕ → Worker) : Type 0 where
    pub busy : (k i : ℕ) → worker k ≡ running i → IsRunning s i
    pub apart :
        (k l i j : ℕ)
        → worker k ≡ running i
        → worker l ≡ running j
        → plans.system i ≡ plans.system j
        → k ≡ l

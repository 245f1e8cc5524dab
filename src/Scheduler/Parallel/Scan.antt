-- ===== src/Scheduler/Parallel/Scan.antt =====
-- What a worker finds in the queue.
use req_pack_core.Prelude.{
  ℕ, zero, suc, ◌<◌, false, nat_eq, text_eq, List, [], ◌∷◌, ◌++◌, Option, none, some, contains, ◌≡◌,
  arith, All, All-append, Bool-cases, inl, inr,
}
use req_pack_core.Scheduler.Parallel.{Plans, ParallelExecutionState, is_stale, scan}

module _ (plans : Plans) where
  abbrev pub InRange : List ℕ → Type 0
  InRange = All (λ i. i < plans.size)

  -- A group that may start: it has not started, it is not marked as failed, nothing that it waits
  -- for is left, and its system is free.
  pub record IsLaunchable (s : ParallelExecutionState) (index : ℕ) : Type 0 where
    pub in_range : index < plans.size
    pub fresh : s.started index ≡ false
    pub unmarked : s.failed index ≡ false
    pub nothing_left : s.pending_dependencies index ≡ 0
    pub free : contains s.busy_systems (plans.system index) ≡ false

  abbrev pub Found : ParallelExecutionState → Option ℕ × List ℕ → Type 0
  Found s (some index, rest) = IsLaunchable s index × InRange rest
  Found s (none, rest) = InRange rest

  IsLaunchable-tests :
      (s : ParallelExecutionState) (index : ℕ)
      → index < plans.size
      → is_stale s index ≡ false
      → contains s.busy_systems (plans.system index) ≡ false
      → IsLaunchable s index
  unfolding is_stale
  IsLaunchable-tests s index h stale free = record {
    in_range = h;
    fresh = ground arith;
    unmarked = ground arith;
    nothing_left = ground arith;
    free = free;
  }

  pub scan-Found :
      (s : ParallelExecutionState) (attempts : ℕ) (ready : List ℕ)
      → InRange ready
      → Found s (scan plans s attempts ready)
  unfolding scan
  scan-Found s zero ready h = h
  scan-Found s (suc attempts) [] h = tt
  scan-Found s (suc attempts) (index ∷ rest) h = elim (Bool-cases (is_stale s index)) [
    | inl stale ↦ rw stale (scan-Found s attempts rest h.1)
    | inr live ↦ elim (Bool-cases (contains s.busy_systems (plans.system index))) [
      | inl busy ↦
          rw (live, busy)
            (scan-Found s attempts (rest ++ (index ∷ [])) (All-append _ rest _ h.1 (h.0, tt)))
      | inr free ↦ rw (live, free) (IsLaunchable-tests s index h.0 live free, h.1)
    ]
  ]

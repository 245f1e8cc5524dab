-- ===== src/Scheduler/Parallel/Invariant/Launch.antt =====
-- The section in which a worker looks for a group.
use req_pack_core.Prelude.{
  ℕ, ◌<◌, Bool, true, false, ◌==◌, if◌then◌else◌, nat_eq, nat_beq_iff, text_eq, List, some,
  contains, ◌≡◌, refl, sym, ap, ◌∙◌, ◌≢◌, true_ne_false, beq_refl, subst, arith, Bool-cases, inl,
  inr,
}
use req_pack_core.Scheduler.Family.{update, count, total_zero}
use req_pack_core.Scheduler.Parallel.{
  Plans, ParallelExecutionState, Worker, looking, running, returned, decide_found,
}
use req_pack_core.Scheduler.Parallel.Scan.{InRange, IsLaunchable}
use req_pack_core.Scheduler.Parallel.Invariant.{Precedes, waits, IsRunning, IsOrdered, IsApart}

index_of : Worker → ℕ
index_of (running i) = i
index_of _ = 0

pub running-injective : (i j : ℕ) → running i ≡ running j → i ≡ j
unfolding index_of
running-injective i j e = ap index_of e

is_at_work : Worker → Bool
is_at_work (running i) = true
is_at_work _ = false

pub looking-ne-running : (i : ℕ) → looking ≢ running i
unfolding is_at_work
looking-ne-running i e = true_ne_false (sym (ap is_at_work e))

pub returned-ne-running : (i : ℕ) → returned ≢ running i
unfolding is_at_work
returned-ne-running i e = true_ne_false (sym (ap is_at_work e))

module _ (plans : Plans) where
  -- A group that may start has nothing unfinished or failed before it.
  pub launchable-cleared :
      (s : ParallelExecutionState) (j p : ℕ)
      → IsOrdered plans s
      → IsLaunchable plans s j
      → p < plans.size
      → Precedes plans p j
      → (s.completed p ≡ true) × (s.failed p ≡ false)
  launchable-cleared s j p inv free h before =
      let none_waits : waits plans s.completed j ≡ 0 =
        sym (inv.waiting j free.in_range) ∙ free.nothing_left in
      let zero_at =
        total_zero plans.size (λ q. if s.completed q then 0 else count j (plans.successors q))
          none_waits p h in
      let completed : s.completed p ≡ true = ground arith in
      let fresh = free.unmarked in
      (
        completed,
        elim (Bool-cases (s.failed p)) [
          | inl f ↦ let m = inv.marked p j completed f h before in ground arith
          | inr e ↦ e
        ],
      )

  pub launch-IsOrdered :
      (s : ParallelExecutionState) (index : ℕ) (rest : List ℕ)
      → IsOrdered plans s
      → IsLaunchable plans s index
      → InRange plans rest
      → IsOrdered plans ((decide_found plans s (some index, rest)).1)
  unfolding decide_found
  launch-IsOrdered s index rest inv free r = record {
    waiting = inv.waiting;
    ended = λ i e. let o = inv.ended i e in ground arith;
    held = λ p j h e before. elim (Bool-cases (index == j)) [
      | inl same ↦
          let eq = (nat_beq_iff index j).0 same in
          launchable-cleared s index p inv free h (rw eq before)
      | inr other ↦ inv.held p j h (rw other at e) before
    ];
    marked = inv.marked;
    ready = r;
  }

  unmarked_busy :
      (s : ParallelExecutionState) (i j : ℕ)
      → contains s.busy_systems (plans.system i) ≡ false
      → contains s.busy_systems (plans.system j) ≡ true
      → plans.system i ≢ plans.system j
  unmarked_busy s i j free busy e =
      true_ne_false (sym busy ∙ (ap (contains s.busy_systems) (sym e) ∙ free))

  launch-IsRunning :
      (s : ParallelExecutionState) (index i : ℕ) (rest : List ℕ)
      → IsRunning plans s i
      → IsRunning plans ((decide_found plans s (some index, rest)).1) i
  unfolding decide_found contains
  launch-IsRunning s index i rest r = record {
    in_range = r.in_range;
    started = let e = r.started in ground arith;
    unfinished = r.unfinished;
    busy = let e = r.busy in ground arith;
  }

  launch-IsRunning_self :
      (s : ParallelExecutionState) (index : ℕ) (rest : List ℕ)
      → IsOrdered plans s
      → IsLaunchable plans s index
      → IsRunning plans ((decide_found plans s (some index, rest)).1) index
  unfolding decide_found contains
  launch-IsRunning_self s index rest inv free = record {
    in_range = free.in_range;
    started = rw (beq_refl index) refl;
    unfinished = elim (Bool-cases (s.completed index)) [
      | inl e ↦ elim (true_ne_false (sym (inv.ended index e) ∙ free.fresh)) [ ]
      | inr e ↦ e
    ];
    busy = rw (beq_refl (plans.system index)) refl;
  }

  pub launch-IsApart :
      (s : ParallelExecutionState) (worker : ℕ → Worker) (k index : ℕ) (rest : List ℕ)
      → IsOrdered plans s
      → IsApart plans s worker
      → IsLaunchable plans s index
      → IsApart plans
          ((decide_found plans s (some index, rest)).1)
          (update worker k (running index))
  launch-IsApart s worker k index rest inv ws free = record {
    busy = λ l i e. elim (Bool-cases (k == l)) [
      | inl same ↦
          subst (IsRunning plans _) (running-injective index i (rw same at e))
            (launch-IsRunning_self s index rest inv free)
      | inr other ↦ launch-IsRunning s index i rest (ws.busy l i (rw other at e))
    ];
    apart = λ l m i j el em e. elim (Bool-cases (k == l)) [
      | inl kl ↦ elim (Bool-cases (k == m)) [
        | inl km ↦ sym ((nat_beq_iff k l).0 kl) ∙ (nat_beq_iff k m).0 km
        | inr km ↦
            elim (unmarked_busy s index j free.free (ws.busy m j (rw km at em)).busy
              (ap plans.system (running-injective index i (rw kl at el)) ∙ e)) [ ]
      ]
      | inr kl ↦ elim (Bool-cases (k == m)) [
        | inl km ↦
            elim (unmarked_busy s index i free.free (ws.busy l i (rw kl at el)).busy
              (ap plans.system (running-injective index j (rw km at em)) ∙ sym e)) [ ]
        | inr km ↦ ws.apart l m i j (rw kl at el) (rw km at em) e
      ]
    ];
  }

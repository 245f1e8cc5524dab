-- ===== src/Scheduler/Parallel/Steps.antt =====
-- What each critical section keeps of the invariant.
use req_pack_core.Prelude.{
  ℕ, zero, suc, ◌+◌, Bool, true, false, ◌&&◌, ◌||◌, ◌==◌, if◌then◌else◌, nat_eq, text_eq, List,
  Option, none, some, length, is_empty, ◌≡◌, ◌≢◌, true_ne_false, refl, sym, ap, ◌∙◌, subst, arith,
  Bool-cases, inl, inr,
}
use req_pack_core.Scheduler.Family.{update}
use req_pack_core.Scheduler.Parallel.{
  Plans, ParallelExecutionState, Worker, running, returned, initial_state, initial_ready,
  take_group, decide_found, scan, Decision, launch, wait, leave, System,
}
use req_pack_core.Scheduler.Parallel.Scan.{InRange, IsLaunchable, Found, scan-Found}
use req_pack_core.Scheduler.Parallel.Invariant.{IsPlan, IsOrdered, IsApart}
use req_pack_core.Scheduler.Parallel.Invariant.Launch.{
  launch-IsOrdered, launch-IsApart, returned-ne-running,
}

is_launch : Decision → Bool
is_launch (launch index) = true
is_launch _ = false

launched_index : Decision → ℕ
launched_index (launch index) = index
launched_index _ = 0

pub launch-injective : (i j : ℕ) → launch i ≡ launch j → i ≡ j
unfolding launched_index
launch-injective i j e = ap launched_index e

pub wait-ne-launch : (i : ℕ) → wait ≢ launch i
unfolding is_launch
wait-ne-launch i e = true_ne_false (sym (ap is_launch e))

pub leave-ne-launch : (i : ℕ) → leave ≢ launch i
unfolding is_launch
leave-ne-launch i e = true_ne_false (sym (ap is_launch e))

idle-ne-launch : (b : Bool) (index : ℕ) → (if b then leave else wait) ≢ launch index
idle-ne-launch true = leave-ne-launch
idle-ne-launch false = wait-ne-launch

module _ (plans : Plans) where
  initial_ready-InRange :
      (pending : ℕ → ℕ) (more index : ℕ)
      → more + index ≡ plans.size
      → InRange plans (initial_ready pending more index)
  unfolding initial_ready
  initial_ready-InRange pending zero index e = tt
  initial_ready-InRange pending (suc more) index e =
      let ih = initial_ready-InRange pending more (suc index) (omega arith) in
      elim (Bool-cases (pending index == 0)) [
        | inl ready ↦ rw ready (omega arith, ih)
        | inr blocked ↦ rw blocked ih
      ]

  pub initial-IsOrdered : IsPlan plans → IsOrdered plans (initial_state plans)
  unfolding initial_state
  initial-IsOrdered plan = record {
    waiting = plan.counted;
    ended = λ i e. elim (true_ne_false (sym e)) [ ];
    held = λ p j h e before. elim (true_ne_false (sym e)) [ ];
    marked = λ p j e failed h before. elim (true_ne_false (sym e)) [ ];
    ready = initial_ready-InRange plans.pending_dependencies plans.size 0 (omega arith);
  }

  -- What the section in which a worker looks for a group may give.
  pub data Taken (s : ParallelExecutionState) (r : Decision × ParallelExecutionState) : Type 0 where
    takes :
        (index : ℕ) (rest : List ℕ)
        → IsLaunchable plans s index
        → InRange plans rest
        → r ≡ decide_found plans s (some index, rest)
        → Taken s r
    keeps :
        (rest : List ℕ)
        → InRange plans rest
        → ((index : ℕ) → r.0 ≢ launch index)
        → r.1 ≡ record s { ready_indices = rest }
        → Taken s r

  decide-Taken :
      (s : ParallelExecutionState) (found : Option ℕ × List ℕ)
      → Found plans s found
      → Taken s (decide_found plans s found)
  unfolding decide_found
  decide-Taken s (some index, rest) h = takes index rest h.0 h.1 refl
  decide-Taken s (none, rest) h = keeps rest h (idle-ne-launch (s.running_workers == 0)) refl

  pub take_group-Taken :
      (s : ParallelExecutionState) → InRange plans s.ready_indices → Taken s (take_group plans s)
  unfolding take_group
  take_group-Taken s r =
      elim (Bool-cases (s.stop_launching || is_empty s.ready_indices && s.running_workers == 0)) [
        | inl over ↦ rw over (keeps s.ready_indices r (idle-ne-launch true) refl)
        | inr open_ ↦ rw open_ (
            decide-Taken s (scan plans s (length s.ready_indices) s.ready_indices)
              (scan-Found plans s (length s.ready_indices) s.ready_indices r))
      ]

  pub record IsInvariant (s : System) : Type 0 where
    pub ordered : IsOrdered plans s.state
    pub apart : IsApart plans s.state s.worker

  keeps-IsInvariant :
      (s : ParallelExecutionState) (worker : ℕ → Worker) (rest : List ℕ)
      → InRange plans rest
      → IsOrdered plans s
      → IsApart plans s worker
      → IsInvariant (record { state = record s { ready_indices = rest }; worker = worker })
  keeps-IsInvariant s worker rest r inv ws = record {
    ordered = record {
      waiting = inv.waiting;
      ended = inv.ended;
      held = inv.held;
      marked = inv.marked;
      ready = r;
    };
    apart = record {
      busy = λ k i e.
          let o = ws.busy k i e in
          record {
            in_range = o.in_range;
            started = o.started;
            unfinished = o.unfinished;
            busy = o.busy;
          };
      apart = ws.apart;
    };
  }

  -- A worker that returns.
  pub IsApart-returned :
      (s : ParallelExecutionState) (worker : ℕ → Worker) (k : ℕ)
      → IsApart plans s worker
      → IsApart plans s (update worker k returned)
  IsApart-returned s worker k ws = record {
    busy = λ l j e. elim (Bool-cases (k == l)) [
      | inl same ↦ elim (returned-ne-running j (rw same at e)) [ ]
      | inr other ↦ ws.busy l j (rw other at e)
    ];
    apart = λ l m j n el em e. elim (Bool-cases (k == l)) [
      | inl kl ↦ elim (returned-ne-running j (rw kl at el)) [ ]
      | inr kl ↦ elim (Bool-cases (k == m)) [
        | inl km ↦ elim (returned-ne-running n (rw km at em)) [ ]
        | inr km ↦ ws.apart l m j n (rw kl at el) (rw km at em) e
      ]
    ];
  }

  -- A section that launches nothing, with any change of the workers that keeps them apart.
  pub idle-IsInvariant :
      (s : System) (worker : ℕ → Worker)
      → IsInvariant s
      → IsApart plans s.state worker
      → ((index : ℕ) → (take_group plans s.state).0 ≢ launch index)
      → IsInvariant (record { state = (take_group plans s.state).1; worker = worker })
  unfolding decide_found
  idle-IsInvariant s worker inv ws idle = elim (take_group-Taken s.state inv.ordered.ready) [
    | takes index rest free r e ↦ elim (idle index (ap (λ d. d.0) e)) [ ]
    | keeps rest r none_launched e ↦ rw e (keeps-IsInvariant s.state worker rest r inv.ordered ws)
  ]

  pub launch-IsInvariant :
      (s : System) (k index : ℕ)
      → IsInvariant s
      → (take_group plans s.state).0 ≡ launch index
      → IsInvariant (record {
        state = (take_group plans s.state).1;
        worker = update s.worker k (running index);
      })
  unfolding decide_found
  launch-IsInvariant s k index inv d = elim (take_group-Taken s.state inv.ordered.ready) [
    | keeps rest r none_launched e ↦ elim (none_launched index d) [ ]
    | takes found rest free r e ↦
        let same : found ≡ index = launch-injective found index (sym (ap (λ x. x.0) e) ∙ d) in
        subst
          (λ i. IsInvariant (record {
            state = (take_group plans s.state).1;
            worker = update s.worker k (running i);
          }))
          same
          (rw e (record {
            ordered = launch-IsOrdered plans s.state found rest inv.ordered free r;
            apart = launch-IsApart plans s.state s.worker k found rest inv.ordered inv.apart free;
          }))
  ]

-- ===== src/Scheduler/Sequential/Order.antt =====
-- The order in which a sequential run executes the groups.
use req_pack_core.Prelude.{
  ℕ, zero, suc, ◌+◌, ◌-◌, ◌<◌, ltb, Bool, true, false, not, ◌&&◌, ◌||◌, ◌==◌, if◌then◌else◌, nat_eq,
  nat_beq_iff, List, [], ◌∷◌, ◌≡◌, refl, sym, ◌∙◌, arith, Bool-cases, inl, inr, beq_refl,
  true_ne_false,
}
use req_pack_core.Scheduler.Family.{count, total_zero, total_step}
use req_pack_core.Scheduler.Parallel.{Plans}
use req_pack_core.Scheduler.Parallel.Invariant.{IsPlan, waits}
use req_pack_core.Scheduler.Sequential.{
  TransactionRecord, SequentialRun, has_failure, run_group, run_from, run_sequential,
}
use req_pack_core.Scheduler.Sequential.Trace.{
  block-pending, block-blocked, block-executor, Trace, traced, ran, has_failed_in, lt_irrefl,
  InOrder, IsBehind, IsBehind-later,
}

module _ (plans : Plans) where
  module _ {S : Type 0} (execute : S → ℕ → List TransactionRecord × S) (stop : Bool) (index : ℕ)
      (run : SequentialRun (S × Trace)) where
    -- Whether the group fails where the run stands.
    abbrev fails : Bool
    fails = has_failure (execute run.executor.0 index).0

    abbrev next : SequentialRun (S × Trace)
    next = run_group (traced execute) stop plans index run

    next-executor :
        next.executor ≡ ((execute run.executor.0 index).1, (index, fails) ∷ run.executor.1)
    unfolding run_group traced
    next-executor = block-executor fails (plans.successors index) _

    next-pending :
        (j : ℕ)
        → next.pending_dependencies j
          ≡ run.pending_dependencies j - count j (plans.successors index)
    unfolding run_group traced
    next-pending j = block-pending fails (plans.successors index) _ j

    next-blocked :
        (j : ℕ)
        → next.blocked j ≡ (run.blocked j || fails && ltb 0 (count j (plans.successors index)))
    unfolding run_group traced
    next-blocked j = block-blocked fails (plans.successors index) _ j

    module _ (inv : IsBehind plans index run) (h : index < plans.size) where
      fresh : ran run.executor.1 index ≡ false
      fresh = elim (Bool-cases (ran run.executor.1 index)) [
        | inl e ↦ elim (lt_irrefl index (inv.behind index e)) [ ]
        | inr e ↦ e
      ]

      next-waiting :
          (j : ℕ)
          → j < plans.size
          → next.pending_dependencies j ≡ waits plans (ran next.executor.1) j
      next-waiting j hj =
          let step =
            total_step plans.size
              (λ p. if ran run.executor.1 p then 0 else count j (plans.successors p))
              (λ p.
                if ran ((index, fails) ∷ run.executor.1) p then 0 else count j (plans.successors p))
              index (λ q e. rw e refl) (rw (beq_refl index) refl) h in
          rw next-executor (omega (arith, next-pending j, inv.waiting j hj, rw fresh at step))

      next-InOrder :
          run.blocked index ≡ false
          → run.pending_dependencies index ≡ 0
          → InOrder plans next.executor.1
      next-InOrder open_ none_left = rw next-executor (
        fresh,
        λ p hp before.
            let none_waits : waits plans (ran run.executor.1) index ≡ 0 =
              sym (inv.waiting index h) ∙ none_left in
            let zero_at =
              total_zero plans.size
                (λ q. if ran run.executor.1 q then 0 else count index (plans.successors q))
                none_waits p hp in
            let done : ran run.executor.1 p ≡ true = ground arith in
            (
              done,
              elim (Bool-cases (has_failed_in run.executor.1 p)) [
                | inl f ↦ elim (true_ne_false (sym (inv.stopped p index f before) ∙ open_)) [ ]
                | inr e ↦ e
              ],
            ),
        inv.in_order,
      )

      next-IsBehind :
          run.blocked index ≡ false
          → run.pending_dependencies index ≡ 0
          → IsBehind plans (suc index) next
      next-IsBehind open_ none_left = record {
        waiting = next-waiting;
        stopped = λ p j f before.
            let fp : has_failed_in ((index, fails) ∷ run.executor.1) p ≡ true =
              rw next-executor at f in
            let b = next-blocked j in
            elim (Bool-cases (has_failed_in run.executor.1 p)) [
              | inl old ↦ let o = inv.stopped p j old before in ground arith
              | inr new ↦
                  let same : index ≡ p = (nat_beq_iff index p).0 (ground arith) in
                  let mention : ltb 0 (count j (plans.successors index)) ≡ true = rw same before in
                  ground arith
            ];
        behind = λ p r.
            let rp : ran ((index, fails) ∷ run.executor.1) p ≡ true = rw next-executor at r in
            elim (Bool-cases (index == p)) [
              | inl same ↦ let e = (nat_beq_iff index p).0 same in omega arith
              | inr other ↦ let b = inv.behind p (rw other at rp) in omega arith
            ];
        in_order = next-InOrder open_ none_left;
      }

  if-IsBehind :
      {S : Type 0} (b : Bool) (index : ℕ) (x y : SequentialRun (S × Trace))
      → (b ≡ true → IsBehind plans index x)
      → (b ≡ false → IsBehind plans index y)
      → IsBehind plans index (if b then x else y)
  if-IsBehind true index x y hx hy = hx refl
  if-IsBehind false index x y hx hy = hy refl

  if-InOrder :
      {S : Type 0} (b : Bool) (x y : SequentialRun (S × Trace))
      → InOrder plans x.executor.1
      → InOrder plans y.executor.1
      → InOrder plans (if b then x else y).executor.1
  if-InOrder true x y hx hy = hx
  if-InOrder false x y hx hy = hy

  module _ {S : Type 0} (execute : S → ℕ → List TransactionRecord × S) (stop : Bool) where
    run_from-InOrder :
        (more index : ℕ) (run : SequentialRun (S × Trace))
        → IsBehind plans index run
        → index + more ≡ plans.size
        → InOrder plans (run_from (traced execute) stop plans more index run).executor.1
    unfolding run_from
    run_from-InOrder zero index run inv e = inv.in_order
    run_from-InOrder (suc more) index run inv e =
        let skipped : Bool = run.blocked index || not (run.pending_dependencies index == 0) in
        let after : SequentialRun (S × Trace) =
          if skipped then run else run_group (traced execute) stop plans index run in
        let later : IsBehind plans (suc index) after =
          if-IsBehind skipped (suc index) run (run_group (traced execute) stop plans index run)
            (λ s. IsBehind-later plans index run inv)
            (λ s.
              next-IsBehind execute stop index run inv (omega arith) (ground arith)
                (ground arith)) in
        if-InOrder (not skipped && has_failure (traced execute run.executor index).0 && stop) after
          (run_from (traced execute) stop plans more (suc index) after) later.in_order
          (run_from-InOrder more (suc index) after later (omega arith))

    -- Where the pending dependencies count the groups before a group, a sequential run executes
    -- each group once at most, and only behind all groups before it, none of which has failed.
    pub run_sequential-InOrder :
        IsPlan plans
        → (executor : S)
        → InOrder plans (run_sequential (traced execute) stop plans (executor, [])).executor.1
    unfolding run_sequential
    run_sequential-InOrder plan executor =
        run_from-InOrder plans.size 0 _
          (record {
            waiting = plan.counted;
            stopped = λ p j f before. elim (true_ne_false (sym f)) [ ];
            behind = λ p r. elim (true_ne_false (sym r)) [ ];
            in_order = tt;
          })
          (omega arith)

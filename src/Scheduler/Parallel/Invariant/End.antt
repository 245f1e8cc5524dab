-- ===== src/Scheduler/Parallel/Invariant/End.antt =====
-- The section behind the run of a group.
use req_pack_core.Prelude.{
  ℕ, ◌-◌, ◌<◌, ltb, Bool, true, false, ◌&&◌, ◌||◌, ◌==◌, if◌then◌else◌, nat_eq, nat_beq_iff, Text,
  text_eq, text_beq_iff, List, [], ◌∷◌, contains, keep_if, ◌≡◌, ◌≢◌, true_ne_false, beq_refl, refl,
  sym, ap, ◌∙◌, arith, Bool-cases, inl, inr,
}
use req_pack_core.Scheduler.Family.{update, count, total_step}
use req_pack_core.Scheduler.Parallel.{
  Plans, ParallelExecutionState, Worker, looking, running, complete_group, mark_completed, erase,
  settle_successors,
}
use req_pack_core.Scheduler.Parallel.Scan.{InRange}
use req_pack_core.Scheduler.Parallel.Settle.{
  IsKept, settle-IsKept, settle-pending, settle-failed, settle-InRange,
}
use req_pack_core.Scheduler.Parallel.Invariant.{
  Precedes, IsPlan, waits, IsRunning, IsOrdered, IsApart,
}
use req_pack_core.Scheduler.Parallel.Invariant.Launch.{looking-ne-running}

contains-erase :
    (a b : Text) (xs : List Text) → a ≢ b → contains xs b ≡ true → contains (erase a xs) b ≡ true
unfolding erase keep_if contains
contains-erase a b [] ne h = h
contains-erase a b (x ∷ xs) ne h = elim (Bool-cases (b == x)) [
  | inl same ↦ elim (Bool-cases (x == a)) [
    | inl gone ↦ elim (ne (sym ((text_beq_iff x a).0 gone) ∙ sym ((text_beq_iff b x).0 same))) [ ]
    | inr kept ↦ rw (kept, same) refl
  ]
  | inr other ↦
      let ih = contains-erase a b xs ne (rw other at h) in
      elim (Bool-cases (x == a)) [ inl gone ↦ rw gone ih | inr kept ↦ rw (kept, other) ih ]
]

module _ (stop : Bool) (plans : Plans) (i : ℕ) (has_failed : Bool)
    (s : ParallelExecutionState) where
  abbrev ended : ParallelExecutionState
  ended = complete_group stop plans i has_failed s

  kept :
      IsKept
        (mark_completed plans i has_failed s)
        (settle_successors has_failed (plans.successors i) (mark_completed plans i has_failed s))
  kept = settle-IsKept has_failed (plans.successors i) (mark_completed plans i has_failed s)

  ended-started : ended.started ≡ s.started
  unfolding complete_group mark_completed
  ended-started = kept.started

  ended-completed : ended.completed ≡ update s.completed i true
  unfolding complete_group mark_completed
  ended-completed = kept.completed

  ended-busy : ended.busy_systems ≡ erase (plans.system i) s.busy_systems
  unfolding complete_group mark_completed
  ended-busy = kept.busy_systems

  ended-pending :
      (j : ℕ)
      → ended.pending_dependencies j ≡ s.pending_dependencies j - count j (plans.successors i)
  unfolding complete_group mark_completed
  ended-pending j =
      settle-pending has_failed (plans.successors i) (mark_completed plans i has_failed s) j

  ended-failed :
      (j : ℕ)
      → ended.failed j
        ≡ (update s.failed i has_failed j || has_failed && ltb 0 (count j (plans.successors i)))
  unfolding complete_group mark_completed
  ended-failed j =
      settle-failed has_failed (plans.successors i) (mark_completed plans i has_failed s) j

  ended-ready : IsPlan plans → InRange plans s.ready_indices → InRange plans ended.ready_indices
  unfolding complete_group mark_completed
  ended-ready plan r =
      settle-InRange plans has_failed (plans.successors i) (mark_completed plans i has_failed s)
        (plan.in_range i) r

  module _ (inv : IsOrdered plans s) (run : IsRunning plans s i) where
    -- A group that has been completed does not wait for the one that ends.
    unrelated : (p : ℕ) → s.completed p ≡ true → ltb 0 (count p (plans.successors i)) ≡ false
    unrelated p done = elim (Bool-cases (ltb 0 (count p (plans.successors i)))) [
      | inl before ↦
          let c = (inv.held i p run.in_range (inv.ended p done) before).0 in
          elim (true_ne_false (sym c ∙ run.unfinished)) [ ]
      | inr e ↦ e
    ]

    ended-waiting :
        (j : ℕ) → j < plans.size → ended.pending_dependencies j ≡ waits plans ended.completed j
    ended-waiting j h =
        let step =
          total_step plans.size (λ p. if s.completed p then 0 else count j (plans.successors p))
            (λ p. if update s.completed i true p then 0 else count j (plans.successors p)) i
            (λ q e. rw e refl) (rw (beq_refl i) refl) run.in_range in
        let here = run.unfinished in
        rw ended-completed (omega (arith, ended-pending j, inv.waiting j h, rw here at step))

    ended-held :
        (p j : ℕ)
        → p < plans.size
        → s.started j ≡ true
        → Precedes plans p j
        → (update s.completed i true p ≡ true) × (ended.failed p ≡ false)
    ended-held p j h e before =
        let ih = inv.held p j h e before in
        let done = ih.0 in
        let clean = ih.1 in
        let none_marked = unrelated p done in
        let unfinished = run.unfinished in
        let other : (i == p) ≡ false = elim (Bool-cases (i == p)) [
          | inl same ↦
              elim (true_ne_false
                (sym done ∙ (ap s.completed (sym ((nat_beq_iff i p).0 same)) ∙ unfinished))) [ ]
          | inr e ↦ e
        ] in
        let failed = ended-failed p in (ground arith, ground arith)

    ended-marked :
        (p j : ℕ)
        → update s.completed i true p ≡ true
        → ended.failed p ≡ true
        → p < plans.size
        → Precedes plans p j
        → ended.failed j ≡ true
    ended-marked p j done failed h before = elim (Bool-cases (i == p)) [
      | inl same ↦
          let eq = (nat_beq_iff i p).0 same in
          let here : ltb 0 (count j (plans.successors i)) ≡ true = rw eq before in
          let fp = ended-failed p in let fj = ended-failed j in ground arith
      | inr other ↦
          let before_done : s.completed p ≡ true = rw other at done in
          let none_marked = unrelated p before_done in
          let fp = ended-failed p in
          let failed_before : s.failed p ≡ true = ground arith in
          let m = inv.marked p j before_done failed_before h before in
          let fj = ended-failed j in
          elim (Bool-cases (i == j)) [
            | inl same ↦
                let eq = (nat_beq_iff i j).0 same in
                let clean = (inv.held p i h run.started (rw eq before)).1 in
                elim (true_ne_false (sym failed_before ∙ clean)) [ ]
            | inr apart ↦ ground arith
          ]
    ]

    pub end-IsOrdered : IsPlan plans → IsOrdered plans (complete_group stop plans i has_failed s)
    end-IsOrdered plan = record {
      waiting = ended-waiting;
      ended = λ p e. rw ended-started (elim (Bool-cases (i == p)) [
        | inl same ↦ ap s.started (sym ((nat_beq_iff i p).0 same)) ∙ run.started
        | inr other ↦ inv.ended p (rw other at (rw ended-completed at e))
      ]);
      held = λ p j h e before.
          let out = ended-held p j h (rw ended-started at e) before in
          (ap (λ f. f p) ended-completed ∙ out.0, out.1);
      marked =
          λ p j done failed h before. ended-marked p j (rw ended-completed at done) failed h before;
      ready = ended-ready plan inv.ready;
    }

    -- Another worker goes on with its group.
    end-IsRunning :
        (j : ℕ)
        → plans.system i ≢ plans.system j
        → IsRunning plans s j
        → IsRunning plans (complete_group stop plans i has_failed s) j
    end-IsRunning j ne r =
        let unfinished = r.unfinished in
        record {
          in_range = r.in_range;
          started = rw ended-started r.started;
          unfinished = rw ended-completed (elim (Bool-cases (i == j)) [
            | inl same ↦ elim (ne (ap plans.system ((nat_beq_iff i j).0 same))) [ ]
            | inr other ↦ rw other unfinished
          ]);
          busy =
              rw ended-busy
                (contains-erase (plans.system i) (plans.system j) s.busy_systems ne r.busy);
        }

    pub end-IsApart :
        (worker : ℕ → Worker) (k : ℕ)
        → worker k ≡ running i
        → IsApart plans s worker
        → IsApart plans (complete_group stop plans i has_failed s) (update worker k looking)
    end-IsApart worker k at_work ws = record {
      busy = λ l j e. elim (Bool-cases (k == l)) [
        | inl same ↦ elim (looking-ne-running j (rw same at e)) [ ]
        | inr other ↦
            let el = rw other at e in
            end-IsRunning j
              (λ same_system.
                true_ne_false
                  (sym ((nat_beq_iff k l).1 (ws.apart k l i j at_work el same_system)) ∙ other))
              (ws.busy l j el)
      ];
      apart = λ l m j n el em e. elim (Bool-cases (k == l)) [
        | inl kl ↦ elim (looking-ne-running j (rw kl at el)) [ ]
        | inr kl ↦ elim (Bool-cases (k == m)) [
          | inl km ↦ elim (looking-ne-running n (rw km at em)) [ ]
          | inr km ↦ ws.apart l m j n (rw kl at el) (rw km at em) e
        ]
      ];
    }

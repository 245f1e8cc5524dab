-- ===== src/Scheduler/Parallel/Safety.antt =====
-- What holds in every system that the workers reach.
use req_pack_core.Prelude.{
  ℕ, ◌<◌, Bool, true, false, contains, text_eq, List, ◌≡◌, ◌≢◌, refl, sym, ap, ◌∙◌, subst,
  true_ne_false, beq_refl, nat_eq, some,
}
use req_pack_core.Scheduler.Parallel.{
  Plans, running, initial_state, take_group, decide_found, launch, System, Step, launches, waits,
  leaves, ends, Reach, start, later,
}
use req_pack_core.Scheduler.Parallel.Scan.{IsLaunchable}
use req_pack_core.Scheduler.Parallel.Invariant.{Precedes, IsPlan}
use req_pack_core.Scheduler.Parallel.Invariant.Launch.{looking-ne-running}
use req_pack_core.Scheduler.Parallel.Invariant.End.{end-IsOrdered, end-IsApart}
use req_pack_core.Scheduler.Parallel.Steps.{
  IsInvariant, takes, keeps, take_group-Taken, launch-IsInvariant, idle-IsInvariant,
  IsApart-returned, initial-IsOrdered, launch-injective, wait-ne-launch, leave-ne-launch,
}

module _ (stop : Bool) (plans : Plans) (plan : IsPlan plans) where
  abbrev IsFresh : System → ℕ → Type 0
  IsFresh s index =
      (index < plans.size)
      × (s.state.started index ≡ false)
      × (s.state.failed index ≡ false)
      × ((take_group plans s.state).1.started index ≡ true)
      × ((k i : ℕ) → s.worker k ≡ running i → plans.system i ≢ plans.system index)

  launchable-IsFresh :
      (s : System) (index : ℕ) (rest : List ℕ)
      → IsInvariant plans s
      → IsLaunchable plans s.state index
      → take_group plans s.state ≡ decide_found plans s.state (some index, rest)
      → IsFresh s index
  unfolding decide_found
  launchable-IsFresh s index rest inv free e = (
    free.in_range,
    free.fresh,
    free.unmarked,
    rw e (rw (beq_refl index) refl),
    λ k i at_work same. true_ne_false (
        sym (inv.apart.busy k i at_work).busy
        ∙ (ap (contains s.state.busy_systems) same ∙ free.free)),
  )

  step-IsInvariant :
      {s t : System} → Step stop plans s t → IsInvariant plans s → IsInvariant plans t
  step-IsInvariant {s} (launches k index free d e) inv =
      rw e (launch-IsInvariant plans s k index inv d)
  step-IsInvariant {s} (waits k free d e) inv =
      rw e (idle-IsInvariant plans s s.worker inv inv.apart (λ i l. wait-ne-launch i (sym d ∙ l)))
  step-IsInvariant {s} (leaves k free d e) inv = rw e (
      idle-IsInvariant plans s _ inv (IsApart-returned plans s.state s.worker k inv.apart)
        (λ i l. leave-ne-launch i (sym d ∙ l)))
  step-IsInvariant {s} (ends k index has_failed at_work e) inv =
      let busy = inv.apart.busy k index at_work in
      rw e (record {
        ordered = end-IsOrdered stop plans index has_failed s.state inv.ordered busy plan;
        apart =
            end-IsApart stop plans index has_failed s.state inv.ordered busy s.worker k at_work
              inv.apart;
      })

  pub Reach-IsInvariant : {s : System} → Reach stop plans s → IsInvariant plans s
  unfolding initial_state
  Reach-IsInvariant start = record {
    ordered = initial-IsOrdered plans plan;
    apart = record {
      busy = λ k i e. elim (looking-ne-running i e) [ ];
      apart = λ k l i j ek el e. elim (looking-ne-running i ek) [ ];
    };
  }
  Reach-IsInvariant (later r step) = step-IsInvariant step (Reach-IsInvariant r)

  launch-IsFresh :
      (s : System) (index : ℕ)
      → IsInvariant plans s
      → (take_group plans s.state).0 ≡ launch index
      → IsFresh s index
  unfolding decide_found
  launch-IsFresh s index inv d = elim (take_group-Taken plans s.state inv.ordered.ready) [
    | keeps rest r none_launched e ↦ elim (none_launched index d) [ ]
    | takes found rest free r e ↦
        let same : found ≡ index = launch-injective found index (sym (ap (λ x. x.0) e) ∙ d) in
        let launched = launchable-IsFresh s found rest inv free e in subst (IsFresh s) same launched
  ]

  -- In every system that the workers reach, two workers that run groups of the same package system
  -- are the same worker, and a worker's group is one of the plan, has started and has not been
  -- completed.
  pub Reach-mutual_exclusion :
      {s : System}
      → Reach stop plans s
      → (k l i j : ℕ) → s.worker k ≡ running i
      → (i < plans.size)
        × (s.state.started i ≡ true)
        × (s.state.completed i ≡ false)
        × (s.worker l ≡ running j → plans.system i ≡ plans.system j → k ≡ l)
  Reach-mutual_exclusion r k l i j e =
      let inv = Reach-IsInvariant r in
      let o = inv.apart.busy k i e in
      (o.in_range, o.started, o.unfinished, λ el same. inv.apart.apart k l i j e el same)

  -- In every system that the workers reach, a group that has started was preceded only by groups
  -- that have been completed and are not marked as failed.
  pub Reach-started :
      {s : System}
      → Reach stop plans s
      → (p j : ℕ) → p < plans.size
      → Precedes plans p j
      → s.state.started j ≡ true
      → (s.state.completed p ≡ true) × (s.state.failed p ≡ false)
  Reach-started r p j h before e = (Reach-IsInvariant r).ordered.held p j h e before

  -- In every system that the workers reach, a group that the next section launches is one of the
  -- plan that has not started before, is not marked as failed, and whose package system no worker
  -- is running; the section marks it as started.
  pub take_group-fresh :
      {s : System}
      → Reach stop plans s
      → (index : ℕ) → (take_group plans s.state).0 ≡ launch index
      → (index < plans.size)
        × (s.state.started index ≡ false)
        × (s.state.failed index ≡ false)
        × ((take_group plans s.state).1.started index ≡ true)
        × ((k i : ℕ) → s.worker k ≡ running i → plans.system i ≢ plans.system index)
  take_group-fresh {s} r index d = launch-IsFresh s index (Reach-IsInvariant r) d

-- ===== src/Scheduler/Plans/Ready.antt =====
-- The plans that are created can be run.
use req_pack_core.Prelude.{
  ℕ, ◌<◌, ◌≤◌, ltb, Bool, true, false, not, ◌&&◌, if◌then◌else◌, nat_eq, bool_eq, Text, text_eq,
  List, [], ◌∷◌, Option, none, some, contains, length, is_empty, ◌≡◌, arith, Bool-cases, inl, inr,
  All,
}
use req_pack_core.Types.{Package, action_eq}
use req_pack_core.Scheduler.Family.{count}
use req_pack_core.Scheduler.Groups.{TaskGroup, package_identity_key}
use req_pack_core.Scheduler.Parallel.{Reach, System, running}
use req_pack_core.Scheduler.Parallel.Invariant.{IsPlan}
use req_pack_core.Scheduler.Parallel.Safety.{Reach-mutual_exclusion, Reach-started}
use req_pack_core.Scheduler.Plans.{
  TaskGroupPlans, no_edges, add_schedule_edge, index_groups, find_index, add_consumer, connect,
  should_ignore_schedule_edge, add_graph_edges, install_groups, is_nix, add_edges_to, add_barrier,
  create_plans, scheduler_plans, group_system,
}
use req_pack_core.Scheduler.Plans.Known.{
  Known, InBound, index_groups-Known, find_index-InBound, install_groups-bound,
}
use req_pack_core.Scheduler.Plans.Wired.{IsWired, no_edges-IsWired, add_schedule_edge-IsWired}

module _ (resolve : Text → Text) (windows : Bool) (size : ℕ) where
  add_consumer-IsWired :
      (index : ℕ) (source target : Text) (plans : TaskGroupPlans)
      → IsWired size plans
      → IsWired size (add_consumer resolve windows index source target plans)
  unfolding add_consumer
  add_consumer-IsWired index source target plans inv =
      elim (Bool-cases (
        is_nix resolve windows source
        && not (is_nix resolve windows target)
        && not (contains (plans.nix_soft_skip_consumers index) (resolve target)))) [
          | inl noted ↦ rw noted (record {
            counted = inv.counted;
            in_range = inv.in_range;
            once = inv.once;
            loopless = inv.loopless;
          })
          | inr plain ↦ rw plain inv
        ]

  connect-IsWired :
      (source target : Package) (a b : Option ℕ) (plans : TaskGroupPlans)
      → InBound size a
      → InBound size b
      → IsWired size plans
      → IsWired size (connect resolve windows source target a b plans)
  unfolding connect
  connect-IsWired source target none b plans ha hb inv = inv
  connect-IsWired source target (some a) none plans ha hb inv = inv
  connect-IsWired source target (some a) (some b) plans ha hb inv =
      let noted = add_consumer resolve windows a source.system target.system plans in
      let w = add_consumer-IsWired a source.system target.system plans inv in
      elim (Bool-cases (should_ignore_schedule_edge resolve windows source.system target.system)) [
        | inl ignored ↦ rw ignored w
        | inr kept ↦ rw kept (add_schedule_edge-IsWired size a b noted w ha hb)
      ]

  add_graph_edges-IsWired :
      (known : List (Text × ℕ)) (edges : List (Package × Package)) (plans : TaskGroupPlans)
      → Known size known
      → IsWired size plans
      → IsWired size (add_graph_edges resolve windows known edges plans)
  unfolding add_graph_edges
  add_graph_edges-IsWired known [] plans k inv = inv
  add_graph_edges-IsWired known ((source, target) ∷ rest) plans k inv =
      add_graph_edges-IsWired known rest _ k (
        connect-IsWired source target (find_index known (package_identity_key source))
          (find_index known (package_identity_key target)) plans
          (find_index-InBound size known (package_identity_key source) k)
          (find_index-InBound size known (package_identity_key target) k) inv)

  add_edges_to-IsWired :
      (target : ℕ) (sources : List ℕ) (plans : TaskGroupPlans)
      → target < size
      → All (λ i. i < size) sources
      → IsWired size plans
      → IsWired size (add_edges_to resolve windows target sources plans)
  unfolding add_edges_to
  add_edges_to-IsWired target [] plans h hs inv = inv
  add_edges_to-IsWired target (source ∷ rest) plans h hs inv =
      add_edges_to-IsWired target rest (add_schedule_edge source target plans) h hs.1
        (add_schedule_edge-IsWired size source target plans inv hs.0 h)

  add_barrier-IsWired :
      (others nixs : List ℕ) (plans : TaskGroupPlans)
      → All (λ i. i < size) others
      → All (λ i. i < size) nixs
      → IsWired size plans
      → IsWired size (add_barrier resolve windows others nixs plans)
  unfolding add_barrier
  add_barrier-IsWired others [] plans ho hn inv = inv
  add_barrier-IsWired others (nix ∷ rest) plans ho hn inv =
      add_barrier-IsWired others rest (add_edges_to resolve windows nix others plans) ho hn.1
        (add_edges_to-IsWired nix others plans hn.0 ho inv)

if-IsWired :
    (size : ℕ) (b : Bool) (x y : TaskGroupPlans)
    → IsWired size x
    → IsWired size y
    → IsWired size (if b then x else y)
if-IsWired size true x y hx hy = hx
if-IsWired size false x y hx hy = hy

module _ (resolve : Text → Text) (windows : Bool) (groups : List TaskGroup) where
  abbrev size : ℕ
  size = length groups

  pub create_plans-IsWired :
      (graph : Option (List (Package × Package)))
      → IsWired (length groups) (create_plans resolve windows groups graph)
  unfolding create_plans
  create_plans-IsWired none = no_edges-IsWired size
  create_plans-IsWired (some edges) =
      let known = index_groups 0 groups [] in
      let w =
        add_graph_edges-IsWired resolve windows size known edges no_edges
          (index_groups-Known size 0 groups [] (omega arith) tt) (no_edges-IsWired size) in
      let barrier =
        add_barrier-IsWired resolve windows size (install_groups resolve windows false 0 groups)
          (install_groups resolve windows true 0 groups)
          (add_graph_edges resolve windows known edges no_edges)
          (install_groups-bound resolve windows false size 0 groups (omega arith))
          (install_groups-bound resolve windows true size 0 groups (omega arith)) w in
      if-IsWired size (is_empty groups) _ _ (no_edges-IsWired size)
        (if-IsWired size windows _ _ barrier w)

  -- Whatever the graph and the platform, the plans that are created are in range: the pending
  -- dependencies of a group count the groups that have it as a successor, each successor is the
  -- index of a group, no group is its own successor, and none has a successor twice.
  pub create_plans-IsPlan :
      (graph : Option (List (Package × Package)))
      → IsPlan (scheduler_plans groups (create_plans resolve windows groups graph))
        × ((p j : ℕ)
            → (count j ((create_plans resolve windows groups graph).successors p) ≤ 1)
              × (count p ((create_plans resolve windows groups graph).successors p) ≡ 0))
  unfolding scheduler_plans
  create_plans-IsPlan graph =
      let w = create_plans-IsWired graph in
      (
        record { counted = λ j h. w.counted j; in_range = w.in_range },
        λ p j.
            let o = w.once p j in
            let l = w.loopless p in let s = w.once p p in (ground arith, ground arith),
      )

  -- Whatever the graph, the platform and the order of the critical sections, a parallel run of the
  -- plans that are created never runs two groups of the same package system at once, and starts a
  -- group only behind completed groups before it that are not marked as failed.
  pub create_plans-Reach :
      (graph : Option (List (Package × Package))) (stop_on_first_failure : Bool) {s : System}
      → Reach stop_on_first_failure
          (scheduler_plans groups (create_plans resolve windows groups graph))
          s
      → ((k l i j : ℕ)
          → s.worker k ≡ running i
          → s.worker l ≡ running j
          → group_system groups i ≡ group_system groups j
          → k ≡ l)
        × ((p j : ℕ)
            → p < length groups
            → ltb 0 (count j ((create_plans resolve windows groups graph).successors p)) ≡ true
            → s.state.started j ≡ true
            → (s.state.completed p ≡ true) × (s.state.failed p ≡ false))
  unfolding scheduler_plans
  create_plans-Reach graph stop r =
      let plans = scheduler_plans groups (create_plans resolve windows groups graph) in
      let plan = (create_plans-IsPlan graph).0 in
      (
        λ k l i j ek el e. (Reach-mutual_exclusion stop plans plan r k l i j ek).3 el e,
        λ p j h before e. Reach-started stop plans plan r p j h before e,
      )

-- ===== src/Scheduler/Plans.antt =====
-- engine/scheduler/task_graph_builder.cpp, `createPlans`: the order of the groups that the edges of
-- the graph ask for.
pub mod Known
pub mod Wired
pub mod Ready
mod Samples
use req_pack_core.Prelude.{
  ℕ, zero, suc, ◌+◌, Bool, true, false, not, ◌&&◌, ◌||◌, ◌==◌, if◌then◌else◌, nat_eq, bool_eq, Text,
  text_eq, codes, List, [], ◌∷◌, ◌++◌, Option, none, some, contains, length, get_elem?, is_empty,
}
use req_pack_core.Types.{ActionType, action_eq, Package, install, ensure}
use req_pack_core.Scheduler.Family.{update}
use req_pack_core.Scheduler.Groups.{TaskGroup, package_identity_key, is_nix_install_system}
use req_pack_core.Scheduler.Parallel.{Plans}

-- The plans by the index of their group, and `seenEdges`.
pub record TaskGroupPlans : Type 0 where
  pub successors : ℕ → List ℕ
  pub pending_dependencies : ℕ → ℕ
  pub nix_soft_skip_consumers : ℕ → List Text
  pub seen_edges : ℕ → ℕ → Bool

abbrev pub no_edges : TaskGroupPlans
no_edges = record {
  successors = λ index. [];
  pending_dependencies = λ index. 0;
  nix_soft_skip_consumers = λ index. [];
  seen_edges = λ source target. false;
}

pub add_schedule_edge : ℕ → ℕ → TaskGroupPlans → TaskGroupPlans
add_schedule_edge source target plans =
    if source == target
    then plans
    else if plans.seen_edges source target
    then plans
    else record plans {
      seen_edges = λ p j. (source == p && target == j) || plans.seen_edges p j;
      successors = update plans.successors source (plans.successors source ++ (target ∷ []));
      pending_dependencies =
          update plans.pending_dependencies target (plans.pending_dependencies target + 1);
    }

-- `packageToGroupIndex`: the last entry of a key is in front.
pub index_packages : ℕ → List Package → List (Text × ℕ) → List (Text × ℕ)
index_packages index [] known = known
index_packages index (pkg ∷ rest) known =
    index_packages index rest ((package_identity_key pkg, index) ∷ known)

pub index_groups : ℕ → List TaskGroup → List (Text × ℕ) → List (Text × ℕ)
unfolding index_packages
index_groups index [] known = known
index_groups index (group ∷ rest) known =
    index_groups (suc index) rest (index_packages index group.packages known)

pub find_index : List (Text × ℕ) → Text → Option ℕ
find_index [] key = none
find_index ((known, index) ∷ rest) key = if known == key then some index else find_index rest key

-- The parameters are `registry->resolvePluginName` and whether the program is built for Windows.
module _ (resolve_plugin_name : Text → Text) (windows : Bool) where
  is_nix : Text → Bool
  is_nix system = is_nix_install_system (resolve_plugin_name system)

  -- `shouldIgnoreScheduleEdge`, of the systems before they are resolved.
  should_ignore_schedule_edge : Text → Text → Bool
  unfolding is_nix
  should_ignore_schedule_edge source target = windows && (is_nix source && not (is_nix target))

  add_consumer : ℕ → Text → Text → TaskGroupPlans → TaskGroupPlans
  unfolding is_nix
  add_consumer source_group source target plans =
      let consumers = plans.nix_soft_skip_consumers source_group in
      let resolved = resolve_plugin_name target in
      if is_nix source && not (is_nix target) && not (contains consumers resolved)
      then record plans {
        nix_soft_skip_consumers =
            update plans.nix_soft_skip_consumers source_group (consumers ++ (resolved ∷ []));
      }
      else plans

  -- The turn of the loop for an edge between packages that belong to groups.
  connect : Package → Package → Option ℕ → Option ℕ → TaskGroupPlans → TaskGroupPlans
  unfolding add_consumer should_ignore_schedule_edge add_schedule_edge
  connect source target (some source_group) (some target_group) plans =
      let noted = add_consumer source_group source.system target.system plans in
      if should_ignore_schedule_edge source.system target.system
      then noted
      else add_schedule_edge source_group target_group noted
  connect source target _ _ plans = plans

  add_graph_edges : List (Text × ℕ) → List (Package × Package) → TaskGroupPlans → TaskGroupPlans
  unfolding connect find_index
  add_graph_edges known [] plans = plans
  add_graph_edges known ((source, target) ∷ rest) plans = add_graph_edges known rest (
      connect source target (find_index known (package_identity_key source))
        (find_index known (package_identity_key target)) plans)

  is_install_like : ActionType → Bool
  is_install_like action = action == install || action == ensure

  -- The groups that install, of nix or of another system.
  pub install_groups : Bool → ℕ → List TaskGroup → List ℕ
  unfolding is_install_like is_nix
  install_groups of_nix index [] = []
  install_groups of_nix index (group ∷ rest) =
      let more = install_groups of_nix (suc index) rest in
      if is_install_like group.action && is_nix group.system == of_nix then index ∷ more else more

  add_edges_to : ℕ → List ℕ → TaskGroupPlans → TaskGroupPlans
  unfolding add_schedule_edge
  add_edges_to target [] plans = plans
  add_edges_to target (source ∷ rest) plans =
      add_edges_to target rest (add_schedule_edge source target plans)

  add_barrier : List ℕ → List ℕ → TaskGroupPlans → TaskGroupPlans
  unfolding add_edges_to
  add_barrier others [] plans = plans
  add_barrier others (nix ∷ rest) plans = add_barrier others rest (add_edges_to nix others plans)

  -- `none` is the null pointer for the graph; otherwise its edges, in the order of `boost::edges`.
  pub create_plans : List TaskGroup → Option (List (Package × Package)) → TaskGroupPlans
  unfolding add_graph_edges index_groups add_barrier install_groups
  create_plans groups none = no_edges
  create_plans groups (some edges) =
      let wired = add_graph_edges (index_groups 0 groups []) edges no_edges in
      if is_empty groups
      then no_edges
      else if windows
      then add_barrier (install_groups false 0 groups) (install_groups true 0 groups) wired
      else wired

system_of : Option TaskGroup → Text
system_of none = []
system_of (some group) = group.system

pub group_system : List TaskGroup → ℕ → Text
unfolding system_of
group_system groups index = system_of (get_elem? groups index)

-- What the parallel scheduler reads of the plans.
pub scheduler_plans : List TaskGroup → TaskGroupPlans → Plans
scheduler_plans groups plans = record {
  size = length groups;
  system = group_system groups;
  successors = plans.successors;
  pending_dependencies = plans.pending_dependencies;
}

-- ===== src/Scheduler/Plans/Samples.antt =====
-- Plans for a group of nix, one that needs it, and one that both of them need.
use req_pack_core.Prelude.{
  ℕ, ◌≤◌, ◌<◌, ltb, Bool, true, false, Text, codes, text_eq, text_beq, bool_beq, List, [], ◌∷◌,
  Option, some, contains, ◌≡◌, refl,
}
use req_pack_core.Types.{Package, empty_package, install, action_beq}
use req_pack_core.Scheduler.Family.{update, count}
use req_pack_core.Scheduler.Groups.{TaskGroup, package_identity_key, is_nix_install_system}
use req_pack_core.Scheduler.Parallel.{
  Plans, System, Reach, start, later, launches, looking, running, take_group, launch, initial_state,
}
use req_pack_core.Scheduler.Parallel.Invariant.{IsPlan}
use req_pack_core.Scheduler.Plans.{TaskGroupPlans, create_plans, scheduler_plans, group_system}
use req_pack_core.Scheduler.Plans.Ready.{create_plans-IsPlan, create_plans-Reach}

abbrev package_of : Text → Package
package_of system = record empty_package { action = install; system = system; name = codes "x" }

abbrev group_of : Text → TaskGroup
group_of system = record {
  action = install;
  system = system;
  packages = package_of system ∷ [];
  flags = [];
  local_path = [];
  uses_local_target = false;
}

abbrev some_groups : List TaskGroup
some_groups = group_of (codes "nix") ∷ group_of (codes "apt") ∷ []

abbrev some_edges : Option (List (Package × Package))
some_edges = some ((package_of (codes "nix"), package_of (codes "apt")) ∷ [])

abbrev some_plans : Bool → TaskGroupPlans
some_plans windows = create_plans (λ s. s) windows some_groups some_edges

-- On Windows the edge is turned around.
windows_plans : (some_plans true).successors 1 ≡ 0 ∷ []
unfolding create_plans package_identity_key is_nix_install_system text_beq action_beq bool_beq
    contains
windows_plans = refl

other_plans : (some_plans false).successors 0 ≡ 1 ∷ []
unfolding create_plans package_identity_key is_nix_install_system text_beq action_beq bool_beq
    contains
other_plans = refl

create_plans-IsPlan_example :
    IsPlan (scheduler_plans some_groups (some_plans true))
    × ((p j : ℕ)
        → (count j ((some_plans true).successors p) ≤ 1)
          × (count p ((some_plans true).successors p) ≡ 0))
create_plans-IsPlan_example = create_plans-IsPlan (λ s. s) true some_groups some_edges

abbrev sample_plans : Plans
sample_plans = scheduler_plans some_groups (some_plans false)

takes_nix : (take_group sample_plans (initial_state sample_plans)).0 ≡ launch 0
unfolding take_group initial_state scheduler_plans create_plans package_identity_key
    is_nix_install_system text_beq action_beq contains
takes_nix = refl

-- A worker has taken the group of nix.
abbrev nix_runs : System
nix_runs = record {
  state = (take_group sample_plans (initial_state sample_plans)).1;
  worker = update (λ k. looking) 0 (running 0);
}

nix_runs-Reach : Reach true sample_plans nix_runs
nix_runs-Reach = later start (launches 0 0 refl takes_nix refl)

create_plans-Reach_example :
    ((k l i j : ℕ)
      → nix_runs.worker k ≡ running i
      → nix_runs.worker l ≡ running j
      → group_system some_groups i ≡ group_system some_groups j
      → k ≡ l)
    × ((p j : ℕ)
        → p < 2
        → ltb 0 (count j ((some_plans false).successors p)) ≡ true
        → nix_runs.state.started j ≡ true
        → (nix_runs.state.completed p ≡ true) × (nix_runs.state.failed p ≡ false))
create_plans-Reach_example =
    create_plans-Reach (λ s. s) false some_groups some_edges true nix_runs-Reach

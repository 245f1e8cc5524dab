-- ===== src/Scheduler/Groups.antt =====
-- engine/scheduler/task_graph_builder.cpp (`collectPackages`, `createFromGraph`) and
-- executor_transaction_recovery.cpp (`createTaskGroupsFromRecords`): packages that follow each
-- other are grouped by action and system.
pub mod Order
pub mod Uniform
mod Samples
use req_pack_core.Prelude.{
  ℕ, Bool, true, false, not, ◌&&◌, ◌||◌, ◌==◌, if◌then◌else◌, Text, text_eq, codes, List, [], ◌∷◌,
  ◌++◌, contains, keep_if,
}
use req_pack_core.Types.{ActionType, action_eq, Package, install, ensure, remove, update}
use req_pack_core.State.Records.{TransactionItemRecord}

-- `plugin` and `pluginLoadFailed`, which only `preload` sets, are left out.
pub record TaskGroup : Type 0 where
  pub action : ActionType
  pub system : Text
  pub packages : List Package
  pub flags : List Text
  pub local_path : Text
  pub uses_local_target : Bool

unfoldable pub package_identity_key : Package → Text
package_identity_key pkg = pkg.system ++ (codes "\n" ++ (pkg.name ++ (codes "\n" ++ pkg.version)))

pub merge_task_group_flags : List Text → List Text → List Text
merge_task_group_flags target [] = target
merge_task_group_flags target (flag ∷ rest) =
    merge_task_group_flags (if contains target flag then target else target ++ (flag ∷ [])) rest

unfoldable pub collect_packages : List TaskGroup → List Package
collect_packages [] = []
collect_packages (group ∷ rest) = group.packages ++ collect_packages rest

abbrev open_group : Package → TaskGroup
open_group pkg = record {
  action = pkg.action;
  system = pkg.system;
  packages = [];
  flags = pkg.flags;
  local_path = [];
  uses_local_target = false;
}

-- `groups.back().packages.push_back(package)` and the lines behind it.
push_package : TaskGroup → Package → TaskGroup
push_package group pkg = record group {
  packages = group.packages ++ (pkg ∷ []);
  uses_local_target = if pkg.local_target then true else group.uses_local_target;
  local_path = if pkg.local_target then pkg.source_path else group.local_path;
}

-- `groups.back().action != package.action || groups.back().system != package.system`
abbrev pub differs : TaskGroup → Package → Bool
differs group pkg = not (group.action == pkg.action) || not (group.system == pkg.system)

add_to_last : TaskGroup → Package → List TaskGroup
unfolding push_package merge_task_group_flags
add_to_last group pkg =
    if differs group pkg
    then group ∷ push_package (open_group pkg) pkg ∷ []
    else push_package (record group { flags = merge_task_group_flags group.flags pkg.flags }) pkg
      ∷ []

-- One turn of the loop over the packages.
add_package : List TaskGroup → Package → List TaskGroup
unfolding add_to_last
add_package [] pkg = push_package (open_group pkg) pkg ∷ []
add_package (group ∷ []) pkg = add_to_last group pkg
add_package (group ∷ next ∷ rest) pkg = group ∷ add_package (next ∷ rest) pkg

add_packages : List TaskGroup → List Package → List TaskGroup
unfolding add_package
add_packages groups [] = groups
add_packages groups (pkg ∷ rest) = add_packages (add_package groups pkg) rest

-- `planner_platform::isNixInstallSystem`
unfoldable pub is_nix_install_system : Text → Bool
is_nix_install_system system = system == codes "nix"

-- `std::stable_partition` with the groups that are not of nix first.
reorder_non_nix : List TaskGroup → List TaskGroup
unfolding is_nix_install_system
reorder_non_nix groups =
    keep_if (λ group. not (is_nix_install_system group.system)) groups
    ++ keep_if (λ group. is_nix_install_system group.system) groups

-- The packages are those of `orderedVertices`; `reorder` is `reorderNonNixBeforeNix`.
pub create_from_graph : Bool → List Package → List TaskGroup
unfolding add_packages reorder_non_nix
create_from_graph reorder packages =
    let groups = add_packages [] packages in if reorder then reorder_non_nix groups else groups

unfoldable pub packages_of : List TransactionItemRecord → List Package
packages_of [] = []
packages_of (item ∷ rest) = item.pkg ∷ packages_of rest

pub create_task_groups_from_records : List TransactionItemRecord → List TaskGroup
unfolding add_packages packages_of
create_task_groups_from_records records = add_packages [] (packages_of records)

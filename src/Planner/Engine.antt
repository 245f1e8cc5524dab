-- ===== src/Planner/Engine.antt =====
-- engine/planner/planner_engine.cpp: the pure steps of planning.
pub mod Specifiers
pub mod Samples
use req_pack_core.Prelude.{
  ℕ, zero, suc, ◌+◌, ◌-◌, Bool, true, false, not, ◌&&◌, ◌||◌, ◌==◌, if◌then◌else◌, nat_eq, bool_eq,
  Text, text_eq, List, [], ◌∷◌, ◌++◌, map, length, take, drop, is_empty, all_of, Option, none, some,
}
use req_pack_core.Types.{ActionType, unknown, install, action_eq, Package, empty_package, Request}

pub planner_same_package : Package → Package → Bool
planner_same_package left right =
    left.action == right.action
    && left.system == right.system
    && left.name == right.name
    && left.version == right.version
    && left.local_target == right.local_target
    && left.source_path == right.source_path

pub planner_contains_only_action : List Request → ActionType → Bool
planner_contains_only_action requests action =
    not (is_empty requests) && all_of (λ request. request.action == action) requests

pub planner_package_specifier_from_package : Package → Text
planner_package_specifier_from_package pkg =
    if pkg.local_target && not (is_empty pkg.source_path)
    then pkg.source_path
    else if is_empty pkg.version
    then pkg.name
    else pkg.name ++ (b'@' ∷ pkg.version)

pub planner_normalize_dependency : Package → Text → Package
planner_normalize_dependency dependency default_system = record dependency {
  action = if dependency.action == unknown then install else dependency.action;
  system = if is_empty dependency.system then default_system else dependency.system;
}

-- `systemAliases.find(system)` of a `std::map`.
find_alias : Text → List (Text × Text) → Option Text
find_alias system [] = none
find_alias system ((key, value) ∷ rest) =
    if key == system then some value else find_alias system rest

pub expand_proxy : List (Text × Text) → Request → Request
unfolding find_alias
expand_proxy aliases request = elim (find_alias request.system aliases) [
  | none ↦ request
  | some system ↦ record request { system = system }
]

pub planner_expand_proxies : List Request → List (Text × Text) → List Request
unfolding expand_proxy
planner_expand_proxies requests aliases = map (expand_proxy aliases) requests

-- `packageSpecifier.rfind('@')`
rfind_at : Text → Option ℕ
rfind_at [] = none
rfind_at (c ∷ rest) = elim (rfind_at rest) [
  | some i ↦ some (i + 1)
  | none ↦ if c == b'@' then some 0 else none
]

-- The name and the version of a specifier whose last at sign is at the given place.
split_at : Text → Option ℕ → Text × Text
split_at specifier none = (specifier, [])
split_at specifier (some separator) =
    if separator == 0 || separator == length specifier - 1
    then (specifier, [])
    else (take separator specifier, drop (separator + 1) specifier)

split_specifier : Text → Text × Text
unfolding split_at
split_specifier specifier = split_at specifier (rfind_at specifier)

pub planner_make_requested_package : Request → Text → Text → Package
unfolding split_specifier
planner_make_requested_package request resolved_system package_specifier = record empty_package {
  action = request.action;
  system = resolved_system;
  name = (split_specifier package_specifier).0;
  version = (split_specifier package_specifier).1;
  flags = request.flags;
  direct_request = true;
}

-- `std::filesystem::path(…).filename()`: what stands after the last slash.
filename_from : Text → Text → Text
filename_from last [] = last
filename_from last (c ∷ rest) = filename_from (if c == b'/' then rest else last) rest

filename : Text → Text
unfolding filename_from
filename path = filename_from path path

pub planner_make_local_requested_package : Request → Text → Package
unfolding filename
planner_make_local_requested_package request resolved_system = record empty_package {
  action = request.action;
  system = resolved_system;
  name = filename request.local_path;
  source_path = request.local_path;
  local_target = true;
  flags = request.flags;
  direct_request = true;
}

pub planner_filter_request_to_missing_packages : Request → List Package → Request
unfolding planner_package_specifier_from_package
planner_filter_request_to_missing_packages request missing_packages = record request {
  packages = map planner_package_specifier_from_package missing_packages;
}

pub planner_filter_install_request : Request → List Package → Option Request
unfolding planner_filter_request_to_missing_packages
planner_filter_install_request request missing_packages =
    if is_empty missing_packages
    then none
    else some (planner_filter_request_to_missing_packages request missing_packages)

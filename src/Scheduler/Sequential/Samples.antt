-- ===== src/Scheduler/Sequential/Samples.antt =====
-- A sequential run of two groups, the second of which waits for the first.
use req_pack_core.Prelude.{ℕ, zero, suc, codes, Text, List, [], ◌∷◌, Option, some, false}
use req_pack_core.Types.{Package, empty_package, install}
use req_pack_core.Scheduler.Groups.{TaskGroup}
use req_pack_core.Scheduler.Parallel.{Plans}
use req_pack_core.Scheduler.Plans.{create_plans, scheduler_plans}
use req_pack_core.Scheduler.Plans.Ready.{create_plans-IsPlan}
use req_pack_core.Scheduler.Sequential.{TransactionRecord, run_sequential}
use req_pack_core.Scheduler.Sequential.Trace.{InOrder, traced}
use req_pack_core.Scheduler.Sequential.Order.{run_sequential-InOrder}

abbrev package_of : Text → Package
package_of system = record empty_package { action = install; system = system; name = codes "x" }

abbrev group_of : Text → TaskGroup
group_of system = record {
  action = install;
  system = system;
  packages = package_of system ∷ [];
  flags = [];
  local_path = [];
  uses_local_target = false;
}

abbrev two_groups : List TaskGroup
two_groups = group_of (codes "apt") ∷ group_of (codes "npm") ∷ []

abbrev one_edge : Option (List (Package × Package))
one_edge = some ((package_of (codes "apt"), package_of (codes "npm")) ∷ [])

abbrev two_plans : Plans
two_plans = scheduler_plans two_groups (create_plans (λ s. s) false two_groups one_edge)

abbrev status_of : ℕ → Text
status_of zero = codes "failed"
status_of _ = codes "success"

-- Each group gives one record; the first one fails.
abbrev fails_first : ℕ → ℕ → List TransactionRecord × ℕ
fails_first s index = (
  record {
    run_id = codes "1";
    system = codes "apt";
    action = install;
    package_name = codes "x";
    package_version = [];
    status = status_of index;
    error_message = [];
  }
      ∷ [],
  suc s,
)

run_sequential-InOrder_example :
    InOrder two_plans (run_sequential (traced fails_first) false two_plans (0, [])).executor.1
run_sequential-InOrder_example =
    run_sequential-InOrder two_plans fails_first false
      (create_plans-IsPlan (λ s. s) false two_groups one_edge).0 0

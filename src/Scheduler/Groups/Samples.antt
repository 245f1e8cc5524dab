-- ===== src/Scheduler/Groups/Samples.antt =====
-- Groups of a small list of packages.
use req_pack_core.Prelude.{codes, List, [], ◌∷◌, false, true, All, ◌≡◌}
use req_pack_core.Types.{Package, empty_package, install}
use req_pack_core.State.Records.{TransactionItemRecord}
use req_pack_core.Scheduler.Groups.{
  collect_packages, create_from_graph, create_task_groups_from_records, packages_of,
}
use req_pack_core.Scheduler.Groups.Order.{collect_packages-create}
use req_pack_core.Scheduler.Groups.Uniform.{Uniform, Separated, create_from_graph-Uniform}

abbrev some_packages : List Package
some_packages =
    record empty_package { action = install; system = codes "apt"; name = codes "git" }
    ∷ record empty_package { action = install; system = codes "apt"; name = codes "vim" }
    ∷ record empty_package { action = install; system = codes "npm"; local_target = true }
    ∷ []

abbrev some_records : List TransactionItemRecord
some_records =
    record {
      run_id = codes "1";
      item_id = codes "2";
      sequence = 0;
      pkg = record empty_package { action = install; system = codes "apt" };
      status = codes "pending";
      error_message = [];
    }
    ∷ []

collect_packages-create_example :
    (collect_packages (create_from_graph false some_packages) ≡ some_packages)
    × (collect_packages (create_task_groups_from_records some_records) ≡ packages_of some_records)
collect_packages-create_example = collect_packages-create some_packages some_records

create_from_graph-Uniform_example :
    All Uniform (create_from_graph false some_packages)
    × Separated (create_from_graph false some_packages)
create_from_graph-Uniform_example = create_from_graph-Uniform some_packages

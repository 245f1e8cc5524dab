-- ===== src/Scheduler/Filter/Samples.antt =====
-- The filter on a group with one package that is there already.
use req_pack_core.Prelude.{ℕ, suc, codes, List, [], ◌∷◌, true, false}
use req_pack_core.Types.{Package, empty_package, install}
use req_pack_core.Scheduler.Groups.{TaskGroup}
use req_pack_core.Scheduler.Filter.{FilterHost, filter_executable}
use req_pack_core.Scheduler.Filter.Thinned.{Thinned, filter_executable-Thinned}

abbrev tail : List Package → List Package
tail [] = []
tail (pkg ∷ rest) = rest

-- Every plugin is there, and the first package of a group is not missing.
abbrev first_installed : FilterHost ℕ
first_installed = record {
  has_plugin = λ s system. (true, s);
  load_plugin = λ s system. (true, suc s);
  is_gateway_system = λ system. false;
  get_missing_packages = λ s system packages. (tail packages, s);
}

abbrev one_group : List TaskGroup
one_group =
    record {
      action = install;
      system = codes "apt";
      packages = empty_package ∷ record empty_package { name = codes "vim" } ∷ [];
      flags = [];
      local_path = [];
      uses_local_target = false;
    }
    ∷ []

filter_executable-Thinned_example :
    Thinned first_installed one_group (filter_executable first_installed 0 one_group).0
filter_executable-Thinned_example = filter_executable-Thinned first_installed 0 one_group

-- ===== src/Planner/Engine/Samples.antt =====
-- Package specifiers on small inputs.
use req_pack_core.Prelude.{◌≡◌, refl, codes, [], ◌∷◌, none, false}
use req_pack_core.Types.{Package, Request, RqPackMetadataOverrides, empty_package, install}
use req_pack_core.Planner.Engine.{
  planner_make_requested_package, planner_package_specifier_from_package,
}
use req_pack_core.Planner.Engine.Specifiers.{specifier-make_requested, make_requested-specifier}

abbrev pub no_metadata : RqPackMetadataOverrides
no_metadata = record {
  version = none;
  release = none;
  revision = none;
  vendor = none;
  maintainer_email = none;
  url = none;
  homepage = none;
  source_url = none;
  architecture = none;
  systems = [];
}

abbrev pub install_request : Request
install_request = record {
  action = install;
  system = codes "npm";
  packages = codes "@types/node@20.1" ∷ [];
  flags = codes "--dry-run" ∷ [];
  output_format = [];
  output_path = [];
  payload_path = [];
  local_path = [];
  uses_local_target = false;
  pack_metadata = no_metadata;
}

abbrev scoped : Package
scoped = record empty_package { name = codes "@types/node"; version = codes "20.1" }

specifier-make_requested_example :
    planner_package_specifier_from_package
      (planner_make_requested_package install_request (codes "npm") (codes "@types/node@20.1"))
    ≡ codes "@types/node@20.1"
specifier-make_requested_example =
    specifier-make_requested install_request (codes "npm") (codes "@types/node@20.1")

make_requested-specifier_example :
    let made =
      planner_make_requested_package install_request
        (codes "npm")
        (planner_package_specifier_from_package scoped) in
    (made.name ≡ codes "@types/node") × (made.version ≡ codes "20.1")
make_requested-specifier_example =
    make_requested-specifier install_request (codes "npm") scoped refl
      (λ e. cc, (refl, (refl, (refl, (refl, tt)))))

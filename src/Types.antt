-- ===== src/Types.antt =====
-- src/platform/common/types.h, and the types of the security library that the code uses:
-- `ActionType` with the enumerators that the repository names, and `Package` with the fields that
-- it reads and writes.
use mathlib.Core.Bool.{decide, decide_iff}
use req_pack_core.Prelude.{Bool, true, false, ◌≡◌, ◌↔◌, List, [], Option, Text, EqTest, ℤ}

pub data ActionType : Type 0 where
  unknown install ensure remove update search list info outdated : ActionType
  snapshot pack serve remote sbom audit host : ActionType

pub ActionType-discrete : Discrete ActionType
ActionType-discrete = hlevel

unfoldable pub action_beq : ActionType → ActionType → Bool
unfolding decide ActionType-discrete
action_beq a b = decide (ActionType-discrete a b)

pub action_beq_iff : (a b : ActionType) → (action_beq a b ≡ true) ↔ (a ≡ b)
unfolding action_beq
action_beq_iff a b = decide_iff (ActionType-discrete a b)

instance abbrev pub action_eq : EqTest ActionType
action_eq = record { same = action_beq; same_iff = action_beq_iff }

pub record Package : Type 0 where
  pub action : ActionType
  pub system : Text
  pub name : Text
  pub version : Text
  pub source_path : Text
  pub local_target : Bool
  pub flags : List Text
  pub direct_request : Bool

-- `Package {}`
abbrev pub empty_package : Package
empty_package = record {
  action = unknown;
  system = [];
  name = [];
  version = [];
  source_path = [];
  local_target = false;
  flags = [];
  direct_request = false;
}

pub record RqPackMetadataOverrides : Type 0 where
  pub version : Option Text
  pub release : Option ℤ
  pub revision : Option ℤ
  pub vendor : Option Text
  pub maintainer_email : Option Text
  pub url : Option Text
  pub homepage : Option Text
  pub source_url : Option Text
  pub architecture : Option Text
  pub systems : List Text

pub record Request : Type 0 where
  pub action : ActionType
  pub system : Text
  pub packages : List Text
  pub flags : List Text
  pub output_format : Text
  pub output_path : Text
  pub payload_path : Text
  pub local_path : Text
  pub uses_local_target : Bool
  pub pack_metadata : RqPackMetadataOverrides

pub record ProxyResolution : Type 0 where
  pub target_system : Text
  pub packages : Option (List Text)
  pub local_path : Option Text
  pub flags : Option (List Text)

-- ===== src/Resolution/Redirected.antt =====
-- The request that a proxy leads to.
use req_pack_core.Prelude.{
  Bool, true, false, Text, text_eq, List, [], Option, none, some, ◌≡◌, refl, ◌∙◌, arith,
}
use req_pack_core.Types.{Request, ProxyResolution}
use req_pack_core.Resolution.{redirect, set_flags, set_target}

-- What no proxy changes of a request.
pub record IsCarried (q r : Request) : Type 0 where
  pub action : r.action ≡ q.action
  pub output_format : r.output_format ≡ q.output_format
  pub output_path : r.output_path ≡ q.output_path
  pub payload_path : r.payload_path ≡ q.payload_path
  pub pack_metadata : r.pack_metadata ≡ q.pack_metadata

IsCarried-refl : (q : Request) → IsCarried q q
IsCarried-refl q = ground arith

pub IsCarried-trans : {p q r : Request} → IsCarried p q → IsCarried q r → IsCarried p r
IsCarried-trans a b = record {
  action = b.action ∙ a.action;
  output_format = b.output_format ∙ a.output_format;
  output_path = b.output_path ∙ a.output_path;
  payload_path = b.payload_path ∙ a.payload_path;
  pack_metadata = b.pack_metadata ∙ a.pack_metadata;
}

-- The fields that a proxy's answer decides: a path takes the place of the packages, packages that of
-- the path, and what the answer leaves open stays.
pub flags_after : Option (List Text) → Request → List Text
flags_after (some flags) q = flags
flags_after none q = q.flags

pub packages_after : Option Text → Option (List Text) → Request → List Text
packages_after (some path) packages q = []
packages_after none (some packages) q = packages
packages_after none none q = q.packages

pub path_after : Option Text → Option (List Text) → Request → Text
path_after (some path) packages q = path
path_after none (some packages) q = []
path_after none none q = q.local_path

pub local_after : Option Text → Option (List Text) → Request → Bool
local_after (some path) packages q = true
local_after none (some packages) q = false
local_after none none q = q.uses_local_target

-- The request for the system `target`.
abbrev pub redirected : Request → Text → ProxyResolution → Request
redirected q target answer = record q {
  system = target;
  flags = flags_after answer.flags q;
  packages = packages_after answer.local_path answer.packages q;
  local_path = path_after answer.local_path answer.packages q;
  uses_local_target = local_after answer.local_path answer.packages q;
}

pub redirect_lem :
    (q : Request) (target : Text) (answer : ProxyResolution)
    → redirect q target answer ≡ redirected q target answer
unfolding redirect set_flags set_target flags_after packages_after path_after local_after
redirect_lem q target answer = go answer.flags answer.local_path answer.packages
  where
    go :
        (flags : Option (List Text)) (path : Option Text) (packages : Option (List Text))
        → set_target (set_flags (record q { system = target }) flags) path packages ≡ record q {
          system = target;
          flags = flags_after flags q;
          packages = packages_after path packages q;
          local_path = path_after path packages q;
          uses_local_target = local_after path packages q;
        }
    go none none none = refl
    go none none (some ps) = refl
    go none (some p) packages = refl
    go (some fs) none none = refl
    go (some fs) none (some ps) = refl
    go (some fs) (some p) packages = refl

pub redirected-IsCarried :
    (q : Request) (target : Text) (answer : ProxyResolution)
    → IsCarried q (redirected q target answer)
redirected-IsCarried q target answer = ground arith

-- ===== src/Planner/EnsureOrder.antt =====
-- engine/planner/planner_dependency_policy.cpp (the ensure order flag) and
-- engine/scheduler/scheduler_support.hpp (`internal_ensure_order`, which reads it).
pub mod Flags
mod Samples
use req_pack_core.Prelude.{
  ℕ, Bool, true, false, not, if◌then◌else◌, Text, codes, List, [], ◌∷◌, ◌++◌, Option, none, some,
  starts_with, drop, length, keep_if,
}
use req_pack_core.Types.{Package}
use req_pack_core.Decimal.{to_string, stoul}

abbrev pub internal_ensure_order_flag_prefix : Text
internal_ensure_order_flag_prefix = codes "__reqpack-internal-ensure-order="

-- `flag.rfind(prefix, 0) == 0`
abbrev pub is_ensure_order_flag : Text → Bool
is_ensure_order_flag flag = starts_with flag internal_ensure_order_flag_prefix

without_order : List Text → List Text
without_order flags = keep_if (λ flag. not (is_ensure_order_flag flag)) flags

pub set_internal_ensure_order_flag : Package → ℕ → Package
unfolding without_order
set_internal_ensure_order_flag pkg order = record pkg {
  flags = without_order pkg.flags ++ ((internal_ensure_order_flag_prefix ++ to_string order) ∷ []);
}

find_order_flag : List Text → Option Text
find_order_flag [] = none
find_order_flag (flag ∷ rest) =
    if is_ensure_order_flag flag then some flag else find_order_flag rest

push_order_flag : Package → Option Text → Package
unfolding without_order
push_order_flag target none = target
push_order_flag target (some flag) = record target {
  flags = without_order target.flags ++ (flag ∷ []);
}

-- The target, as the function leaves it.
pub propagate_internal_ensure_order_flag : Package → Package → Package
unfolding push_order_flag find_order_flag
propagate_internal_ensure_order_flag source target =
    push_order_flag target (find_order_flag source.flags)

-- The loop over the flags: the first flag with the prefix decides; `none` where `stoul` throws.
read_order : List Text → Option ℕ
read_order [] = none
read_order (flag ∷ rest) =
    if is_ensure_order_flag flag
    then stoul (drop (length internal_ensure_order_flag_prefix) flag)
    else read_order rest

pub internal_ensure_order : Package → Option ℕ
unfolding read_order
internal_ensure_order pkg = read_order pkg.flags

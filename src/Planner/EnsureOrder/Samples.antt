-- ===== src/Planner/EnsureOrder/Samples.antt =====
-- The order of a package and of its dependency.
use req_pack_core.Prelude.{codes, ◌∷◌, [], some, ◌≡◌, arith, any_of, if◌then◌else◌}
use req_pack_core.Types.{Package, empty_package}
use req_pack_core.Planner.EnsureOrder.{
  internal_ensure_order, set_internal_ensure_order_flag, propagate_internal_ensure_order_flag,
  is_ensure_order_flag,
}
use req_pack_core.Planner.EnsureOrder.Flags.{
  internal_ensure_order-set, internal_ensure_order-propagate,
}

abbrev flagged : Package
flagged = record empty_package {
  flags = codes "--yes" ∷ codes "__reqpack-internal-ensure-order=3" ∷ [];
}

internal_ensure_order-set_example :
    internal_ensure_order (set_internal_ensure_order_flag flagged 12) ≡ some 12
internal_ensure_order-set_example = internal_ensure_order-set flagged 12 (omega arith)

internal_ensure_order-propagate_example :
    internal_ensure_order (propagate_internal_ensure_order_flag flagged empty_package) ≡ (
      if any_of is_ensure_order_flag flagged.flags
      then internal_ensure_order flagged
      else internal_ensure_order empty_package)
internal_ensure_order-propagate_example = internal_ensure_order-propagate flagged empty_package

-- ===== src/Planner/EnsureOrder/Flags.antt =====
-- The order that was set, or passed on, is the order that is read.
use req_pack_core.Prelude.{
  ℕ, ◌^◌, ◌<◌, true, if◌then◌else◌, Text, List, [], ◌∷◌, ◌++◌, Option, some, starts_with-append,
  drop, length, keep_if, any_of, ◌≡◌, refl, ap, ◌∙◌, Bool-cases, inl, inr,
}
use req_pack_core.Types.{Package}
use req_pack_core.Decimal.{to_string, stoul}
use req_pack_core.Decimal.RoundTrip.{stoul-to_string}
use req_pack_core.Planner.EnsureOrder.{
  internal_ensure_order_flag_prefix, is_ensure_order_flag, without_order,
  set_internal_ensure_order_flag, find_order_flag, push_order_flag,
  propagate_internal_ensure_order_flag, read_order, internal_ensure_order,
}

drop-append : (prefix rest : Text) → drop (length prefix) (prefix ++ rest) ≡ rest
drop-append [] rest = refl
drop-append (c ∷ prefix) rest = drop-append prefix rest

-- Once the flags with the prefix are gone, the one that is added is read.
read_order-without :
    (flags : List Text) (flag : Text)
    → is_ensure_order_flag flag ≡ true
    → read_order (without_order flags ++ (flag ∷ []))
      ≡ stoul (drop (length internal_ensure_order_flag_prefix) flag)
unfolding read_order without_order keep_if
read_order-without [] flag h = rw h refl
read_order-without (first ∷ rest) flag h = elim (Bool-cases (is_ensure_order_flag first)) [
  | inl gone ↦ rw gone (read_order-without rest flag h)
  | inr kept ↦ rw (kept, kept) (read_order-without rest flag h)
]

-- An order that fits in 64 bits is read back from the package that it is set on.
pub internal_ensure_order-set :
    (pkg : Package) (order : ℕ)
    → order < 2 ^ 64
    → internal_ensure_order (set_internal_ensure_order_flag pkg order) ≡ some order
unfolding internal_ensure_order set_internal_ensure_order_flag
internal_ensure_order-set pkg order h =
    read_order-without pkg.flags (internal_ensure_order_flag_prefix ++ to_string order)
      (starts_with-append internal_ensure_order_flag_prefix (to_string order))
    ∙ (ap stoul (drop-append internal_ensure_order_flag_prefix (to_string order))
        ∙ stoul-to_string order h)

propagated : List Text → List Text → Option ℕ
unfolding read_order
propagated source target =
    if any_of is_ensure_order_flag source then read_order source else read_order target

propagate-flags :
    (source : List Text) (target : Package)
    → read_order (push_order_flag target (find_order_flag source)).flags
      ≡ propagated source target.flags
unfolding propagated push_order_flag find_order_flag any_of read_order
propagate-flags [] target = refl
propagate-flags (flag ∷ rest) target = elim (Bool-cases (is_ensure_order_flag flag)) [
  | inl found ↦ rw found (read_order-without target.flags flag found)
  | inr other ↦ rw other (propagate-flags rest target)
]

-- The order of a package is passed on to a dependency of it, and replaces the dependency's own; a
-- package with no such flag leaves the dependency's order as it is.
pub internal_ensure_order-propagate :
    (source target : Package)
    → internal_ensure_order (propagate_internal_ensure_order_flag source target) ≡ (
        if any_of is_ensure_order_flag source.flags
        then internal_ensure_order source
        else internal_ensure_order target)
unfolding internal_ensure_order propagate_internal_ensure_order_flag propagated
internal_ensure_order-propagate source target = propagate-flags source.flags target

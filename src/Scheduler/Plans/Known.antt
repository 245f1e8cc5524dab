-- ===== src/Scheduler/Plans/Known.antt =====
-- The indices that `createPlans` looks up are those of groups.
use req_pack_core.Prelude.{
  ℕ, suc, ◌+◌, ◌<◌, Bool, ◌&&◌, ◌==◌, nat_eq, bool_eq, Text, text_eq, List, [], ◌∷◌, Option, none,
  some, length, ◌≡◌, arith, Bool-cases, inl, inr, All,
}
use req_pack_core.Types.{Package, action_eq}
use req_pack_core.Scheduler.Groups.{TaskGroup, package_identity_key}
use req_pack_core.Scheduler.Plans.{
  index_packages, index_groups, find_index, install_groups, is_install_like, is_nix,
}

-- The indices of all entries.
abbrev pub Known : ℕ → List (Text × ℕ) → Type 0
Known size = All (λ entry. entry.1 < size)

pub index_packages-Known :
    (size index : ℕ) (packages : List Package) (known : List (Text × ℕ))
    → index < size
    → Known size known
    → Known size (index_packages index packages known)
unfolding index_packages
index_packages-Known size index [] known h k = k
index_packages-Known size index (pkg ∷ rest) known h k =
    index_packages-Known size index rest ((package_identity_key pkg, index) ∷ known) h (h, k)

pub index_groups-Known :
    (size index : ℕ) (groups : List TaskGroup) (known : List (Text × ℕ))
    → index + length groups ≡ size
    → Known size known
    → Known size (index_groups index groups known)
unfolding index_groups
index_groups-Known size index [] known e k = k
index_groups-Known size index (group ∷ rest) known e k =
    index_groups-Known size (suc index) rest (index_packages index group.packages known)
      (omega arith) (index_packages-Known size index group.packages known (omega arith) k)

-- What a look-up gives is in range.
abbrev pub InBound : ℕ → Option ℕ → Type 0
InBound size none = Unit
InBound size (some index) = index < size

pub find_index-InBound :
    (size : ℕ) (known : List (Text × ℕ)) (key : Text)
    → Known size known
    → InBound size (find_index known key)
unfolding find_index
find_index-InBound size [] key k = tt
find_index-InBound size ((entry, index) ∷ rest) key k = elim (Bool-cases (entry == key)) [
  | inl same ↦ rw same k.0
  | inr other ↦ rw other (find_index-InBound size rest key k.1)
]

pub install_groups-bound :
    (resolve : Text → Text) (windows of_nix : Bool) (size index : ℕ) (groups : List TaskGroup)
    → index + length groups ≡ size
    → All (λ i. i < size) (install_groups resolve windows of_nix index groups)
unfolding install_groups
install_groups-bound resolve windows of_nix size index [] e = tt
install_groups-bound resolve windows of_nix size index (group ∷ rest) e =
    let ih = install_groups-bound resolve windows of_nix size (suc index) rest (omega arith) in
    elim (Bool-cases (
      is_install_like resolve windows group.action
      && is_nix resolve windows group.system == of_nix)) [
        | inl taken ↦ rw taken (omega arith, ih)
        | inr left ↦ rw left ih
      ]

-- ===== src/Scheduler/Groups/Uniform.antt =====
-- What the packages of a group have in common.
use req_pack_core.Prelude.{
  Bool, true, false, ◌&&◌, ◌==◌, text_eq, text_beq_iff, List, [], ◌∷◌, ◌≡◌, refl, sym, Bool-cases,
  inl, inr, arith, All, All-append,
}
use req_pack_core.Types.{Package, action_eq, action_beq_iff}
use req_pack_core.Scheduler.Groups.{
  TaskGroup, create_from_graph, add_package, add_packages, add_to_last, push_package, differs,
}

-- All packages have the action and the system of the group.
abbrev pub Uniform : TaskGroup → Type 0
Uniform group =
    All (λ pkg. (pkg.action ≡ group.action) × (pkg.system ≡ group.system)) group.packages

abbrev same_group : TaskGroup → TaskGroup → Bool
same_group a b = a.action == b.action && a.system == b.system

-- No two groups that follow each other, the given one first, have the same action and system.
abbrev pub SeparatedFrom : TaskGroup → List TaskGroup → Type 0
SeparatedFrom before [] = Unit
SeparatedFrom before (group ∷ rest) = (same_group before group ≡ false) × SeparatedFrom group rest

abbrev pub Separated : List TaskGroup → Type 0
Separated [] = Unit
Separated (group ∷ rest) = SeparatedFrom group rest

push_package-Uniform :
    (group : TaskGroup) (pkg : Package)
    → Uniform group
    → pkg.action ≡ group.action
    → pkg.system ≡ group.system
    → Uniform (push_package group pkg)
unfolding push_package
push_package-Uniform group pkg h a s = All-append _ group.packages (pkg ∷ []) h ((a, s), tt)

same_action_system :
    (group : TaskGroup) (pkg : Package)
    → differs group pkg ≡ false
    → (pkg.action ≡ group.action) × (pkg.system ≡ group.system)
same_action_system group pkg e =
    let a : (group.action == pkg.action) ≡ true = ground arith in
    let s : (group.system == pkg.system) ≡ true = ground arith in
    (sym ((action_beq_iff _ _).0 a), sym ((text_beq_iff _ _).0 s))

add_package-Uniform :
    (groups : List TaskGroup) (pkg : Package)
    → All Uniform groups
    → All Uniform (add_package groups pkg)
unfolding add_package add_to_last push_package
add_package-Uniform [] pkg h = (((refl, refl), tt), tt)
add_package-Uniform (group ∷ []) pkg h = elim (Bool-cases (differs group pkg)) [
  | inl other ↦ rw other (h.0, (((refl, refl), tt), tt))
  | inr same ↦
      let e = same_action_system group pkg same in
      rw same (push_package-Uniform group pkg h.0 e.0 e.1, tt)
]
add_package-Uniform (group ∷ next ∷ rest) pkg h = (h.0, add_package-Uniform (next ∷ rest) pkg h.1)

add_package-SeparatedFrom :
    (before group : TaskGroup) (rest : List TaskGroup) (pkg : Package)
    → SeparatedFrom before (group ∷ rest)
    → SeparatedFrom before (add_package (group ∷ rest) pkg)
unfolding add_package add_to_last push_package
add_package-SeparatedFrom before group [] pkg h = elim (Bool-cases (differs group pkg)) [
  | inl other ↦ rw other (h.0, (ground arith, tt))
  | inr same ↦ rw same (h.0, tt)
]
add_package-SeparatedFrom before group (next ∷ rest) pkg h =
    (h.0, add_package-SeparatedFrom group next rest pkg h.1)

add_package-Separated :
    (groups : List TaskGroup) (pkg : Package)
    → Separated groups
    → Separated (add_package groups pkg)
unfolding add_package add_to_last push_package
add_package-Separated [] pkg h = tt
add_package-Separated (group ∷ []) pkg h = elim (Bool-cases (differs group pkg)) [
  | inl other ↦ rw other (ground arith, tt)
  | inr same ↦ rw same tt
]
add_package-Separated (group ∷ next ∷ rest) pkg h = add_package-SeparatedFrom group next rest pkg h

add_packages-Uniform :
    (groups : List TaskGroup) (packages : List Package)
    → All Uniform groups
    → Separated groups
    → All Uniform (add_packages groups packages) × Separated (add_packages groups packages)
unfolding add_packages
add_packages-Uniform groups [] u s = (u, s)
add_packages-Uniform groups (pkg ∷ rest) u s =
    add_packages-Uniform (add_package groups pkg) rest (add_package-Uniform groups pkg u)
      (add_package-Separated groups pkg s)

-- Where groups are not reordered, each package in a group made from a graph has the group's action
-- and system, and no two groups that follow each other have the same action and system.
pub create_from_graph-Uniform :
    (packages : List Package)
    → All Uniform (create_from_graph false packages) × Separated (create_from_graph false packages)
unfolding create_from_graph
create_from_graph-Uniform packages = add_packages-Uniform [] packages tt tt

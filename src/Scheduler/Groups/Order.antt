-- ===== src/Scheduler/Groups/Order.antt =====
-- What grouping keeps of the order of the packages.
use req_pack_core.Prelude.{
  false, text_eq, List, [], ◌∷◌, ◌++◌, append_assoc, append-nil, ◌≡◌, refl, sym, ap, ◌∙◌,
  Bool-cases, inl, inr,
}
use req_pack_core.Types.{Package, action_eq}
use req_pack_core.State.Records.{TransactionItemRecord}
use req_pack_core.Scheduler.Groups.{
  TaskGroup, collect_packages, create_from_graph, create_task_groups_from_records, packages_of,
  add_package, add_packages, add_to_last, push_package, differs,
}

add_to_last-collect :
    (group : TaskGroup) (pkg : Package)
    → collect_packages (add_to_last group pkg) ≡ group.packages ++ (pkg ∷ [])
unfolding add_to_last collect_packages push_package
add_to_last-collect group pkg = elim (Bool-cases (differs group pkg)) [
  | inl other ↦ rw other refl
  | inr same ↦ rw same (append-nil (group.packages ++ (pkg ∷ [])))
]

add_package-collect :
    (groups : List TaskGroup) (pkg : Package)
    → collect_packages (add_package groups pkg) ≡ collect_packages groups ++ (pkg ∷ [])
unfolding add_package collect_packages push_package
add_package-collect [] pkg = refl
add_package-collect (group ∷ []) pkg =
    add_to_last-collect group pkg ∙ ap (λ xs. xs ++ (pkg ∷ [])) (sym (append-nil group.packages))
add_package-collect (group ∷ next ∷ rest) pkg =
    ap (λ xs. group.packages ++ xs) (add_package-collect (next ∷ rest) pkg)
    ∙ sym (append_assoc group.packages (collect_packages (next ∷ rest)) (pkg ∷ []))

add_packages-collect :
    (groups : List TaskGroup) (packages : List Package)
    → collect_packages (add_packages groups packages) ≡ collect_packages groups ++ packages
unfolding add_packages
add_packages-collect groups [] = sym (append-nil (collect_packages groups))
add_packages-collect groups (pkg ∷ rest) =
    add_packages-collect (add_package groups pkg) rest
    ∙ (ap (λ xs. xs ++ rest) (add_package-collect groups pkg)
        ∙ append_assoc (collect_packages groups) (pkg ∷ []) rest)

-- Where groups are not reordered, the packages of the groups made from a graph are the packages in
-- their order; so are those of the groups made from stored items.
pub collect_packages-create :
    (packages : List Package) (records : List TransactionItemRecord)
    → (collect_packages (create_from_graph false packages) ≡ packages)
      × (collect_packages (create_task_groups_from_records records) ≡ packages_of records)
unfolding create_from_graph create_task_groups_from_records collect_packages
collect_packages-create packages records =
    (add_packages-collect [] packages, add_packages-collect [] (packages_of records))

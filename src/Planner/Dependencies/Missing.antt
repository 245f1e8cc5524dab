-- ===== src/Planner/Dependencies/Missing.antt =====
-- What is left of the dependencies that are missing.
use req_pack_core.Prelude.{Bool, Text, text_eq, ◌==◌, List, [], ◌∷◌, if_cases, All, All-append}
use req_pack_core.Types.{Package}
use req_pack_core.State.Store.{key_lt}
use req_pack_core.Planner.Dependencies.{
  PlannerHost, SystemDependencies, Sorted, add_to_system, plugin_for, sort_dependencies,
  ask_plugins, ask_sorted, filter_missing_dependencies,
}

module _ {S : Type 0} (host : PlannerHost S) (auto_download : Bool) (P : Package → Type 0)
    (answers : (s : S) (system : Text) (asked : List Package)
      → All P asked
      → All P (host.get_missing_packages s system asked).0) where
  abbrev Entries : List SystemDependencies → Type 0
  Entries = All (λ entry. All P entry.dependencies)

  add_to_system-All :
      (resolved : Text) (pkg : Package) (entries : List SystemDependencies)
      → P pkg
      → Entries entries
      → Entries (add_to_system resolved pkg entries)
  unfolding add_to_system
  add_to_system-All resolved pkg [] p h = ((p, tt), tt)
  add_to_system-All resolved pkg (entry ∷ rest) p h =
      if_cases Entries (entry.resolved == resolved)
        (λ e. (All-append P entry.dependencies (pkg ∷ []) h.0 (p, tt), h.1))
        (λ e.
          if_cases Entries (key_lt resolved entry.resolved) (λ f. ((p, tt), h))
            (λ f. (h.0, add_to_system-All resolved pkg rest p h.1)))

  abbrev Holding : Sorted → Type 0
  Holding sorted = All P sorted.missing × Entries sorted.by_system

  sort_dependencies-All :
      (dependencies : List Package) (so_far : Sorted) (s : S)
      → All P dependencies
      → Holding so_far
      → Holding (sort_dependencies host auto_download dependencies so_far s).0
  unfolding sort_dependencies
  sort_dependencies-All [] so_far s h held = held
  sort_dependencies-All (dependency ∷ rest) so_far s h held =
      let asked = plugin_for host auto_download dependency s in
      sort_dependencies-All rest _ asked.1 h.1 (
        if_cases Holding asked.0
          (λ e. (
            held.0,
            add_to_system-All (host.resolve_plugin_name asked.1 dependency.system) dependency
                so_far.by_system h.0 held.1,
          ))
          (λ e. (All-append P so_far.missing (dependency ∷ []) held.0 (h.0, tt), held.1)))

  ask_plugins-All :
      (entries : List SystemDependencies) (s : S)
      → Entries entries
      → All P (ask_plugins host auto_download entries s).0
  unfolding ask_plugins
  ask_plugins-All [] s h = tt
  ask_plugins-All (entry ∷ rest) s h =
      let answer = host.get_missing_packages s entry.plugin entry.dependencies in
      All-append P answer.0 _ (answers s entry.plugin entry.dependencies h.0)
        (ask_plugins-All rest answer.1 h.1)

  -- What holds of the dependencies holds of those that are missing, if it holds of what a plugin
  -- answers whenever it holds of what the plugin is asked for.
  filter_missing_dependencies-All :
      (dependencies : List Package) (s : S)
      → All P dependencies
      → All P (filter_missing_dependencies host auto_download dependencies s).0
  unfolding filter_missing_dependencies ask_sorted
  filter_missing_dependencies-All dependencies s h =
      let sorted =
        sort_dependencies host auto_download dependencies (record { missing = []; by_system = [] })
          s in
      let held =
        sort_dependencies-All dependencies (record { missing = []; by_system = [] }) s h (tt, tt) in
      All-append P sorted.0.missing _ held.0 (ask_plugins-All sorted.0.by_system sorted.1 held.1)

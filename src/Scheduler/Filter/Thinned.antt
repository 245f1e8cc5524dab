-- ===== src/Scheduler/Filter/Thinned.antt =====
-- What the filter keeps of the groups.
use req_pack_core.Prelude.{
  Bool, true, false, not, ◌&&◌, ◌||◌, if◌then◌else◌, List, [], ◌∷◌, Option, none, some, is_empty,
  ◌≡◌, refl, sym, ◌∙◌, true_ne_false, arith,
}
use req_pack_core.Types.{action_eq, Package}
use req_pack_core.Scheduler.Groups.{TaskGroup}
use req_pack_core.Scheduler.Filter.{
  FilterHost, action_uses_missing_package_filter, still_missing, once_loaded, once_found,
  filter_group, push_group, filter_executable,
}

module _ {S : Type 0} (host : FilterHost S) where
  -- The groups of which no package may be dropped.
  abbrev pub is_exempt : TaskGroup → Bool
  is_exempt group =
      not (action_uses_missing_package_filter group.action)
      || host.is_gateway_system group.system
      || group.uses_local_target

  -- What a group becomes: it has packages, and only they may have changed, and not those of an
  -- exempt group.
  pub record IsThinner (group kept : TaskGroup) : Type 0 where
    pub only_packages : kept ≡ record group { packages = kept.packages }
    pub not_empty : is_empty kept.packages ≡ false
    pub exempt : is_exempt group ≡ true → kept ≡ group

  -- The groups in their order, each one thinner or, unless it is exempt and has packages, left out.
  pub data Thinned : List TaskGroup → List TaskGroup → Type 0 where
    done : Thinned [] []
    keep :
        {group kept : TaskGroup} {groups rest : List TaskGroup}
        → IsThinner group kept
        → Thinned groups rest
        → Thinned (group ∷ groups) (kept ∷ rest)
    leave_out :
        {group : TaskGroup} {groups rest : List TaskGroup}
        → (is_exempt group && not (is_empty group.packages)) ≡ false
        → Thinned groups rest
        → Thinned (group ∷ groups) rest

  abbrev Turn : TaskGroup → Option TaskGroup → Type 0
  Turn group none = (is_exempt group && not (is_empty group.packages)) ≡ false
  Turn group (some kept) = IsThinner group kept

  unchanged : (group : TaskGroup) → is_empty group.packages ≡ false → IsThinner group group
  unchanged group h = record { only_packages = refl; not_empty = h; exempt = λ e. refl }

  if-Turn :
      (group : TaskGroup) (b : Bool) (x y : Option TaskGroup × S)
      → (b ≡ true → Turn group x.0)
      → (b ≡ false → Turn group y.0)
      → Turn group (if b then x else y).0
  if-Turn group true x y hx hy = hx refl
  if-Turn group false x y hx hy = hy refl

  still_missing-Turn :
      (group : TaskGroup) (out : List Package × S)
      → is_exempt group ≡ false
      → Turn group (still_missing group out).0
  unfolding still_missing
  still_missing-Turn group ([], s) plain = ground arith
  still_missing-Turn group (pkg ∷ rest, s) plain = record {
    only_packages = refl;
    not_empty = refl;
    exempt = λ e. elim (true_ne_false (sym e ∙ plain)) [ ];
  }

  module _ (group : TaskGroup) (filled : is_empty group.packages ≡ false)
      (filtered : action_uses_missing_package_filter group.action ≡ true) where
    once_loaded-Turn :
        (out : Bool × S)
        → host.is_gateway_system group.system ≡ false
        → Turn group (once_loaded host group out).0
    unfolding once_loaded
    once_loaded-Turn (loaded, s) plain =
        if-Turn group (not loaded || group.uses_local_target) _ _ (λ e. unchanged group filled)
          (λ e. still_missing-Turn group _ (ground arith))

    once_found-Turn : (out : Bool × S) → Turn group (once_found host group out).0
    unfolding once_found
    once_found-Turn (found, s) =
        if-Turn group (host.is_gateway_system group.system || not found) _ _
          (λ e. unchanged group filled) (λ e. once_loaded-Turn _ (ground arith))

  filter_group-Turn : (s : S) (group : TaskGroup) → Turn group (filter_group host s group).0
  unfolding filter_group
  filter_group-Turn s group =
      if-Turn group (is_empty group.packages) _ _ (λ e. ground arith)
        (λ filled.
          if-Turn group (not (action_uses_missing_package_filter group.action)) _ _
            (λ e. unchanged group filled) (λ e. once_found-Turn group filled (ground arith) _))

  push_group-Thinned :
      (group : TaskGroup) (out : Option TaskGroup) (groups rest : List TaskGroup)
      → Turn group out
      → Thinned groups rest
      → Thinned (group ∷ groups) (push_group host out rest)
  unfolding push_group
  push_group-Thinned group none groups rest t h = leave_out t h
  push_group-Thinned group (some kept) groups rest t h = keep t h

  -- Whatever the plugins answer, the groups that are left are groups of the list in their order, in
  -- which nothing but the packages has changed, and none is empty; a group whose action is not
  -- filtered, of a gateway system, or for a local target, is left as it is unless it is empty.
  pub filter_executable-Thinned :
      (s : S) (groups : List TaskGroup) → Thinned groups (filter_executable host s groups).0
  unfolding filter_executable
  filter_executable-Thinned s [] = done
  filter_executable-Thinned s (group ∷ rest) =
      push_group-Thinned group (filter_group host s group).0 rest _ (filter_group-Turn s group)
        (filter_executable-Thinned (filter_group host s group).1 rest)

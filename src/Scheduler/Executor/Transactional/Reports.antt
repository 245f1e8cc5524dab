-- ===== src/Scheduler/Executor/Transactional/Reports.antt =====
-- What a group that was run is reported as.
use req_pack_core.Prelude.{
  ℕ, ◌+◌, Bool, not, if◌then◌else◌, Text, text_eq, List, [], ◌∷◌, ◌++◌, map, keep_if, length, ◌≡◌,
  refl, ◌∙◌, Bool-cases, if_cases, inl, inr, arith, All, All-append,
}
use req_pack_core.Types.{Package}
use req_pack_core.State.Records.{ActionCodes}
use req_pack_core.State.Store.{Lmdb}
use req_pack_core.State.Database.{TransactionDatabase}
use req_pack_core.Scheduler.Groups.{TaskGroup}
use req_pack_core.Scheduler.Sequential.{TransactionRecord}
use req_pack_core.Scheduler.Filter.{action_uses_missing_package_filter}
use req_pack_core.Scheduler.Executor.{
  PluginHost, ExecutorState, build_success_records, build_failure_records, with_run_id,
  with_failure, record_of, dispatch_task_group_to_plugin,
}
use req_pack_core.Scheduler.Executor.Transactional.{
  success_records, failure_records, failed_records, failed_packages, succeeded_packages, missing_of,
  succeeded_of, split_records, take_events, after_dispatch, after_local_dispatch, when_marked,
  with_host, run_task_group,
}

-- How many elements pass a test.
abbrev pub count : {A : Type 0} → (A → Bool) → List A → ℕ
count p xs = length (keep_if p xs)

count-cons :
    {A : Type 0} (p : A → Bool) (x : A) (xs : List A)
    → count p (x ∷ xs) ≡ (if p x then 1 else 0) + count p xs
unfolding keep_if
count-cons p x xs = elim (Bool-cases (p x)) [
  | inl e ↦ rw e (omega arith)
  | inr e ↦ rw e (omega arith)
]

count-append :
    {A : Type 0} (p : A → Bool) (xs ys : List A) → count p (xs ++ ys) ≡ count p xs + count p ys
unfolding keep_if
count-append p [] ys = omega arith
count-append p (x ∷ xs) ys =
    rw (count-cons p x (xs ++ ys), count-cons p x xs, count-append p xs ys) (omega arith)

count-map :
    {A B : Type 0} (f : A → B) (p : B → Bool) (xs : List A)
    → count p (map f xs) ≡ count (λ x. p (f x)) xs
unfolding keep_if
count-map f p [] = refl
count-map f p (x ∷ xs) =
    rw (count-cons p (f x) (map f xs), count-cons (λ x. p (f x)) x xs, count-map f p xs) refl

-- What passes a test and what does not make up the list.
count-split :
    {A : Type 0} (p c : A → Bool) (xs : List A)
    → count p (keep_if (λ x. not (c x)) xs) + count p (keep_if c xs) ≡ count p xs
unfolding keep_if
count-split p c [] = refl
count-split p c (x ∷ xs) =
    let rest = count-split p c xs in
    elim (Bool-cases (c x)) [
      | inl kept ↦ rw (kept, count-cons p x (keep_if c xs), count-cons p x xs) (omega arith)
      | inr other ↦
          rw (other, count-cons p x (keep_if (λ x. not (c x)) xs), count-cons p x xs) (omega arith)
    ]

-- Each package has one record: as many records as packages have a name and a version that a test
-- picks, and every record is one of the group and of the run.
pub record Reports (group : TaskGroup) (run_id : Text) (packages : List Package)
    (records : List TransactionRecord) : Type 0 where
  pub one_each :
      (q : Text → Text → Bool)
      → count (λ r. q r.package_name r.package_version) records
        ≡ count (λ pkg. q pkg.name pkg.version) packages
  pub of_group :
      All (λ r. (r.run_id ≡ run_id) × (r.system ≡ group.system) × (r.action ≡ group.action)) records

All-map_twice :
    {A B C : Type 0} (P : C → Type 0) (f : B → C) (g : A → B) (xs : List A)
    → ((x : A) → P (f (g x)))
    → All P (map f (map g xs))
All-map_twice P f g [] h = tt
All-map_twice P f g (x ∷ xs) h = (h x, All-map_twice P f g xs h)

module _ (group : TaskGroup) (run_id : Text) where
  Reports-append :
      (ps qs : List Package) (rs ss : List TransactionRecord)
      → Reports group run_id ps rs
      → Reports group run_id qs ss
      → Reports group run_id (ps ++ qs) (rs ++ ss)
  Reports-append ps qs rs ss a b = record {
    one_each = λ q.
        rw
          (
            count-append (λ r. q r.package_name r.package_version) rs ss,
            count-append (λ pkg. q pkg.name pkg.version) ps qs,
            a.one_each q,
            b.one_each q,
          )
          refl;
    of_group = All-append _ rs ss a.of_group b.of_group;
  }

  -- A result with such records.
  abbrev pub Reported : (X : Type 0) → List TransactionRecord × X → Type 0
  Reported X (records, x) = Reports group run_id group.packages records

  Reports-success :
      (packages : List Package)
      → Reports group run_id packages (success_records group run_id packages)
  unfolding success_records with_run_id build_success_records record_of
  Reports-success packages = record {
    one_each = λ q. count-map _ _ _ ∙ count-map _ _ packages;
    of_group = All-map_twice _ _ _ packages (λ pkg. (refl, refl, refl));
  }

  Reports-failure :
      (message : Text) (packages : List Package)
      → Reports group run_id packages (failure_records group run_id message packages)
  unfolding failure_records with_failure build_failure_records record_of
  Reports-failure message packages = record {
    one_each = λ q. count-map _ _ _ ∙ count-map _ _ packages;
    of_group = All-map_twice _ _ _ packages (λ pkg. (refl, refl, refl));
  }

  pub Reports-build_records :
      (message : Text)
      → Reports group run_id group.packages (with_run_id run_id (build_success_records group))
        × Reports group run_id group.packages
            (with_failure run_id message (build_failure_records group))
  unfolding success_records failure_records
  Reports-build_records message =
      (Reports-success group.packages, Reports-failure message group.packages)

  Reports-failed :
      (unavailable : List Text) (packages : List Package)
      → Reports group run_id packages (failed_records group run_id unavailable packages)
  unfolding failed_records keep_if
  Reports-failed unavailable [] = record { one_each = λ q. refl; of_group = tt }
  Reports-failed unavailable (pkg ∷ rest) =
      Reports-append (pkg ∷ []) rest _ _ (Reports-failure _ (pkg ∷ []))
        (Reports-failed unavailable rest)

  -- The packages are those of the group, in another order.
  Reports-parts :
      (succeeded failed : List Package) (records : List TransactionRecord)
      → ((p : Package → Bool) → count p succeeded + count p failed ≡ count p group.packages)
      → Reports group run_id (succeeded ++ failed) records
      → Reports group run_id group.packages records
  Reports-parts succeeded failed records parts r = record {
    one_each = λ q. r.one_each q ∙ (count-append _ succeeded failed ∙ parts _);
    of_group = r.of_group;
  }

  module _ {S : Type 0} (host : PluginHost S) (preloaded : Bool) where
    -- Asked or not, the packages that succeeded and those that failed make up the group.
    count-parts :
        (s : S) (p : Package → Bool)
        → count p (succeeded_packages group run_id host preloaded s)
            + count p (failed_packages group run_id host preloaded s).0
          ≡ count p group.packages
    unfolding succeeded_packages failed_packages succeeded_of missing_of keep_if
    count-parts s p =
        let asked = action_uses_missing_package_filter group.action in
        let found = (host.has_plugin s group.system).0 in
        elim (Bool-cases asked) [
          | inl e ↦ elim (Bool-cases found) [
            | inl f ↦ rw (e, f) (count-split p _ group.packages)
            | inr f ↦ rw (e, f) (omega arith)
          ]
          | inr e ↦ rw e (omega arith)
        ]

    after_dispatch-Reports :
        (x : Bool × S)
        → Reports group run_id group.packages (after_dispatch group run_id host preloaded x).0
    unfolding after_dispatch split_records
    after_dispatch-Reports (ok, s) =
        let events = take_events group run_id host preloaded (host.has_plugin s group.system) in
        if_cases (Reported S) ok (λ e. Reports-success group.packages)
          (λ e.
            Reports-parts _ _ _ (count-parts events.1)
              (Reports-append _ _ _ _ (Reports-success _) (Reports-failed _ _)))

    after_local-Reports :
        (x : Bool × S)
        → Reports group run_id group.packages (after_local_dispatch group run_id host preloaded x).0
    unfolding after_local_dispatch
    after_local-Reports (ok, s) =
        if_cases (Reports group run_id group.packages) ok (λ e. Reports-success group.packages)
          (λ e. Reports-failure _ group.packages)

    module _ {D : Type 0} (lmdb : Lmdb D) (actions : ActionCodes) (clock : ℕ → ℕ)
        (x : ExecutorState S D) where
      when_marked-Reports :
          (marked : Bool × TransactionDatabase D)
          → Reports group run_id group.packages
              (when_marked group run_id host preloaded lmdb actions clock x marked).0
      unfolding when_marked with_host
      when_marked-Reports (ok, database) =
          if_cases (Reported (ExecutorState S D)) ok (λ e. after_dispatch-Reports _)
            (λ e. Reports-failure _ group.packages)

      -- Whatever the plugin and the database do, a group that is run has one record for each of its
      -- packages, and all of them are of the group and of the run.
      pub run_task_group-Reports :
          Reports group run_id group.packages
            (run_task_group group run_id host preloaded lmdb actions clock x).0
      unfolding run_task_group with_host
      run_task_group-Reports =
          if_cases (Reported (ExecutorState S D)) group.uses_local_target
            (λ e. after_local-Reports (dispatch_task_group_to_plugin host preloaded group x.host))
            (λ e. when_marked-Reports _)

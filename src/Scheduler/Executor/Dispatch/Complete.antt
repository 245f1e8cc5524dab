-- ===== src/Scheduler/Executor/Dispatch/Complete.antt =====
-- What a group that is executed is reported as, on every path.
use req_pack_core.Prelude.{
  ℕ, Bool, true, false, not, ◌&&◌, Text, List, [], ◌∷◌, ◌≡◌, refl, sym, ◌∙◌, if_cases, arith,
  is_empty, keep_if, true_ne_false,
}
use req_pack_core.State.Records.{ActionCodes}
use req_pack_core.State.Store.{Lmdb}
use req_pack_core.Scheduler.Groups.{TaskGroup}
use req_pack_core.Scheduler.Executor.{PluginHost, ExecutorState}
use req_pack_core.Scheduler.Executor.Transactional.Reports.{
  Reports, Reported, Reports-build_records, run_task_group-Reports,
}
use req_pack_core.Scheduler.Executor.Dispatch.{
  ExecutionConfig, Preparation, report, run_loaded, once_group_loaded, once_resolved, skips_nix,
  is_install_like_action, execute_task_group,
}

empty_of : {A : Type 0} (xs : List A) → is_empty xs ≡ true → xs ≡ []
empty_of [] e = refl
empty_of (x ∷ xs) e = elim (true_ne_false (sym e)) [ ]

module _ {S : Type 0} (host : PluginHost S) (prepared : Preparation) (group : TaskGroup)
    (run_id : Text) where
  report-Reports :
      (message : Text) (ok : Bool)
      → Reports group run_id group.packages (report host prepared group run_id message ok)
  unfolding report
  report-Reports message true = (Reports-build_records group run_id message).0
  report-Reports message false = (Reports-build_records group run_id message).1

  empty-Reports :
      (is_empty group.packages && not group.uses_local_target) ≡ true
      → Reports group run_id group.packages []
  unfolding keep_if
  empty-Reports e = record {
    one_each = λ q. rw (empty_of group.packages (ground arith)) refl;
    of_group = tt;
  }

  module _ {D : Type 0} (lmdb : Lmdb D) (actions : ActionCodes) (clock : ℕ → ℕ)
      (config : ExecutionConfig) where
    run_loaded-Reports :
        (x : ExecutorState S D)
        → Reports group run_id group.packages
            (run_loaded host prepared group run_id lmdb actions clock config x).0
    unfolding run_loaded
    run_loaded-Reports x =
        if_cases (Reported group run_id (ExecutorState S D)) config.dry_run
          (λ e. (Reports-build_records group run_id []).0)
          (λ e.
            if_cases (Reported group run_id (ExecutorState S D))
              (config.use_transaction_db && not (is_empty run_id))
              (λ f.
                run_task_group-Reports group run_id host prepared.preloaded lmdb actions clock x)
              (λ f. report-Reports _ _))

    once_group_loaded-Reports :
        (x : ExecutorState S D) (loaded : Bool × S)
        → Reports group run_id group.packages
            (once_group_loaded host prepared group run_id lmdb actions clock config x loaded).0
    unfolding once_group_loaded
    once_group_loaded-Reports x (true, s) = run_loaded-Reports (record x { host = s })
    once_group_loaded-Reports x (false, s) = report-Reports _ false

    once_resolved-Reports :
        (x : ExecutorState S D) (name : Text) (s : S)
        → skips_nix host prepared group run_id config name ≡ false
        → Reports group run_id group.packages
            (once_resolved host prepared group run_id lmdb actions clock config x (name, s)).0
    unfolding once_resolved
    once_resolved-Reports x name s kept =
        if_cases (Reported group run_id (ExecutorState S D)) _
          (λ e. elim (true_ne_false (sym e ∙ kept)) [ ])
          (λ e.
            if_cases (Reported group run_id (ExecutorState S D))
              (host.is_gateway_system group.system) (λ f. report-Reports _ _)
              (λ f. once_group_loaded-Reports x _))

    -- A group that is not one of nix to be skipped has one record for each of its packages: whether
    -- it is empty, run without the database, for a dry run only, by the security gateway or by a
    -- plugin, and whether or not the plugin can be loaded.
    pub execute_task_group-Reports :
        (x : ExecutorState S D)
        → skips_nix host prepared group run_id config
            (host.resolve_plugin_name x.host group.system).0
          ≡ false
        → Reports group run_id group.packages
            (execute_task_group host prepared group run_id lmdb actions clock config x).0
    unfolding execute_task_group skips_nix
    execute_task_group-Reports x kept =
        if_cases (Reported group run_id (ExecutorState S D))
          (is_empty group.packages && not group.uses_local_target) (λ e. empty-Reports e)
          (λ e.
            if_cases (Reported group run_id (ExecutorState S D))
              (config.soft_skip_nix_installs && is_install_like_action group.action)
              (λ a. once_resolved-Reports x _ _ kept)
              (λ a. once_resolved-Reports x [] x.host (ground arith)))

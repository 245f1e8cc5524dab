-- ===== src/Scheduler/Executor/Samples.antt =====
-- The executor over a store in memory, with a plugin that fails to install.
use req_pack_core.Prelude.{ℕ, suc, ◌+◌, true, false, ◌≡◌, refl, ◌⊎◌, codes, List, [], ◌∷◌, text_beq}
use req_pack_core.Types.{Package, empty_package, install, action_beq}
use req_pack_core.State.Records.{TransactionItemRecord, ActionCodes}
use req_pack_core.State.Keys.{transaction_database_item_key}
use req_pack_core.State.Store.Memory.{memory, memory-IsStore, Writes}
use req_pack_core.State.Database.{get_run_items}
use req_pack_core.State.Database.Changes.Update.{MarkedAll}
use req_pack_core.Scheduler.Groups.{TaskGroup, is_nix_install_system}
use req_pack_core.Scheduler.Executor.{PluginHost, ExecutorState}
use req_pack_core.Scheduler.Executor.Transactional.{run_task_group, failure_records}
use req_pack_core.Scheduler.Executor.Transactional.Reports.{Reports}
use req_pack_core.Scheduler.Executor.Transactional.Marking.{run_task_group-Marked}
use req_pack_core.Scheduler.Executor.Dispatch.{
  ExecutionConfig, Preparation, execute_task_group, skips_nix, is_install_like_action,
}
use req_pack_core.Scheduler.Executor.Dispatch.Complete.{execute_task_group-Reports}
use req_pack_core.Scheduler.Executor.Results.{mark_committed_transactions}
use req_pack_core.Scheduler.Executor.Results.Settled.{Settled, mark_committed_transactions-Settled}
use req_pack_core.Scheduler.Executor.Recovery.{split_items, reconcile_recovered_items}
use req_pack_core.Scheduler.Executor.Recovery.Systems.{
  Accounted, reconcile_recovered_items-Accounted,
}

abbrev no_codes : ActionCodes
no_codes = record { code = λ a. 1; of_code = λ n. install }

abbrev millis : ℕ → ℕ
millis n = 1700 + n

abbrev others : List Package → List Package
others [] = []
others (pkg ∷ rest) = rest

-- The first package of a call is there afterwards; the state counts the calls.
abbrev failing : PluginHost ℕ
failing = record {
  has_plugin = λ s system. (true, s);
  load_plugin = λ s system. (true, s);
  resolve_plugin_name = λ s system. (system, s);
  is_gateway_system = λ system. false;
  execute_gateway_request = λ s group. ([], s);
  install_local = λ s group. (false, suc s);
  install_packages = λ s group. (false, suc s);
  remove_packages = λ s group. (false, suc s);
  update_packages = λ s group. (false, suc s);
  supports_pack = λ s system. (false, s);
  pack_local = λ s group. (false, suc s);
  get_missing_packages = λ s system packages. (others packages, suc s);
  take_recent_events = λ s system. ([], s);
}

abbrev vim : Package
vim = record empty_package { action = install; system = codes "apt"; name = codes "vim" }

abbrev git : Package
git = record vim { name = codes "git" }

abbrev two_packages : TaskGroup
two_packages = record {
  action = install;
  system = codes "apt";
  packages = vim ∷ git ∷ [];
  flags = [];
  local_path = [];
  uses_local_target = false;
}

abbrev stored : Writes
stored =
    (codes "meta:active_run", codes "7")
    ∷ (codes "run:7", codes "state=open\ncreatedAt=1\nupdatedAt=1\nflags=\n")
    ∷ (
      transaction_database_item_key no_codes (codes "7") vim,
      codes
          "sequence=0\naction=1\nsystem=apt\nname=vim\nversion=\nsourcePath=\nlocalTarget=0\nstatus=planned\nerror=\n",
    )
    ∷ (
      transaction_database_item_key no_codes (codes "7") git,
      codes
          "sequence=1\naction=1\nsystem=apt\nname=git\nversion=\nsourcePath=\nlocalTarget=0\nstatus=success\nerror=\n",
    )
    ∷ []

abbrev executor : ExecutorState ℕ Writes
executor = record {
  host = 0;
  database = record { initialized = true; env = stored; readings = 0 };
  active_run_id = codes "7";
}

abbrev config : ExecutionConfig
config = record { dry_run = false; use_transaction_db = true; soft_skip_nix_installs = true }

abbrev prepared : Preparation
prepared = record { preloaded = false; plugin_load_failed = false; nix_soft_skip_consumers = [] }

not_nix : skips_nix failing prepared two_packages (codes "7") config (codes "apt") ≡ false
unfolding skips_nix is_install_like_action is_nix_install_system action_beq text_beq
not_nix = refl

execute_task_group-Reports_example :
    Reports two_packages
      (codes "7")
      two_packages.packages
      (execute_task_group failing prepared two_packages
        (codes "7")
        memory
        no_codes
        millis
        config
        executor).0
execute_task_group-Reports_example =
    execute_task_group-Reports failing prepared two_packages (codes "7") memory no_codes millis
      config executor not_nix

run_task_group-Marked_example :
    MarkedAll memory memory-IsStore no_codes
      (codes "running")
      []
      millis
      (codes "7")
      two_packages.packages
      (run_task_group two_packages
        (codes "7")
        failing
        false
        memory
        no_codes
        millis
        executor).1.database.env
    ⊎ (((run_task_group two_packages
            (codes "7")
            failing
            false
            memory
            no_codes
            millis
            executor).1.host
          ≡ 0)
        × ((run_task_group two_packages (codes "7") failing false memory no_codes millis executor).0
            ≡ failure_records two_packages
                (codes "7")
                (codes "transaction update failed")
                two_packages.packages))
run_task_group-Marked_example =
    run_task_group-Marked failing false memory memory-IsStore no_codes millis two_packages
      (codes "7") executor refl

mark_committed_transactions-Settled_example :
    Settled memory memory-IsStore no_codes millis
      (codes "7")
      (get_run_items memory no_codes millis (codes "7") executor.database).0
      (get_run_items memory no_codes millis (codes "7") executor.database).1
      stored
      (mark_committed_transactions memory no_codes millis executor).database.env
mark_committed_transactions-Settled_example =
    mark_committed_transactions-Settled memory memory-IsStore no_codes millis executor refl

abbrev item : TransactionItemRecord
item = record {
  run_id = codes "7";
  item_id = codes "1";
  sequence = 0;
  pkg = vim;
  status = codes "planned";
  error_message = [];
}

reconcile_recovered_items-Accounted_example :
    let out =
      reconcile_recovered_items failing memory no_codes millis
        (codes "7")
        (item ∷ [])
        (0, executor.database) in
    Accounted failing memory memory-IsStore no_codes millis
      (codes "7")
      item
      (split_items failing [] 0).1
      out.0
      out.1.1.env
reconcile_recovered_items-Accounted_example =
    reconcile_recovered_items-Accounted failing memory memory-IsStore no_codes millis (codes "7") []
      [] item 0 executor.database

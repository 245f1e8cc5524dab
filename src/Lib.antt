-- ===== src/Lib.antt =====
-- ReqPack Core, the library under the `rqp` command: it reads commands, resolves the requests in
-- them to plugins, plans a graph of packages, runs the groups of that graph through plugins and
-- records each run in a transaction database, from which an interrupted run is recovered.
--
-- Paths are from the root of the repository; text is the list of the bytes of a `std::string`.
-- Prelude (tests, lists, texts), Decimal (`std::to_string`, `stoul`, `stoi`) and Types
-- (src/platform/common/types.h) are shared.
-- Platform/ActionTokens: src/platform/common/action_tokens.cpp; `parse_action_token`.
-- Remote/ReadonlyPolicy: src/workflows/remote/serve_remote_readonly_policy.cpp, a function for
--   each function of the file; the loop that drops configuration flags is `strip_from`.
-- Resolution: src/engine/resolution/request_resolution.cpp. `resolve_request_recursive` recurs on
--   the proxies that may still be followed, MAX_PROXY_RESOLUTION_DEPTH less `depth`, so no fuel is
--   added. The registry and its plugins are the parameter `ProxyHost`, over a state.
-- Planner/Engine: src/engine/planner/planner_engine.cpp.
-- Planner/EnsureOrder: the ensure order flag, of planner_dependency_policy.cpp beside it and of
--   src/engine/scheduler/scheduler_support.hpp.
-- Planner/Dependencies: the dependencies of plugins, of planner_dependency_policy.cpp. The registry,
--   the downloader and the installed bundles are the parameter `PlannerHost`, over a state; the
--   ordered maps are lists in the order of their keys.
-- State/Records, Fields, Keys, Runs, Items: src/ecosystem/state/transaction_database_store.cpp.
--   The loops over lines are recursions on the list of lines; what an early return skips is skipped
--   by `and_then`. The numbers of `ActionType` are the parameter `ActionCodes`.
-- State/Store: `scan_prefix` of src/ecosystem/storage/lmdb_store.cpp. LMDB is the parameter `Lmdb`,
--   with what its documentation says of keys in order, reads and writes in `IsStore`; the store in
--   memory (State/Store/Memory) has these properties.
-- State/Database: src/ecosystem/state/transaction_database.cpp, transaction_database_read.cpp and
--   transaction_database_write.cpp. An operation takes and gives back the whole database and is the
--   step of a single thread: `createRun`, `markRunCommitted` and `deleteRun` take the mutex several
--   times, and what another thread does in between is not modelled. A write that fails is `none`,
--   and the aborted transaction leaves the store it began with. The milliseconds of each reading
--   of the clock are a parameter.
--   `std::sort` is an insertion sort: it orders items of one number as they were found, which the
--   source leaves open. The destructor, which closes the environment, is left out.
-- Scheduler/Groups: src/engine/scheduler/task_graph_builder.cpp (`collectPackages`,
--   `createFromGraph`, which takes the packages in the order of `orderedVertices`) and
--   executor_transaction_recovery.cpp (`createTaskGroupsFromRecords`).
-- Scheduler/Filter: `filterExecutable` of task_graph_builder.cpp; what the registry, the security
--   gateway and the plugins answer is the parameter `FilterHost`, over a state.
-- Scheduler/Plans: `createPlans` of task_graph_builder.cpp. The vectors over groups are functions
--   of the index, the map of keys is an association list with the last entry in front, and the
--   parameter `windows` is what src/engine/planner/planner_platform_policy.h tests; the plugin names
--   that the registry resolves are a parameter.
-- Scheduler/Sequential: `run_sequential` of parallel_task_scheduler.cpp, over a state of the
--   executor; `traced` notes which groups are executed.
-- Scheduler/Parallel: src/engine/scheduler/parallel_task_scheduler.cpp, the run by worker threads.
--   `take_group` and `complete_group` are the two critical sections; `Step` lets any worker enter
--   the next one, and any group end, with or without a failure. What a group does is not modelled
--   there, and `executeTaskGroup` is taken to return. `Plans` is what the workers read of the plans.
-- Scheduler/Executor: src/engine/scheduler/executor.h, executor_dispatch.cpp (`executeTaskGroup`,
--   `dispatchTaskGroupToPlugin`); Transactional is transactional_runner.cpp, Results is
--   executor_transaction_state.cpp and Recovery is executor_transaction_recovery.cpp, over the
--   transaction database. The plugins, the registry and the security gateway are the parameter
--   `PluginHost`, over a state; what is displayed is left out. The executor always makes the
--   database, so the tests for a null pointer are left out too.
-- Registry: src/ecosystem/registry, the plugins and their states: registry_runtime.cpp,
--   `resolvePluginName` of registry.cpp, `ensurePluginsDiscovered` of registry_materialize.cpp for
--   one name, and `ensurePluginConstructed` of registry_trust.cpp. The records, the trust checks, the
--   files and the plugins are the parameter `RegistryHost`, over a state.
--
-- `Package`, `ActionType` and the graph are declared in the security library, which is not in the
-- repository: they have the fields and enumerators that the code names. `std::tolower` and
-- `std::isspace` are those of the "C" locale. Decimal printing takes a number and one as fuel, which
-- is more than it has digits; hexadecimal printing takes 16, the digits of 64 bits.
-- Not modelled: the Lua plugin host, archives, downloads, sockets, the operating system, and the
-- layout of reports, which are calls of libraries or of the system.
pub mod Prelude
pub mod Decimal
pub mod Types
pub mod Platform
pub mod Remote
pub mod Resolution
pub mod Planner
pub mod State
pub mod Scheduler
pub mod Registry

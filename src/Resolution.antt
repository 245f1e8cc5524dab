-- ===== src/Resolution.antt =====
-- engine/resolution/request_resolution.cpp: following proxies from a request to the plugin that
-- serves it. The registry, its plugins and the configured proxies are the parameter `ProxyHost`
-- over a state `S`, since loading or asking a plugin may change what the next call answers. The
-- context that a plugin is given is a function of the plugin, the configuration and the request,
-- and is part of `resolve_proxy_request`.
pub mod Redirected
pub mod Outcomes
pub mod Calls
mod Samples
use req_pack_core.Prelude.{
  ℕ, zero, suc, Bool, true, false, not, ◌&&◌, ◌||◌, ◌==◌, if◌then◌else◌, Text, text_eq, List, [],
  ◌∷◌, ◌++◌, Option, none, some, is_empty, contains, to_lower_copy,
}
use req_pack_core.Types.{Request, ProxyResolution}

abbrev pub max_proxy_resolution_depth : ℕ
max_proxy_resolution_depth = 4

pub record ProxyHost (S : Type 0) : Type 0 where
  pub resolve_plugin_name : S → Text → Text
  pub load_plugin : S → Text → Bool × S
  -- `getPlugin(system)`, and whether it supports proxy resolution.
  pub get_plugin : S → Text → Option Bool × S
  pub resolve_proxy_request : S → Request → Option ProxyResolution × S
  -- The configured targets; empty where there is no configuration.
  pub proxy_targets : Text → List Text
  -- `registry == nullptr`, `config.planner.enableProxyExpansion`
  pub has_registry : Bool
  pub enable_proxy_expansion : Bool

-- The messages of `errorMessage`.
pub data ResolutionError : Type 0 where
  depth_exceeded cycle could_not_resolve empty_target to_itself unknown_target : ResolutionError
  both_packages_and_path : ResolutionError

pub data Outcome (A : Type 0) : Type 0 where
  resolved : A → Outcome A
  refused : ResolutionError → Outcome A

-- The request that is asked for next.
set_target : Request → Option Text → Option (List Text) → Request
set_target next (some path) packages = record next {
  local_path = path;
  uses_local_target = true;
  packages = [];
}
set_target next none (some packages) = record next {
  packages = packages;
  local_path = [];
  uses_local_target = false;
}
set_target next none none = next

set_flags : Request → Option (List Text) → Request
set_flags next none = next
set_flags next (some flags) = record next { flags = flags }

pub redirect : Request → Text → ProxyResolution → Request
unfolding set_target set_flags
redirect current target resolution =
    set_target (set_flags (record current { system = target }) resolution.flags)
      resolution.local_path resolution.packages

has_value : {A : Type 0} → Option A → Bool
has_value none = false
has_value (some a) = true

module _ {S : Type 0} (host : ProxyHost S) where
  open host use {
    resolve_plugin_name, load_plugin, get_plugin, resolve_proxy_request, proxy_targets,
    has_registry, enable_proxy_expansion,
  }

  -- The guards on what the proxy answered, and the recursive call `next`.
  follow :
      (List Text → Request → S → Outcome Request × S)
      → List Text
      → Request
      → ProxyResolution
      → S
      → Outcome Request × S
  unfolding redirect has_value
  follow next visited current resolution s =
      let target = resolve_plugin_name s (to_lower_copy resolution.target_system) in
      let targets = proxy_targets current.system in
      if is_empty target
      then (refused empty_target, s)
      else if target == current.system
      then (refused to_itself, s)
      else if not (is_empty targets) && not (contains targets target)
      then (refused unknown_target, s)
      else if has_value resolution.packages && has_value resolution.local_path
      then (refused both_packages_and_path, s)
      else next (visited ++ (current.system ∷ [])) (redirect current target resolution) s

  answered :
      (List Text → Request → S → Outcome Request × S)
      → List Text
      → Request
      → Option ProxyResolution × S
      → Outcome Request × S
  unfolding follow
  answered next visited current (none, s) = (refused could_not_resolve, s)
  answered next visited current (some resolution, s) = follow next visited current resolution s

  with_plugin :
      (List Text → Request → S → Outcome Request × S)
      → List Text
      → Request
      → Option Bool × S
      → Outcome Request × S
  unfolding answered
  with_plugin next visited current (none, s) = (resolved current, s)
  with_plugin next visited current (some false, s) = (resolved current, s)
  with_plugin next visited current (some true, s) =
      if contains visited current.system
      then (refused cycle, s)
      else answered next visited current (resolve_proxy_request s current)

  after_load :
      (List Text → Request → S → Outcome Request × S)
      → List Text
      → Request
      → Bool × S
      → Outcome Request × S
  unfolding with_plugin
  after_load next visited current (false, s) = (resolved current, s)
  after_load next visited current (true, s) =
      with_plugin next visited current (get_plugin s current.system)

  abbrev named : Request → S → Request
  named request s = record request { system = resolve_plugin_name s request.system }

  -- The first argument is how many more proxies may be followed: MAX_PROXY_RESOLUTION_DEPTH less
  -- `depth`. `visitedSystems` is pushed before the recursive call and popped behind it.
  pub resolve_request_recursive : ℕ → List Text → Request → S → Outcome Request × S
  unfolding after_load
  resolve_request_recursive zero visited request s =
      if is_empty (named request s).system
      then (resolved (named request s), s)
      else (refused depth_exceeded, s)
  resolve_request_recursive (suc left) visited request s =
      if is_empty (named request s).system
      then (resolved (named request s), s)
      else after_load (resolve_request_recursive left) visited (named request s)
          (load_plugin s (named request s).system)

  pub resolve_request : Request → S → Outcome Request × S
  resolve_request request s =
      if not has_registry || not enable_proxy_expansion || is_empty request.system
      then (resolved request, s)
      else resolve_request_recursive max_proxy_resolution_depth [] request s

  keep_resolved : Request → Outcome (List Request) × S → Outcome (List Request) × S
  keep_resolved r (resolved rs, s) = (resolved (r ∷ rs), s)
  keep_resolved r (refused e, s) = (refused e, s)

  -- The first request that is refused ends the loop.
  pub resolve_requests : List Request → S → Outcome (List Request) × S
  unfolding keep_resolved
  resolve_requests [] s = (resolved [], s)
  resolve_requests (request ∷ rest) s = elim (resolve_request request s).0 [
    | resolved r ↦ keep_resolved r (resolve_requests rest (resolve_request request s).1)
    | refused e ↦ (refused e, (resolve_request request s).1)
  ]

-- ===== src/Resolution/Calls.antt =====
-- How often proxies are asked.
use req_pack_core.Prelude.{
  ℕ, zero, suc, ◌+◌, ◌≤◌, Bool, true, false, Text, text_eq, List, [], ◌∷◌, ◌++◌, Option, none, some,
  contains, to_lower_copy, ◌≡◌, arith, Bool-cases, inl, inr,
}
use req_pack_core.Types.{Request, ProxyResolution}
use req_pack_core.Resolution.{
  ProxyHost, Outcome, redirect, follow, answered, with_plugin, after_load, named,
  resolve_request_recursive, resolve_request, max_proxy_resolution_depth,
}

module _ {S : Type 0} (host : ProxyHost S) where
  -- A counter of the calls of `resolveProxyRequest` in the state.
  pub record Counts (calls : S → ℕ) : Type 0 where
    pub load : (s : S) (system : Text) → calls (host.load_plugin s system).1 ≡ calls s
    pub get : (s : S) (system : Text) → calls (host.get_plugin s system).1 ≡ calls s
    pub ask : (s : S) (q : Request) → calls (host.resolve_proxy_request s q).1 ≡ calls s + 1

  module _ (calls : S → ℕ) (counts : Counts calls) where
    module _ (left : ℕ) (next : List Text → Request → S → Outcome Request × S)
        (go_on : (visited : List Text) (q : Request) (s : S)
          → calls (next visited q s).1 ≤ calls s + left) where
      follow-calls :
          (visited : List Text) (current : Request) (answer : ProxyResolution) (s : S)
          → calls (follow host next visited current answer s).1 ≤ calls s + left
      unfolding follow
      follow-calls visited current answer s =
          let target = host.resolve_plugin_name s (to_lower_copy answer.target_system) in
          ground
            (arith, go_on (visited ++ (current.system ∷ [])) (redirect current target answer) s)

      answered-calls :
          (visited : List Text) (current : Request) (answer : Option ProxyResolution × S)
          → calls (answered host next visited current answer).1 ≤ calls answer.1 + left
      unfolding answered
      answered-calls visited current (none, s) = omega arith
      answered-calls visited current (some answer, s) = follow-calls visited current answer s

      with_plugin-calls :
          (visited : List Text) (current : Request) (plugin : Option Bool × S)
          → calls (with_plugin host next visited current plugin).1 ≤ calls plugin.1 + suc left
      unfolding with_plugin
      with_plugin-calls visited current (none, s) = omega arith
      with_plugin-calls visited current (some false, s) = omega arith
      with_plugin-calls visited current (some true, s) =
          elim (Bool-cases (contains visited current.system)) [
            | inl again ↦ rw again (omega arith)
            | inr first ↦ rw first (
                omega (
                  arith,
                  answered-calls visited current (host.resolve_proxy_request s current),
                  counts.ask s current,
                ))
          ]

      after_load-calls :
          (visited : List Text) (current : Request) (loaded : Bool × S)
          → calls (after_load host next visited current loaded).1 ≤ calls loaded.1 + suc left
      unfolding after_load
      after_load-calls visited current (false, s) = omega arith
      after_load-calls visited current (true, s) = omega (
        arith,
        with_plugin-calls visited current (host.get_plugin s current.system),
        counts.get s current.system,
      )

    recursive-calls :
        (left : ℕ) (visited : List Text) (q : Request) (s : S)
        → calls (resolve_request_recursive host left visited q s).1 ≤ calls s + left
    unfolding resolve_request_recursive
    recursive-calls zero visited q s = ground arith
    recursive-calls (suc left) visited q s =
        let system = (named host q s).system in
        ground (
          arith,
          after_load-calls left (resolve_request_recursive host left) (recursive-calls left) visited
              (named host q s) (host.load_plugin s system),
          counts.load s system,
        )

    -- Whatever the proxies answer, a request asks proxies four times at most, so a chain or a ring of
    -- proxies comes to an end.
    pub resolve_request-calls :
        (q : Request) (s : S) → calls (resolve_request host q s).1 ≤ calls s + 4
    unfolding resolve_request
    resolve_request-calls q s = ground (arith, recursive-calls max_proxy_resolution_depth [] q s)

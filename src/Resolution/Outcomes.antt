-- ===== src/Resolution/Outcomes.antt =====
-- What a request that was resolved looks like.
use req_pack_core.Prelude.{
  ℕ, zero, suc, Bool, true, false, not, ◌&&◌, ◌==◌, Text, text_eq, List, [], ◌∷◌, Option, none,
  some, is_empty, contains, to_lower_copy, ◌≡◌, ◌≢◌, refl, arith, is_empty_of_ne, subst, if_cases,
}
use req_pack_core.Types.{Request, ProxyResolution}
use req_pack_core.Resolution.{
  ProxyHost, Outcome, resolved, refused, redirect, has_value, follow, answered, with_plugin,
  after_load, named, resolve_request_recursive, resolve_request, max_proxy_resolution_depth,
}
use req_pack_core.Resolution.Redirected.{
  IsCarried, IsCarried-trans, redirected, redirect_lem, redirected-IsCarried,
}

module _ {S : Type 0} (host : ProxyHost S) where
  named-IsCarried : (q : Request) (s : S) → IsCarried q (named host q s)
  named-IsCarried q s = ground arith

  -- The way of a request from a state to the request that is returned: each system on it but the
  -- last is one whose plugin loads, resolves proxies and is asked for the next.
  pub data Trail : Request → S → Request → S → Type 0 where
    -- The name is resolved to nothing.
    nowhere : (q : Request) (s : S) → (named host q s).system ≡ [] → Trail q s (named host q s) s
    not_loaded :
        (q : Request) (s t : S)
        → host.load_plugin s (named host q s).system ≡ (false, t)
        → Trail q s (named host q s) t
    -- There is no such plugin, or it resolves no proxies.
    no_proxy :
        (q : Request) (s t u : S) (plugin : Option Bool)
        → host.load_plugin s (named host q s).system ≡ (true, t)
        → host.get_plugin t (named host q s).system ≡ (plugin, u)
        → plugin ≢ some true
        → Trail q s (named host q s) u
    followed :
        (q r : Request) (s t u v w : S) (answer : ProxyResolution)
        → host.load_plugin s (named host q s).system ≡ (true, t)
        → host.get_plugin t (named host q s).system ≡ (some true, u)
        → host.resolve_proxy_request u (named host q s) ≡ (some answer, v)
        → Trail
            (redirected
              (named host q s)
              (host.resolve_plugin_name v (to_lower_copy answer.target_system))
              answer)
            v
            r
            w
        → Trail q s r w

  Trail-IsCarried : (q r : Request) (s t : S) → Trail q s r t → IsCarried q r
  Trail-IsCarried q r s t (nowhere _ _ e) = named-IsCarried q s
  Trail-IsCarried q r s t (not_loaded _ _ _ e) = named-IsCarried q s
  Trail-IsCarried q r s t (no_proxy _ _ _ _ _ e f n) = named-IsCarried q s
  Trail-IsCarried q r s t (followed _ _ _ _ _ v _ answer e f g more) =
      IsCarried-trans
        (IsCarried-trans (named-IsCarried q s) (redirected-IsCarried (named host q s) _ answer))
        (Trail-IsCarried _ r v t more)

  -- A resolution that is refused says nothing.
  abbrev pub Ends : Request → S → Outcome Request × S → Type 0
  Ends q s (resolved r, t) = Trail q s r t
  Ends q s (refused e, t) = Unit

  module _ (next : List Text → Request → S → Outcome Request × S)
      (go_on : (visited : List Text) (q : Request) (s : S) → Ends q s (next visited q s))
      (visited : List Text) (q : Request) (s : S) where
    abbrev current : Request
    current = named host q s

    followed-Ends :
        (t u v : S) (answer : ProxyResolution) (out : Outcome Request × S)
        → host.load_plugin s current.system ≡ (true, t)
        → host.get_plugin t current.system ≡ (some true, u)
        → host.resolve_proxy_request u current ≡ (some answer, v)
        → Ends
            (redirect current
              (host.resolve_plugin_name v (to_lower_copy answer.target_system))
              answer)
            v
            out
        → Ends q s out
    followed-Ends t u v answer (resolved r, w) e f g h =
        followed q r s t u v w answer e f g
          (subst (λ n. Trail n v r w) (redirect_lem current _ answer) h)
    followed-Ends t u v answer (refused x, w) e f g h = tt

    follow-Ends :
        (t u v : S) (answer : ProxyResolution)
        → host.load_plugin s current.system ≡ (true, t)
        → host.get_plugin t current.system ≡ (some true, u)
        → host.resolve_proxy_request u current ≡ (some answer, v)
        → Ends q s (follow host next visited current answer v)
    unfolding follow
    follow-Ends t u v answer e f g =
        let target = host.resolve_plugin_name v (to_lower_copy answer.target_system) in
        let targets = host.proxy_targets current.system in
        if_cases (Ends q s) (is_empty target) (λ h. tt)
          (λ h.
            if_cases (Ends q s) (target == current.system) (λ h. tt)
              (λ h.
                if_cases (Ends q s) (not (is_empty targets) && not (contains targets target))
                  (λ h. tt)
                  (λ h.
                    if_cases (Ends q s) (has_value answer.packages && has_value answer.local_path)
                      (λ h. tt) (λ h. followed-Ends t u v answer _ e f g (go_on _ _ v)))))

    answered-Ends :
        (t u : S) (answer : Option ProxyResolution × S)
        → host.load_plugin s current.system ≡ (true, t)
        → host.get_plugin t current.system ≡ (some true, u)
        → host.resolve_proxy_request u current ≡ answer
        → Ends q s (answered host next visited current answer)
    unfolding answered
    answered-Ends t u (none, v) e f g = tt
    answered-Ends t u (some answer, v) e f g = follow-Ends t u v answer e f g

    with_plugin-Ends :
        (t : S) (plugin : Option Bool × S)
        → host.load_plugin s current.system ≡ (true, t)
        → host.get_plugin t current.system ≡ plugin
        → Ends q s (with_plugin host next visited current plugin)
    unfolding with_plugin
    with_plugin-Ends t (none, u) e f = no_proxy q s t u none e f (λ x. cc)
    with_plugin-Ends t (some false, u) e f = no_proxy q s t u (some false) e f (λ x. cc)
    with_plugin-Ends t (some true, u) e f =
        if_cases (Ends q s) (contains visited current.system) (λ again. tt)
          (λ first. answered-Ends t u _ e f refl)

    after_load-Ends :
        (loaded : Bool × S)
        → host.load_plugin s current.system ≡ loaded
        → Ends q s (after_load host next visited current loaded)
    unfolding after_load
    after_load-Ends (false, t) e = not_loaded q s t e
    after_load-Ends (true, t) e = with_plugin-Ends t _ e refl

  is_empty→eq : (t : Text) → is_empty t ≡ true → t ≡ []
  is_empty→eq [] h = refl
  is_empty→eq (c ∷ t) h = cc

  recursive-Ends :
      (left : ℕ) (visited : List Text) (q : Request) (s : S)
      → Ends q s (resolve_request_recursive host left visited q s)
  unfolding resolve_request_recursive
  recursive-Ends zero visited q s =
      if_cases (Ends q s) (is_empty (named host q s).system) (λ e. nowhere q s (is_empty→eq _ e))
        (λ e. tt)
  recursive-Ends (suc left) visited q s =
      if_cases (Ends q s) (is_empty (named host q s).system) (λ e. nowhere q s (is_empty→eq _ e))
        (λ e.
          after_load-Ends (resolve_request_recursive host left) (recursive-Ends left) visited q s _
            refl)

  -- With a registry, proxy expansion enabled and a system that is not empty, a request that is
  -- resolved keeps its action, its output format, its output and payload paths and its package
  -- metadata, and there is a trail to it: from one system to the next, in the states in which they
  -- are asked, each plugin loads, resolves proxies and names the next, up to a system whose name is
  -- resolved to nothing, whose plugin does not load, or that has no plugin that resolves proxies.
  pub resolve_request-Trail :
      (q r : Request) (s t : S)
      → host.has_registry ≡ true
      → host.enable_proxy_expansion ≡ true
      → q.system ≢ []
      → resolve_request host q s ≡ (resolved r, t)
      → IsCarried q r × Trail q s r t
  unfolding resolve_request resolve_request_recursive
  resolve_request-Trail q r s t registry enabled system e =
      let trail : Trail q s r t =
        subst (Ends q s) (rw (registry, enabled, is_empty_of_ne q.system system) at e)
          (recursive-Ends max_proxy_resolution_depth [] q s) in
      (Trail-IsCarried q r s t trail, trail)

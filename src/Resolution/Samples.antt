-- ===== src/Resolution/Samples.antt =====
-- A ring of two proxies, and a proxy that leads to a plugin.
use req_pack_core.Prelude.{
  ℕ, ◌+◌, ◌≤◌, true, ◌==◌, if◌then◌else◌, Text, text_eq, text_beq, codes, [], ◌∷◌, none, some, ◌≡◌,
  refl, to_lower_copy, contains,
}
use req_pack_core.Types.{Request, ProxyResolution}
use req_pack_core.Planner.Engine.Samples.{install_request}
use req_pack_core.Resolution.{
  ProxyHost, resolved, refused, cycle, resolve_request, resolve_request_recursive,
}
use req_pack_core.Resolution.Redirected.{IsCarried}
use req_pack_core.Resolution.Outcomes.{Trail, resolve_request-Trail}
use req_pack_core.Resolution.Calls.{Counts, resolve_request-calls}

answer : Text → ProxyResolution
answer system = record {
  target_system =
      if system == codes "java"
      then codes "Maven"
      else if system == codes "a"
      then codes "b"
      else codes "a";
  packages = none;
  local_path = none;
  flags = none;
}

-- `java` leads to `maven`, and `a` and `b` lead to each other. The state counts the calls.
abbrev ring : ProxyHost ℕ
ring = record {
  resolve_plugin_name = λ s name. to_lower_copy name;
  load_plugin = λ s name. (true, s);
  get_plugin = λ s name. (some (contains (codes "java" ∷ codes "a" ∷ codes "b" ∷ []) name), s);
  resolve_proxy_request = λ s request. (some (answer request.system), s + 1);
  proxy_targets = λ name. [];
  has_registry = true;
  enable_proxy_expansion = true;
}

program : Unit {0}
unfolding answer resolve_request resolve_request_recursive to_lower_copy contains text_beq
program = tt

abbrev java_request : Request
java_request = record install_request { system = codes "Java" }

abbrev maven_request : Request
maven_request = record install_request { system = codes "maven" }

java_resolved : resolve_request ring java_request 0 ≡ (resolved maven_request, 1)
unfolding program
java_resolved = refl

ring_refused :
    resolve_request ring (record install_request { system = codes "a" }) 0 ≡ (refused cycle, 2)
unfolding program
ring_refused = refl

resolve_request-Trail_example :
    IsCarried java_request maven_request × Trail ring java_request 0 maven_request 1
resolve_request-Trail_example =
    resolve_request-Trail ring java_request maven_request 0 1 refl refl (λ e. cc) java_resolved

ring-Counts : Counts ring (λ s. s)
ring-Counts = record { load = λ s n. refl; get = λ s n. refl; ask = λ s q. refl }

resolve_request-calls_example : (resolve_request ring java_request 0).1 ≤ 0 + 4
resolve_request-calls_example = resolve_request-calls ring (λ s. s) ring-Counts java_request 0

-- ===== src/Proxy/Allowed.antt =====
-- src/proxy/mod.rs, src/config.rs: what the test of a backend against a route means.
use fairlead.Base.{
  ℕ, true, false, String, some, List, ◌≡◌, ap, ◌∙◌, not, nat_eq, string_eq, string_beq_iff,
  contains, get_elem?, Bool-cases, inl, inr, arith,
}
use fairlead.Config.InPools.{InPools, allows-InPools}
use fairlead.Config.{WorkloadPoolPolicy}
use fairlead.Config.Workloads.{
  BackendPoolPolicy, any_pool, named, WorkloadRoute, pool_policy_allows, workload_eq, workload_str,
}
use fairlead.Proxy.Selection.{route_allows_backend, route_ineligible_backends}
use fairlead.Router.Exhausted.{indexes-contains}
use fairlead.Router.Fallback.{BackendState}

-- The backend may serve the route, in terms of the configuration.
pub record MayServeRoute (backend : BackendState) (route : WorkloadRoute)
    (policy : WorkloadPoolPolicy) : Type 0 where
  pub on_route : (name : String) → route.backend_pool ≡ named name → backend.pool ≡ name
  pub in_pools : InPools policy (workload_str route.kind) backend.pool
  pub serves : contains backend.workloads route.kind ≡ true

pool_policy_allows-named :
    (policy : BackendPoolPolicy) (pool name : String)
    → pool_policy_allows policy pool ≡ true
    → policy ≡ named name
    → pool ≡ name
unfolding pool_policy_allows
pool_policy_allows-named any_pool pool name h e = absurd (cc e)
pool_policy_allows-named (named expected) pool name h e =
    let same : expected ≡ name = cc e in (string_beq_iff pool expected).0 h ∙ same

pub route_allows_backend-MayServeRoute :
    (backend : BackendState) (route : WorkloadRoute) (policy : WorkloadPoolPolicy)
    → route_allows_backend backend route policy ≡ true
    → MayServeRoute backend route policy
unfolding route_allows_backend
route_allows_backend-MayServeRoute backend route policy h = record {
  on_route =
      λ name e. pool_policy_allows-named route.backend_pool backend.pool name (ground arith) e;
  in_pools = allows-InPools policy (workload_str route.kind) backend.pool (ground arith);
  serves = ground arith;
}

-- A backend that a route does not rule out may serve it.
pub route_eligible-MayServeRoute :
    (backends : List BackendState) (route : WorkloadRoute) (policy : WorkloadPoolPolicy) (i : ℕ)
    (b : BackendState)
    → contains (route_ineligible_backends backends route policy) i ≡ false
    → get_elem? backends i ≡ some b
    → MayServeRoute b route policy
unfolding route_ineligible_backends
route_eligible-MayServeRoute backends route policy i b free_ at =
    elim (Bool-cases (route_allows_backend b route policy)) [
      | inl fine ↦ route_allows_backend-MayServeRoute b route policy fine
      | inr barred ↦ absurd (
          cc (
            free_,
            indexes-contains 0 backends (λ j x. not (route_allows_backend x route policy)) backends
                0 i i b (omega arith) at (ap not barred),
          ))
    ]

-- ===== src/Proxy/Exhausted.antt =====
-- src/proxy/mod.rs: no backend is found for a route only if none can serve it.
use fairlead.Base.{
  ℕ, true, false, String, Option, none, some, List, [], ◌∷◌, ◌==◌, ◌≡◌, refl, sym, ap, ◌∙◌, subst,
  not, nat_eq, string_eq, string_beq_iff, any, contains, get_elem?, Bool-cases, Option-cases, inl,
  inr, arith,
}
use fairlead.Config.{Priority, WorkloadPoolPolicy, allows}
use fairlead.Config.Workloads.{WorkloadRoute, pools_for, workload_str}
use fairlead.Proxy.Chosen.{kept_after}
use fairlead.Proxy.Moved.{stands_back, contains-push_new}
use fairlead.Proxy.Counts.{indexes-at}
use fairlead.Proxy.Selection.{
  route_ineligible_backends, decided, pool_candidate_counts, pool_ineligible_backends, push_new,
  route_allows_backend, select_backend_for_route, select_in_pools, selection_ineligible,
  selection_ineligible_with_pool,
}
use fairlead.Proxy.Types.{Outside, ProxyState, ResourceSelectionState}
use fairlead.Router.Choice.{Same, ask_again, lets_through}
use fairlead.Router.Exhausted.{select_backend-exhausted}
use fairlead.Router.Fallback.{BackendState, is_allowed, select_backend_excluding_resource}
use fairlead.Router.Kept.{select-keeps}

some-none : (j : ℕ) → some j ≡ none → ⊥
some-none j h = absurd (cc h)

rest_named :
    (pool : String) (pools : List String) (name : String)
    → (pool == name) ≡ false
    → any (λ x. x == name) (pool ∷ pools) ≡ true
    → any (λ x. x == name) pools ≡ true
rest_named pool pools name other named = ground arith

-- A backend of a pool is not on the list of those that the pool rules out.
listed :
    (pool : String) (bs : List BackendState) (i : ℕ) (b : BackendState)
    → get_elem? bs i ≡ some b
    → (pool == b.pool) ≡ true
    → contains (pool_ineligible_backends bs pool) i ≡ false
unfolding pool_ineligible_backends
listed pool bs i b at here =
    let there = indexes-at (λ j x. not (x.pool == pool)) bs 0 i i b (omega arith) at in
    let same : (b.pool == pool) ≡ true =
      (string_beq_iff b.pool pool).1 (sym ((string_beq_iff pool b.pool).0 here)) in
    there ∙ ap not same

allowed_any :
    (pools : List String) (pool : String) (policy : WorkloadPoolPolicy) (workload : String)
    → pools_for policy workload ≡ some pools
    → allows policy workload pool ≡ true
    → any (λ allowed. allowed == pool) pools ≡ true
unfolding pools_for allows
allowed_any pools pool policy workload e fine = ground arith

module _ {V L : Type 0} (outside : Outside V L) (now : ℕ) (route : WorkloadRoute)
    (priority : Priority) (preferred : Option ℕ) (origin_node : Option String)
    (attempted route_ineligible : List ℕ) (resource_state : ResourceSelectionState L) (i : ℕ)
    (untried : contains attempted i ≡ false) (routed : contains route_ineligible i ≡ false)
    (resourced : contains resource_state.ineligible i ≡ false) where
  allowed_in :
      (outside_pool : List ℕ)
      → contains outside_pool i ≡ false
      → is_allowed attempted
          (selection_ineligible_with_pool route_ineligible resource_state.ineligible outside_pool)
          i
        ≡ true
  unfolding selection_ineligible_with_pool selection_ineligible
  allowed_in outside_pool free =
      let all =
        contains-push_new (push_new route_ineligible resource_state.ineligible) outside_pool i in
      let first = contains-push_new route_ineligible resource_state.ineligible i in
      ground (arith, all, first, untried, routed, resourced, free)

  answers_after :
      (bs : List BackendState) (ineligible : List ℕ)
      → Same now bs
          (select_backend_excluding_resource outside.load_cmp now bs preferred origin_node attempted
            ineligible resource_state.ranks).0
  answers_after bs ineligible =
      select-keeps (Same now bs) now (λ j xs same k. ask_again now j k xs ∙ same k) outside.load_cmp
        attempted ineligible resource_state.ranks bs preferred origin_node (λ k. refl)

  in_pools-exhausted :
      (pools : List String) (state : ProxyState V L) (b : BackendState)
      → get_elem? state.backends i ≡ some b
      → any (λ pool. pool == b.pool) pools ≡ true
      → (select_in_pools outside now route priority preferred origin_node attempted route_ineligible
          resource_state pools state).1
        ≡ none
      → lets_through now state.backends i ≡ false
  unfolding select_in_pools
  in_pools-exhausted [] state b at named h = absurd (cc named)
  in_pools-exhausted (pool ∷ pools) state b at named h =
      let counts =
        pool_candidate_counts state.backends pool attempted route_ineligible
          resource_state.ineligible in
      let outside_pool = pool_ineligible_backends state.backends pool in
      let ineligible =
        selection_ineligible_with_pool route_ineligible resource_state.ineligible outside_pool in
      let sel =
        select_backend_excluding_resource outside.load_cmp now state.backends preferred origin_node
          attempted ineligible resource_state.ranks in
      let run = λ (ps : List String) (s : ProxyState V L).
        select_in_pools outside now route priority preferred origin_node attempted route_ineligible
          resource_state ps s in
      let next = λ (found : Option ℕ).
        decided outside now route priority preferred origin_node attempted route_ineligible
          resource_state state sel.0 pool found counts in
      let follow = λ (found : Option ℕ). elim found as (λ x. ProxyState V L × Option ℕ) [
        | some j ↦ (next found, some j)
        | none ↦ run pools (next found)
      ] in
      elim (Option-cases sel.1) [
        | inr (j, e) ↦
            let out : (run (pool ∷ pools) state).1 ≡ some j = ap (λ x. (follow x).1) e in
            absurd (some-none j (sym out ∙ h))
        | inl e ↦
            let out : (run (pool ∷ pools) state).1 ≡ (run pools (next none)).1 =
              ap (λ x. (follow x).1) e in
            elim (Bool-cases (pool == b.pool)) [
              | inl here ↦
                  select_backend-exhausted now state.backends attempted ineligible outside.load_cmp
                    resource_state.ranks preferred origin_node i e
                    (allowed_in outside_pool (listed pool state.backends i b at here))
              | inr other ↦
                  let (b', at', same) =
                    stands_back state.backends sel.0 i b
                      (kept_after outside now route priority preferred origin_node attempted
                        route_ineligible resource_state state.backends ineligible)
                      at in
                  sym (answers_after state.backends ineligible i)
                  ∙ in_pools-exhausted pools (next none) b' at'
                      (subst (λ p. any (λ x. x == p) pools ≡ true) (sym (ap (λ f. f.pool) same))
                        (rest_named pool pools b.pool other named))
                      (sym out ∙ h)
            ]
      ]

  exhausted :
      (state : ProxyState V L) (b : BackendState)
      → get_elem? state.backends i ≡ some b
      → allows state.workload_pools (workload_str route.kind) b.pool ≡ true
      → (select_backend_for_route outside now route priority preferred origin_node attempted
          route_ineligible resource_state state).1
        ≡ none
      → lets_through now state.backends i ≡ false
  unfolding select_backend_for_route selection_ineligible pools_for allows
  exhausted state b at fine h =
      let run = λ (s : ProxyState V L).
        select_backend_for_route outside now route priority preferred origin_node attempted
          route_ineligible resource_state s in
      let ineligible = selection_ineligible route_ineligible resource_state.ineligible in
      let sel =
        select_backend_excluding_resource outside.load_cmp now state.backends preferred origin_node
          attempted ineligible resource_state.ranks in
      let pools_of = pools_for state.workload_pools (workload_str route.kind) in
      elim (Option-cases pools_of) [
        | inr (pools, e) ↦
            let out : (run state).1
                ≡ (select_in_pools outside now route priority preferred origin_node attempted
                    route_ineligible resource_state pools state).1 =
              rw (e, select_backend_for_route) refl in
            in_pools-exhausted pools state b at
              (allowed_any pools b.pool state.workload_pools (workload_str route.kind) e fine)
              (sym out ∙ h)
        | inl e ↦
            let out : (run state).1 ≡ sel.1 = rw (e, select_backend_for_route) refl in
            let both = contains-push_new route_ineligible resource_state.ineligible i in
            select_backend-exhausted now state.backends attempted ineligible outside.load_cmp
              resource_state.ranks preferred origin_node i (sym out ∙ h)
              (ground (arith, both, untried, routed, resourced))
      ]

-- If no backend is selected for a route, then every backend of the configuration that was not tried,
-- that the route and the pools of its workload allow, and that the resource policy does not rule out, has
-- a circuit breaker that lets nothing through now.
pub select_backend_for_route-exhausted :
    {V L : Type 0} (outside : Outside V L) (now : ℕ) (route : WorkloadRoute) (priority : Priority)
    (preferred : Option ℕ) (origin_node : Option String) (attempted : List ℕ)
    (resource_state : ResourceSelectionState L) (state : ProxyState V L) (i : ℕ) (b : BackendState)
    → get_elem? state.backends i ≡ some b
    → route_allows_backend b route state.workload_pools ≡ true
    → contains attempted i ≡ false
    → contains resource_state.ineligible i ≡ false
    → (select_backend_for_route outside now route priority preferred origin_node attempted
        (route_ineligible_backends state.backends route state.workload_pools)
        resource_state
        state).1
      ≡ none
    → lets_through now state.backends i ≡ false
unfolding route_allows_backend route_ineligible_backends
select_backend_for_route-exhausted outside now route priority preferred origin_node attempted
      resource_state state i b at fine untried resourced h =
    let barred =
      λ (j : ℕ) (x : BackendState). not (route_allows_backend x route state.workload_pools) in
    let routed : contains (route_ineligible_backends state.backends route state.workload_pools) i
        ≡ false =
      indexes-at barred state.backends 0 i i b (omega arith) at ∙ ap not fine in
    exhausted outside now route priority preferred origin_node attempted
      (route_ineligible_backends state.backends route state.workload_pools) resource_state i untried
      routed resourced state b at (ground arith) h

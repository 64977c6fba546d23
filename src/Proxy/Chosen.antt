-- ===== src/Proxy/Chosen.antt =====
-- src/proxy/mod.rs: what holds of the backend that is selected for a route.
use fairlead.Base.{
  ℕ, true, false, String, Option, none, some, List, [], ◌∷◌, ◌≡◌, refl, sym, ap, ◌∙◌, subst, nat_eq,
  string_eq, string_beq_iff, contains, get_elem?, Option-cases, inl, inr, arith,
}
use fairlead.Config.{Priority}
use fairlead.Config.Workloads.{WorkloadRoute, pools_for, workload_str}
use fairlead.Proxy.Moved.{
  contains-push_new, there_if_through, pool_kept, Moved, Moved-trans, Chosen, some_inj, stays,
  stands_too,
}
use fairlead.Proxy.Selection.{
  push_new, selection_ineligible, selection_ineligible_with_pool, pool_ineligible_backends,
  select_in_pools, select_backend_for_route, decided, pool_candidate_counts,
  any_pool_candidate_counts,
}
use fairlead.Proxy.Labels.{record_pool_decision}
use fairlead.Metrics
use fairlead.Proxy.Types.{Outside, ProxyState, ResourceSelectionState}
use fairlead.Router.Choice.{select_backend-MayServe}
use fairlead.Router.Fallback.{BackendState, select_backend_excluding_resource}
use fairlead.Router.Kept.{Alike, ask-keeps, select-keeps, set_circuit-Alike}

module _ {V L : Type 0} (outside : Outside V L) (now : ℕ) (route : WorkloadRoute)
    (priority : Priority) (preferred : Option ℕ) (origin_node : Option String)
    (attempted route_ineligible : List ℕ) (resource_state : ResourceSelectionState L) where
  abbrev Fits : List BackendState → ℕ → Type 0
  Fits bs i = Chosen attempted route_ineligible resource_state.ineligible bs i

  choose :
      (bs : List BackendState) (ineligible : List ℕ) (i : ℕ)
      → (select_backend_excluding_resource outside.load_cmp now bs preferred origin_node attempted
          ineligible resource_state.ranks).1
        ≡ some i
      → (contains attempted i ≡ false)
        × (contains ineligible i ≡ false)
        × ((b : BackendState) × (get_elem? bs i ≡ some b))
  choose bs ineligible i h =
      let serves =
        select_backend-MayServe now bs attempted ineligible outside.load_cmp resource_state.ranks
          preferred origin_node i h in
      (
        ground (arith, serves.allowed),
        ground (arith, serves.allowed),
        there_if_through now i bs serves.through,
      )

  pub kept_after :
      (bs : List BackendState) (ineligible : List ℕ)
      → Alike bs
          (select_backend_excluding_resource outside.load_cmp now bs preferred origin_node attempted
            ineligible resource_state.ranks).0
  kept_after bs ineligible =
      select-keeps (Alike bs) now (ask-keeps (Alike bs) (set_circuit-Alike bs) now) outside.load_cmp
        attempted ineligible resource_state.ranks bs preferred origin_node
        (record { as_long = refl; same_at = λ j. refl })

  -- The backend stands in one of the pools.
  abbrev InPools : List String → List BackendState → ℕ → Type 0
  InPools pools bs i = (b : BackendState) → get_elem? bs i ≡ some b → contains pools b.pool ≡ true

  split_ineligible :
      (outside_pool : List ℕ) (i : ℕ)
      → contains attempted i ≡ false
      → contains
          (selection_ineligible_with_pool route_ineligible resource_state.ineligible outside_pool)
          i
        ≡ false
      → (b : BackendState)
      → ((bs : List BackendState)
          → get_elem? bs i ≡ some b
          → Fits bs i × (contains outside_pool i ≡ false))
  unfolding selection_ineligible_with_pool selection_ineligible
  split_ineligible outside_pool i untried free b bs there =
      let both =
        contains-push_new (push_new route_ineligible resource_state.ineligible) outside_pool i in
      let first = contains-push_new route_ineligible resource_state.ineligible i in
      (
        record {
          untried = untried;
          routed = ground arith;
          resourced = ground arith;
          backend = b;
          there = there;
        },
        ground arith,
      )

  decided-Moved :
      (state : ProxyState V L) (bs : List BackendState) (pool : String) (selected : Option ℕ)
      (counts : ℕ × ℕ)
      → Alike state.backends bs
      → Moved state (
          decided outside now route priority preferred origin_node attempted route_ineligible
            resource_state state bs pool selected counts)
  unfolding record_pool_decision Metrics.record_pool_decision
  decided-Moved state bs pool selected counts alike = record {
    alike = alike;
    pools = refl;
    affinity = refl;
    limiter = refl;
    sent = refl;
    requests = refl;
  }

  in_pools :
      (pools : List String) (state : ProxyState V L)
      → Moved state
          (select_in_pools outside now route priority preferred origin_node attempted
            route_ineligible resource_state pools state).0
        × ((i : ℕ)
            → (select_in_pools outside now route priority preferred origin_node attempted
                route_ineligible resource_state pools state).1
              ≡ some i
            → Fits state.backends i × InPools pools state.backends i)
  unfolding select_in_pools
  in_pools [] state = (stays state, λ i h. absurd (cc h))
  in_pools (pool ∷ pools) state =
      let counts =
        pool_candidate_counts state.backends pool attempted route_ineligible
          resource_state.ineligible in
      let ineligible =
        selection_ineligible_with_pool route_ineligible resource_state.ineligible
          (pool_ineligible_backends state.backends pool) in
      let sel =
        select_backend_excluding_resource outside.load_cmp now state.backends preferred origin_node
          attempted ineligible resource_state.ranks in
      let run = λ (ps : List String) (s : ProxyState V L).
        select_in_pools outside now route priority preferred origin_node attempted route_ineligible
          resource_state ps s in
      let next = λ (found : Option ℕ).
        decided outside now route priority preferred origin_node attempted route_ineligible
          resource_state state sel.0 pool found counts in
      let step = λ (found : Option ℕ).
        decided-Moved state sel.0 pool found counts (kept_after state.backends ineligible) in
      let follow = λ (found : Option ℕ). elim found as (λ x. ProxyState V L × Option ℕ) [
        | some i ↦ (next found, some i)
        | none ↦ run pools (next found)
      ] in
      elim (Option-cases sel.1) [
        | inr (j, e) ↦
            let out : run (pool ∷ pools) state ≡ (next (some j), some j) = ap follow e in
            (
              subst (λ x. Moved state x.0) (sym out) (step (some j)),
              λ i h.
                  let same = some_inj j i (ap (λ x. x.1) (sym out) ∙ h) in
                  let (untried, free, (b, there)) =
                    choose state.backends ineligible i (e ∙ ap some same) in
                  let (fits, outside_pool) =
                    split_ineligible (pool_ineligible_backends state.backends pool) i untried free b
                      state.backends there in
                  (
                    fits,
                    λ x at.
                        let named = pool_kept state.backends pool i x outside_pool at in
                        ground (arith, named, string_beq_iff pool x.pool),
                  ),
            )
        | inl e ↦
            let out : run (pool ∷ pools) state ≡ run pools (next none) = ap follow e in
            let (moved, chosen) = in_pools pools (next none) in
            (
              subst (λ x. Moved state x.0) (sym out)
                  (Moved-trans state (next none) (run pools (next none)).0 (step none) moved),
              λ i h.
                  let (fits, named) = chosen i (ap (λ x. x.1) (sym out) ∙ h) in
                  let (b, there, same) =
                    stands_too state.backends sel.0 i fits.backend (step none).alike fits.there in
                  (
                    record {
                      untried = fits.untried;
                      routed = fits.routed;
                      resourced = fits.resourced;
                      backend = b;
                      there = there;
                    },
                    λ x at.
                        let found = named fits.backend fits.there in
                        let pools_same : x.pool ≡ fits.backend.pool =
                          cc (ap (λ f. f.pool) same, there, at) in
                        ground (arith, found, pools_same),
                  ),
            )
      ]

  -- A selection for the route writes breakers and the counts of pool decisions. A backend that it finds
  -- was not tried before, and no policy rules it out.
  pub chosen_for_route :
      (state : ProxyState V L)
      → Moved state
          (select_backend_for_route outside now route priority preferred origin_node attempted
            route_ineligible resource_state state).0
        × ((i : ℕ)
            → (select_backend_for_route outside now route priority preferred origin_node attempted
                route_ineligible resource_state state).1
              ≡ some i
            → Fits state.backends i)
  unfolding select_backend_for_route selection_ineligible
  chosen_for_route state =
      let run = λ (s : ProxyState V L).
        select_backend_for_route outside now route priority preferred origin_node attempted
          route_ineligible resource_state s in
      let ineligible = selection_ineligible route_ineligible resource_state.ineligible in
      let counts =
        any_pool_candidate_counts state.backends attempted route_ineligible
          resource_state.ineligible in
      let sel =
        select_backend_excluding_resource outside.load_cmp now state.backends preferred origin_node
          attempted ineligible resource_state.ranks in
      let anywhere : ProxyState V L × Option ℕ = (
        decided outside now route priority preferred origin_node attempted route_ineligible
            resource_state state sel.0 "" sel.1 counts,
        sel.1,
      ) in
      let follow = λ (found : Option (List String)).
        elim found as (λ x. ProxyState V L × Option ℕ) [
          | some pools ↦
              select_in_pools outside now route priority preferred origin_node attempted
                route_ineligible resource_state pools state
          | none ↦ anywhere
        ] in
      elim (Option-cases (pools_for state.workload_pools (workload_str route.kind))) [
        | inr (pools, e) ↦
            let out : run state
                ≡ select_in_pools outside now route priority preferred origin_node attempted
                    route_ineligible resource_state pools state =
              ap follow e in
            let (moved, chosen) = in_pools pools state in
            (
              subst (λ x. Moved state x.0) (sym out) moved,
              λ i h. (chosen i (ap (λ x. x.1) (sym out) ∙ h)).0,
            )
        | inl e ↦
            let out : run state ≡ anywhere = ap follow e in
            (
              subst (λ x. Moved state x.0) (sym out)
                  (decided-Moved state sel.0 "" sel.1 counts
                    (kept_after state.backends ineligible)),
              λ i h.
                  let (untried, free, (b, there)) =
                    choose state.backends ineligible i (ap (λ x. x.1) (sym out) ∙ h) in
                  let both = contains-push_new route_ineligible resource_state.ineligible i in
                  record {
                    untried = untried;
                    routed = ground arith;
                    resourced = ground arith;
                    backend = b;
                    there = there;
                  },
            )
      ]

-- ===== src/Proxy/Selection.antt =====
-- src/proxy/mod.rs: which backends may serve a request, in which order the pools are tried, and why a
-- request went to another backend than the first choice.
use fairlead.Base.{
  ℕ, ◌+◌, Bool, true, String, Option, none, some, List, [], ◌∷◌, ◌++◌, ◌==◌, ◌&&◌, ◌||◌, not,
  nat_eq, string_eq, option_eq, any, contains, get_elem?, is_empty, length, ltb, and_then, map,
  if◌then◌else◌,
}
use fairlead.Base.Maps.{is_some}
use fairlead.Config.{Priority, WorkloadPoolPolicy, allows}
use fairlead.Config.Workloads.{
  WorkloadKind, WorkloadRoute, workload_str, workload_eq, pool_policy_allows, pools_for,
}
use fairlead.Proxy.Labels.{record_pool_decision}
use fairlead.Proxy.Types.{Outside, ProxyState, ResourceSelectionState}
use fairlead.Resources.{
  ResourceRegistry, ResourceRoutingPolicy, fresh_backend_report, required_vram_mb,
}
use fairlead.Router.Fallback.{
  BackendState, ResourceRank, indexes, select_backend_excluding_resource,
}

unfoldable pub route_allows_backend : BackendState → WorkloadRoute → WorkloadPoolPolicy → Bool
unfolding pool_policy_allows allows workload_str
route_allows_backend backend route workload_pools =
    pool_policy_allows route.backend_pool backend.pool
    && allows workload_pools (workload_str route.kind) backend.pool
    && contains backend.workloads route.kind

unfoldable pub route_ineligible_backends :
    List BackendState → WorkloadRoute → WorkloadPoolPolicy → List ℕ
unfolding indexes route_allows_backend
route_ineligible_backends backends route workload_pools =
    indexes (λ i b. not (route_allows_backend b route workload_pools)) 0 backends

unfoldable pub pool_ineligible_backends : List BackendState → String → List ℕ
unfolding indexes
pool_ineligible_backends backends pool = indexes (λ i b. not (b.pool == pool)) 0 backends

-- `for idx in more { if !ineligible.contains(idx) { ineligible.push(*idx) } }`
unfoldable pub push_new : List ℕ → List ℕ → List ℕ
push_new ineligible [] = ineligible
push_new ineligible (i ∷ more) =
    push_new (if contains ineligible i then ineligible else ineligible ++ i ∷ []) more

unfoldable pub selection_ineligible : List ℕ → List ℕ → List ℕ
unfolding push_new
selection_ineligible route_ineligible resource_ineligible =
    push_new route_ineligible resource_ineligible

unfoldable pub selection_ineligible_with_pool : List ℕ → List ℕ → List ℕ → List ℕ
unfolding selection_ineligible push_new
selection_ineligible_with_pool route_ineligible resource_ineligible pool_ineligible =
    push_new (selection_ineligible route_ineligible resource_ineligible) pool_ineligible

module _ (attempted route_ineligible resource_ineligible : List ℕ)
    (pool_matches : BackendState → Bool) where
  unfoldable pub count_candidates : ℕ → List BackendState → ℕ × ℕ
  count_candidates i [] = (0, 0)
  count_candidates i (b ∷ bs) =
      let (candidates, blocked) = count_candidates (i + 1) bs in
      if contains attempted i || contains route_ineligible i || not (pool_matches b)
      then (candidates, blocked)
      else if contains resource_ineligible i
      then (candidates, blocked + 1)
      else (candidates + 1, blocked)

  -- The backends that could be chosen, and those that only lack resources.
  unfoldable pub candidate_counts : List BackendState → ℕ × ℕ
  unfolding count_candidates
  candidate_counts backends = count_candidates 0 backends

unfoldable pub pool_candidate_counts : List BackendState → String → List ℕ → List ℕ → List ℕ → ℕ × ℕ
unfolding candidate_counts
pool_candidate_counts backends pool attempted route_ineligible resource_ineligible =
    candidate_counts attempted route_ineligible resource_ineligible (λ b. b.pool == pool) backends

unfoldable pub any_pool_candidate_counts : List BackendState → List ℕ → List ℕ → List ℕ → ℕ × ℕ
unfolding candidate_counts
any_pool_candidate_counts backends attempted route_ineligible resource_ineligible =
    candidate_counts attempted route_ineligible resource_ineligible (λ b. true) backends

-- A backend before the selected one is ruled out.
abbrev skips_earlier : List BackendState → ℕ → List ℕ → Bool
skips_earlier backends selected ruled_out =
    any (λ i. ltb i selected && is_some (get_elem? backends i)) ruled_out

-- The reason on the way of affinity, if the preferred backend was not the one.
unfoldable preferred_reason : List BackendState → ℕ → Option ℕ → List ℕ → List ℕ → Option String
preferred_reason backends selected none route_ineligible resource_ineligible = none
preferred_reason backends selected (some p) route_ineligible resource_ineligible =
    if not (p == selected) && is_some (get_elem? backends p)
    then some (
        if contains route_ineligible p
        then "workload_unavailable"
        else if contains resource_ineligible p
        then "resource_unavailable"
        else "affinity_unavailable")
    else none

-- The reason on the way of locality, if a backend on the caller's node exists and was not the one.
unfoldable origin_reason :
    List BackendState → BackendState → Option String → List ℕ → List ℕ → Option String
unfolding indexes
origin_reason backends selected none route_ineligible resource_ineligible = none
origin_reason backends selected (some origin) route_ineligible resource_ineligible =
    let origin_indexes = indexes (λ i b. b.node_id == some origin) 0 backends in
    if not (is_empty origin_indexes) && not (selected.node_id == some origin)
    then some (
        if any (λ i. contains route_ineligible i) origin_indexes
        then "workload_unavailable"
        else if any (λ i. contains resource_ineligible i) origin_indexes
        then "resource_unavailable"
        else "origin_unavailable")
    else none

unfoldable pub fallback_reason :
    List BackendState → ℕ → Option ℕ → Option String → List ℕ → List ℕ → Option String
unfolding preferred_reason origin_reason
fallback_reason backends selected_idx preferred origin_node route_ineligible resource_ineligible =
    elim (get_elem? backends selected_idx) [
      | none ↦ none
      | some selected ↦
          elim (origin_reason backends selected origin_node route_ineligible resource_ineligible) [
            | some reason ↦ some reason
            | none ↦
                elim (preferred_reason backends selected_idx preferred route_ineligible
                  resource_ineligible) [
                    | some reason ↦ some reason
                    | none ↦
                        if skips_earlier backends selected_idx route_ineligible
                        then some "workload_unavailable"
                        else if skips_earlier backends selected_idx resource_ineligible
                        then some "resource_unavailable"
                        else none
                  ]
          ]
    ]

abbrev no_route : List ℕ → ℕ → Bool
no_route route_ineligible backend_count =
    ltb 0 backend_count && (length route_ineligible == backend_count)

unfoldable pub unavailable_outcome : List ℕ → List ℕ → ℕ → String
unavailable_outcome route_ineligible resource_ineligible backend_count =
    if no_route route_ineligible backend_count
    then "unsupported_workload"
    else if not (is_empty resource_ineligible)
    then "resource_unavailable"
    else "unavailable"

unfoldable pub unavailable_message : List ℕ → List ℕ → ℕ → String
unavailable_message route_ineligible resource_ineligible backend_count =
    if no_route route_ineligible backend_count
    then "no backends configured for workload"
    else if not (is_empty resource_ineligible)
    then "all backends unavailable (circuits open or insufficient resources)"
    else "all backends unavailable (circuits open)"

module _ {L : Type 0} where
  -- The rank of a backend with enough memory, by the report that counts for it.
  unfoldable pub rank_of : ℕ → ResourceRegistry L → ℕ → BackendState → Option (ResourceRank L)
  unfolding fresh_backend_report
  rank_of now resources required backend = and_then backend.node_id (λ node_id.
      and_then (fresh_backend_report now node_id backend.id resources) (λ report.
        if ltb report.available_vram_mb required
        then none
        else some (record {
          current_load = report.current_load;
          available_vram_mb = report.available_vram_mb;
        })))

  unfoldable pub scan_resources :
      (BackendState → Option (ResourceRank L)) → ℕ → List BackendState → ResourceSelectionState L
  scan_resources rank i [] = record { ineligible = []; ranks = [] }
  scan_resources rank i (b ∷ bs) =
      let rest = scan_resources rank (i + 1) bs in
      elim (rank b) [
        | none ↦ record { ineligible = i ∷ rest.ineligible; ranks = none ∷ rest.ranks }
        | some r ↦ record { ineligible = rest.ineligible; ranks = some r ∷ rest.ranks }
      ]

  unfoldable pub resource_selection_state :
      ℕ
      → List BackendState
      → ResourceRegistry L
      → ResourceRoutingPolicy
      → WorkloadKind
      → ResourceSelectionState L
  unfolding scan_resources rank_of required_vram_mb
  resource_selection_state now backends resources policy workload =
      if not policy.enabled
      then record { ineligible = []; ranks = map (λ b. none) backends }
      else scan_resources (rank_of now resources (required_vram_mb policy workload)) 0 backends

module _ {V L : Type 0} (outside : Outside V L) (now : ℕ) (route : WorkloadRoute)
    (priority : Priority) (preferred : Option ℕ) (origin_node : Option String)
    (attempted route_ineligible : List ℕ) (resource_state : ResourceSelectionState L) where
  -- The state after the choice was counted.
  abbrev pub decided :
      ProxyState V L → List BackendState → String → Option ℕ → ℕ × ℕ → ProxyState V L
  decided state backends pool selected counts = record state {
    backends = backends;
    metrics =
        record_pool_decision route priority pool (and_then selected (λ i. get_elem? backends i))
          origin_node (if is_some selected then "selected" else "unavailable") counts state.metrics;
  }

  -- The loop over the pools of the workload: the first pool that offers a backend.
  unfoldable pub select_in_pools : List String → ProxyState V L → ProxyState V L × Option ℕ
  unfolding select_backend_excluding_resource pool_ineligible_backends pool_candidate_counts
      selection_ineligible_with_pool record_pool_decision
  select_in_pools [] state = (state, none)
  select_in_pools (pool ∷ pools) state =
      let counts =
        pool_candidate_counts state.backends pool attempted route_ineligible
          resource_state.ineligible in
      let ineligible =
        selection_ineligible_with_pool route_ineligible resource_state.ineligible
          (pool_ineligible_backends state.backends pool) in
      let (backends, selected) =
        select_backend_excluding_resource outside.load_cmp now state.backends preferred origin_node
          attempted ineligible resource_state.ranks in
      let state' = decided state backends pool selected counts in
      elim selected [ some i ↦ (state', some i) | none ↦ select_in_pools pools state' ]

  unfoldable pub select_backend_for_route : ProxyState V L → ProxyState V L × Option ℕ
  unfolding select_in_pools pools_for workload_str any_pool_candidate_counts selection_ineligible
      select_backend_excluding_resource record_pool_decision
  select_backend_for_route state = elim (pools_for state.workload_pools (workload_str route.kind)) [
    | some pools ↦ select_in_pools pools state
    | none ↦
        let counts =
          any_pool_candidate_counts state.backends attempted route_ineligible
            resource_state.ineligible in
        let ineligible = selection_ineligible route_ineligible resource_state.ineligible in
        let (backends, selected) =
          select_backend_excluding_resource outside.load_cmp now state.backends preferred
            origin_node attempted ineligible resource_state.ranks in
        (decided state backends "" selected counts, selected)
  ]

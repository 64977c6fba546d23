-- ===== src/Proxy/Resourced.antt =====
-- src/proxy/mod.rs: which backends the resource policy rules out.
use fairlead.Base.{
  ℕ, ◌+◌, ◌<◌, ◌≤◌, zero, suc, true, false, String, Option, none, some, List, [], ◌∷◌, ◌≡◌, refl,
  sym, subst, not, nat_eq, nat_beq_iff, contains, get_elem?, Bool-cases, Option-cases, inl, inr,
  arith, ltb,
}
use fairlead.Base.Maps.{is_some}
use fairlead.Config.Workloads.{WorkloadKind}
use fairlead.Proxy.Selection.{rank_of, resource_selection_state, scan_resources}
use fairlead.Resources.{
  ResourceRegistry, ResourceReport, ResourceRoutingPolicy, fresh_backend_report, required_vram_mb,
}
use fairlead.Router.Fallback.{BackendState, ResourceRank}

module _ {L : Type 0} (rank : BackendState → Option (ResourceRank L)) where
  scan-below :
      (bs : List BackendState) (k i : ℕ)
      → i < k
      → contains (scan_resources rank k bs).ineligible i ≡ false
  unfolding scan_resources
  scan-below [] k i h = refl
  scan-below (b ∷ bs) k i h = ground (arith, scan-below bs (k + 1) i, nat_beq_iff k i)

  scan-at :
      (bs : List BackendState) (k i n : ℕ) (b : BackendState)
      → n ≡ k + i
      → get_elem? bs i ≡ some b
      → (contains (scan_resources rank k bs).ineligible n ≡ not (is_some (rank b)))
        × (get_elem? (scan_resources rank k bs).ranks i ≡ some (rank b))
  unfolding scan_resources
  scan-at [] k i n b e at = absurd (cc)
  scan-at (x ∷ bs) k zero n b e at = ground (arith, scan-below bs (k + 1) n, nat_beq_iff k n)
  scan-at (x ∷ bs) k (suc i) n b e at =
      ground (arith, scan-at bs (k + 1) i n b (omega (arith, e)) at, nat_beq_iff k n)

module _ {L : Type 0} (now required : ℕ) (resources : ResourceRegistry L) (b : BackendState) where
  -- Why a backend may or may not serve, as far as its reports say.
  pub data Standing : Option (ResourceRank L) → Type 0 where
    nameless : b.node_id ≡ none → Standing none
    unreported :
        (node_id : String)
        → b.node_id ≡ some node_id
        → fresh_backend_report now node_id b.id resources ≡ none
        → Standing none
    too_small :
        (node_id : String) (report : ResourceReport L)
        → b.node_id ≡ some node_id
        → fresh_backend_report now node_id b.id resources ≡ some report
        → report.available_vram_mb < required
        → Standing none
    enough :
        (node_id : String) (report : ResourceReport L)
        → b.node_id ≡ some node_id
        → fresh_backend_report now node_id b.id resources ≡ some report
        → required ≤ report.available_vram_mb
        → Standing (
            some (record {
              current_load = report.current_load;
              available_vram_mb = report.available_vram_mb;
            }))

  rank_of-Standing : Standing (rank_of now resources required b)
  unfolding rank_of
  rank_of-Standing = elim (Option-cases b.node_id) [
    | inl e ↦
        let out : rank_of now resources required b ≡ none = rw (e, rank_of) refl in
        subst Standing (sym out) (Standing.nameless e)
    | inr (node_id, e) ↦ elim (Option-cases (fresh_backend_report now node_id b.id resources)) [
      | inl f ↦
          let out : rank_of now resources required b ≡ none = rw (e, f, rank_of) refl in
          subst Standing (sym out) (Standing.unreported node_id e f)
      | inr (report, f) ↦ elim (Bool-cases (ltb report.available_vram_mb required)) [
        | inl small ↦
            let out : rank_of now resources required b ≡ none = rw (e, f, small, rank_of) refl in
            subst Standing (sym out) (Standing.too_small node_id report e f (ground arith))
        | inr large ↦
            let out : rank_of now resources required b
                ≡ some (record {
                  current_load = report.current_load;
                  available_vram_mb = report.available_vram_mb;
                }) =
              rw (e, f, large, rank_of) refl in
            subst Standing (sym out) (Standing.enough node_id report e f (ground arith))
      ]
    ]
  ]

-- With the policy on, a backend has a rank exactly if a report that counts for it shows enough memory,
-- and a backend without one is ruled out: it has no node, or no report that counts, or too little memory.
pub resource_state-exact :
    {L : Type 0} (now : ℕ) (backends : List BackendState) (resources : ResourceRegistry L)
    (policy : ResourceRoutingPolicy) (workload : WorkloadKind) (i : ℕ) (b : BackendState)
    → policy.enabled ≡ true
    → get_elem? backends i ≡ some b
    → (rank : Option (ResourceRank L)) × Standing now
        (required_vram_mb policy workload)
        resources
        b
        rank
      × (get_elem? (resource_selection_state now backends resources policy workload).ranks i
          ≡ some rank)
      × (contains (resource_selection_state now backends resources policy workload).ineligible i
          ≡ not (is_some rank))
unfolding resource_selection_state
resource_state-exact now backends resources policy workload i b on at =
    let required = required_vram_mb policy workload in
    let (listed, ranked) =
      scan-at (rank_of now resources required) backends 0 i i b (omega arith) at in
    (
      rank_of now resources required b,
      rank_of-Standing now required resources b,
      rw (on, resource_selection_state) ranked,
      rw (on, resource_selection_state) listed,
    )

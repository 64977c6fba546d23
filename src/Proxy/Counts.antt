-- ===== src/Proxy/Counts.antt =====
-- src/proxy/mod.rs: the counts of candidates that go with a decision.
use fairlead.Base.{
  ℕ, ◌+◌, zero, suc, Bool, false, String, some, List, [], ◌∷◌, ◌==◌, ◌≡◌, refl, sym, subst, not,
  nat_eq, nat_beq_iff, string_eq, length, contains, get_elem?, arith, ◌<◌,
}
use fairlead.Proxy.Moved.{contains-push_new}
use fairlead.Proxy.Selection.{
  candidate_counts, count_candidates, pool_candidate_counts, pool_ineligible_backends, push_new,
  selection_ineligible, selection_ineligible_with_pool,
}
use fairlead.Router.Fallback.{BackendState, indexes, is_allowed}

indexes-below :
    (test : ℕ → BackendState → Bool) (bs : List BackendState) (k i : ℕ)
    → i < k
    → contains (indexes test k bs) i ≡ false
unfolding indexes
indexes-below test [] k i h = refl
indexes-below test (b ∷ bs) k i h = ground (arith, indexes-below test bs (k + 1) i, nat_beq_iff k i)

pub indexes-at :
    (test : ℕ → BackendState → Bool) (bs : List BackendState) (k i n : ℕ) (b : BackendState)
    → n ≡ k + i
    → get_elem? bs i ≡ some b
    → contains (indexes test k bs) n ≡ test n b
unfolding indexes
indexes-at test [] k i n b e at = absurd (cc)
indexes-at test (x ∷ bs) k zero n b e at =
    let same : n ≡ k = omega (arith, e) in
    let same_b : x ≡ b = cc at in
    subst (λ m. contains (indexes test k (x ∷ bs)) m ≡ test m b) (sym same)
      (subst (λ y. contains (indexes test k (x ∷ bs)) k ≡ test k y) same_b
        (ground (arith, indexes-below test bs (k + 1) k, nat_beq_iff k k)))
indexes-at test (x ∷ bs) k (suc i) n b e at =
    ground (arith, indexes-at test bs (k + 1) i n b (omega (arith, e)) at, nat_beq_iff k n)

module _ (attempted route_ineligible resource_ineligible : List ℕ)
    (pool_matches : BackendState → Bool) (pool_ineligible : List ℕ) where
  count-allowed :
      (bs : List BackendState) (k : ℕ)
      → ((i n : ℕ) (b : BackendState)
          → n ≡ k + i
          → get_elem? bs i ≡ some b
          → contains pool_ineligible n ≡ not (pool_matches b))
      → (count_candidates attempted route_ineligible resource_ineligible pool_matches k bs).0
        ≡ length (
            indexes
              (λ i b.
                is_allowed attempted
                  (selection_ineligible_with_pool route_ineligible resource_ineligible
                    pool_ineligible)
                  i)
              k
              bs)
  unfolding count_candidates indexes selection_ineligible_with_pool selection_ineligible
  count-allowed [] k outside_pool = refl
  count-allowed (b ∷ bs) k outside_pool =
      let rest =
        count-allowed bs (k + 1) (λ i n x e at. outside_pool (suc i) n x (omega (arith, e)) at) in
      let all =
        contains-push_new (push_new route_ineligible resource_ineligible) pool_ineligible k in
      let first = contains-push_new route_ineligible resource_ineligible k in
      let here = outside_pool 0 k b (omega arith) refl in ground (arith, rest, all, first, here)

-- The candidates that are counted with a decision for a pool are as many as the indexes that the
-- selection may choose from: those that were not tried and that no policy and no pool rules out.
pub pool_candidate_counts-exact :
    (backends : List BackendState) (pool : String)
    (attempted route_ineligible resource_ineligible : List ℕ)
    → (pool_candidate_counts backends pool attempted route_ineligible resource_ineligible).0
      ≡ length (
          indexes
            (λ i b.
              is_allowed attempted
                (selection_ineligible_with_pool route_ineligible resource_ineligible
                  (pool_ineligible_backends backends pool))
                i)
            0
            backends)
unfolding pool_candidate_counts candidate_counts pool_ineligible_backends
pool_candidate_counts-exact backends pool attempted route_ineligible resource_ineligible =
    count-allowed attempted route_ineligible resource_ineligible (λ b. b.pool == pool)
      (indexes (λ i b. not (b.pool == pool)) 0 backends) backends 0
      (λ i n b e at. indexes-at (λ j x. not (x.pool == pool)) backends 0 i n b e at)

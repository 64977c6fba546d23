-- ===== src/Config/InPools.antt =====
-- src/config.rs, `WorkloadPoolPolicy::allows`: what the test of a pool means.
use fairlead.Base.{
  true, String, some, List, [], ◌∷◌, ◌==◌, ◌≡◌, refl, sym, ◌∙◌, any, contains, string_eq,
  Option-cases, inl, inr,
}
use fairlead.Base.Maps.{get}
use fairlead.Config.{WorkloadPoolPolicy, allows}

-- The pool is one of those that the policy names for the workload, if it names any.
abbrev pub InPools : WorkloadPoolPolicy → String → String → Type 0
InPools policy workload pool =
    (pools : List String)
    → get workload policy.pools_by_workload ≡ some pools
    → contains pools pool ≡ true

any-contains :
    (pool : String) (pools : List String)
    → any (λ allowed. allowed == pool) pools ≡ contains pools pool
any-contains pool [] = refl
any-contains pool (p ∷ pools) = rw (any-contains pool pools) refl

pub allows-InPools :
    (policy : WorkloadPoolPolicy) (workload pool : String)
    → allows policy workload pool ≡ true
    → InPools policy workload pool
unfolding allows
allows-InPools policy workload pool h pools e =
    let same : allows policy workload pool ≡ contains pools pool =
      rw (e, allows) (any-contains pool pools) in
    sym same ∙ h

pub InPools-allows :
    (policy : WorkloadPoolPolicy) (workload pool : String)
    → InPools policy workload pool
    → allows policy workload pool ≡ true
unfolding allows
InPools-allows policy workload pool h =
    elim (Option-cases (get workload policy.pools_by_workload)) [
      | inl e ↦ rw (e, allows) refl
      | inr (pools, e) ↦ rw (e, allows) (any-contains pool pools ∙ h pools e)
    ]

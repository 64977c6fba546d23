-- ===== src/Jobs/Effects/Claim.antt =====
-- src/jobs.rs: which job a claim takes.
use fairlead.Base.{
  Bool, ℕ, String, Option, none, some, List, [], ◌∷◌, ◌++◌, ◌≡◌, ◌⊎◌, inl, inr, refl, find, filter,
  flat_map, find_map, find_map-sound, and_then, Bool-cases, Option-cases, arith,
}
use fairlead.Base.Maps.{get}
use fairlead.Config.{Priority, WorkloadPoolPolicy}
use fairlead.Jobs.Types.{JobRecord, JobKind, JobRegistryInner, queued, status_eq}
use fairlead.Jobs.Store.{JobRegistry, settle_memory}
use fairlead.Jobs.Queues.{iter}
use fairlead.Jobs.Views.{listed, queued_in, is_queued, queued_jobs_by_priority}
use fairlead.Jobs.Leases.{
  is_claimable, claimable_id, next_claimable, claim_next_for_worker_in_pool, claimed_job,
  dequeue_as,
}
use fairlead.Jobs.Steps.Leases.{Claimable, claimable_id-Claimable, next_claimable-Claimable}

pub find-append :
    {A : Type 0} (test : A → Bool) (xs ys : List A)
    → find test (xs ++ ys) ≡ elim (find test xs) [ none ↦ find test ys | some x ↦ some x ]
find-append test [] ys = refl
find-append test (x ∷ xs) ys = ground (arith, find-append test xs ys)

module _ {V : Type 0} (kinds : List JobKind) (pool : String) (policy : WorkloadPoolPolicy)
    (s : JobRegistryInner V) where
  -- The record behind what a search for ids finds.
  abbrev pub record_of : Option String → Option (JobRecord V)
  record_of found = and_then found (λ id. get id s.jobs)

  in_queue :
      (ids : List String)
      → find (is_claimable kinds pool policy) (filter is_queued (listed ids s))
        ≡ record_of (find_map (claimable_id kinds pool policy s) ids)
  unfolding listed is_claimable
  in_queue [] = refl
  in_queue (id ∷ ids) = elim (Option-cases (get id s.jobs)) [
    | inl e ↦ ground (arith, in_queue ids)
    | inr (job, e) ↦ elim (Bool-cases (is_claimable kinds pool policy job)) [
      | inl yes_ ↦ ground (arith, in_queue ids)
      | inr no_ ↦ ground (arith, in_queue ids)
    ]
  ]

  in_queues :
      (pqs : List (Priority × List String))
      → find (is_claimable kinds pool policy) (flat_map (queued_in s) pqs)
        ≡ record_of (find_map (λ pq. find_map (claimable_id kinds pool policy s) pq.1) pqs)
  in_queues [] = refl
  in_queues (pq ∷ pqs) =
      let first = in_queue pq.1 in
      let joined =
        find-append (is_claimable kinds pool policy) (queued_in s pq)
          (flat_map (queued_in s) pqs) in
      elim (Option-cases (find_map (claimable_id kinds pool policy s) pq.1)) [
        | inl e ↦ ground (arith, in_queues pqs)
        | inr (id, e) ↦
            let (job, at, may) =
              find_map-sound _ (Claimable kinds pool policy s)
                (claimable_id-Claimable kinds pool policy s) pq.1 id e in
            ground arith
      ]

module _ {V : Type 0} (kinds : List JobKind) (pool : String) (policy : WorkloadPoolPolicy)
    (r : JobRegistry V) where
  -- The job that a claim chooses is the first one in the order of service (realtime before batch before
  -- background, in each queue by arrival) that the worker may take: that the kinds of the worker
  -- include, and that the pool policy allows in its pool.
  pub next_claimable-first :
      find (is_claimable kinds pool policy) (queued_jobs_by_priority r)
      ≡ record_of kinds pool policy r.inner (next_claimable kinds pool policy r.inner)
  unfolding queued_jobs_by_priority next_claimable
  next_claimable-first = in_queues kinds pool policy r.inner (iter r.inner.queues)

  -- What a claim does: the chosen job, which is queued and allowed, is leased to the worker and leaves
  -- its queue; without one the registry is unchanged. The registry has no store.
  pub claim_exact :
      (fault : Option String) (now : ℕ) (worker_id : String) (duration : ℕ)
      → r.store ≡ none
      → (let p = claim_next_for_worker_in_pool fault now r worker_id kinds pool policy duration in
          ((find (is_claimable kinds pool policy) (queued_jobs_by_priority r) ≡ none)
            × (p ≡ (r, none)))
          ⊎ ((id : String) × (job : JobRecord V) × (find
                  (is_claimable kinds pool policy)
                  (queued_jobs_by_priority r)
                ≡ some job)
              × (get id r.inner.jobs ≡ some job)
              × (job.status ≡ queued)
              × (let job' = claimed_job worker_id duration now job in
                  p ≡ (record r { inner = dequeue_as id job' r.inner }, some job'))))
  unfolding claim_next_for_worker_in_pool is_claimable
  claim_exact fault now worker_id duration mem =
      elim (Option-cases (next_claimable kinds pool policy r.inner)) [
        | inl e ↦ inl (ground (arith, next_claimable-first), ground arith)
        | inr (id, e) ↦
            let (job, at, may) = next_claimable-Claimable kinds pool policy r.inner id e in
            inr (
              id,
              job,
              ground (arith, next_claimable-first),
              at,
              ground arith,
              rw (e, at, claim_next_for_worker_in_pool) (settle_memory fault _ _ _ mem),
            )
      ]

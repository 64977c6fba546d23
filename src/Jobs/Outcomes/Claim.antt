-- ===== src/Jobs/Outcomes/Claim.antt =====
-- src/jobs.rs: which job a claim takes and what becomes of it, spelled out.
use fairlead.Base.{
  true, ℕ, ◌+◌, String, Option, none, some, List, [], ◌∷◌, ◌++◌, ◌≡◌, refl, sym, ap, ◌∙◌, subst,
  All, contains, find_map, string_eq, nat_eq, u32, u128, Option-cases, inl, inr, arith,
}
use fairlead.Base.Maps.{get}
use fairlead.Config.InPools.{InPools, allows-InPools, InPools-allows}
use fairlead.Config.{WorkloadPoolPolicy}
use fairlead.Jobs.Types.{
  JobKind, JobRecord, JobRegistryInner, JobStatus, queued, kind_eq, kind_str, status_eq,
}
use fairlead.Jobs.Store.{JobRegistry, settle_memory}
use fairlead.Jobs.Queues.{for_priority, iter, remove}
use fairlead.Jobs.Leases.{
  claim_next_for_worker_in_pool, claimable_id, claimed_job, dequeue_as, is_claimable,
  next_claimable,
}
use fairlead.Jobs.Outcomes.{Leaves, WritesTo, for-remove, insert-WritesTo}

module _ {V : Type 0} (kinds : List JobKind) (pool : String) (policy : WorkloadPoolPolicy)
    (s : JobRegistryInner V) where
  -- The worker may take the job behind the id: it is queued, of one of the kinds, and the pool is one of
  -- those that the policy names for the kind, if it names any.
  pub record MayTake (id : String) : Type 0 where
    pub job : JobRecord V
    pub at : get id s.jobs ≡ some job
    pub waits : job.status ≡ queued
    pub kind : contains kinds job.kind ≡ true
    pub in_pool : InPools policy (kind_str job.kind) pool

  -- The order of service: realtime before batch before background, in each queue by arrival.
  abbrev pub service : List String
  service = s.queues.realtime ++ (s.queues.batch ++ s.queues.background)

  -- The tests of the code, and what they mean.
  claimable_id-MayTake : (id k : String) → claimable_id kinds pool policy s id ≡ some k → MayTake k
  unfolding is_claimable
  claimable_id-MayTake id k h = elim (Option-cases (get id s.jobs)) [
    | inl e ↦ absurd (ground arith)
    | inr (job, e) ↦
        let test : is_claimable kinds pool policy job ≡ true = ground arith in
        let same : id ≡ k = ground arith in
        record {
          job = job;
          at = subst (λ x. get x s.jobs ≡ some job) same e;
          waits = ground (arith, test);
          kind = ground (arith, test);
          in_pool = allows-InPools policy (kind_str job.kind) pool (ground (arith, test));
        }
  ]

  MayTake-claimable_id : (id : String) → MayTake id → claimable_id kinds pool policy s id ≡ some id
  unfolding is_claimable
  MayTake-claimable_id id m =
      ground
        (arith, m.at, m.waits, m.kind, InPools-allows policy (kind_str m.job.kind) pool m.in_pool)

  -- The first id of the list that may be taken, if there is one.
  pub data First (ids : List String) (found : Option String) : Type 0 where
    nowhere : All (λ id. ¬ MayTake id) ids → found ≡ none → First ids found
    somewhere :
        (before after : List String) (id : String)
        → ids ≡ before ++ id ∷ after
        → All (λ k. ¬ MayTake k) before
        → MayTake id
        → found ≡ some id
        → First ids found

  untakable : (id : String) → claimable_id kinds pool policy s id ≡ none → ¬ MayTake id
  untakable id e m = absurd (cc (sym e ∙ MayTake-claimable_id id m))

  claimable_id-same : (id k : String) → claimable_id kinds pool policy s id ≡ some k → id ≡ k
  claimable_id-same id k h = elim (Option-cases (get id s.jobs)) [
    | inl e ↦ absurd (ground arith)
    | inr (job, e) ↦ ground arith
  ]

  First-cons :
      (id : String) (ids : List String) (found : Option String)
      → ¬ MayTake id
      → First ids found
      → First (id ∷ ids) found
  First-cons id ids found no_ (First.nowhere all e) = First.nowhere (no_, all) e
  First-cons id ids found no_ (First.somewhere before after k e all m out) =
      First.somewhere (id ∷ before) after k (ap (λ xs. id ∷ xs) e) (no_, all) m out

  first : (ids : List String) → First ids (find_map (claimable_id kinds pool policy s) ids)
  first [] = First.nowhere tt refl
  first (id ∷ ids) =
      let rest = first ids in
      let f = claimable_id kinds pool policy s in
      elim (Option-cases (f id)) [
        | inr (k, e) ↦
            let same = claimable_id-same id k e in
            First.somewhere [] ids k (ap (λ x. x ∷ ids) same) tt (claimable_id-MayTake id k e)
              (ground (arith, e))
        | inl e ↦
            let skip : find_map f (id ∷ ids) ≡ find_map f ids = ground (arith, e) in
            subst (First (id ∷ ids)) (sym skip) (First-cons id ids _ (untakable id e) rest)
      ]

  find_map-append :
      (f : String → Option String) (xs ys : List String)
      → find_map f (xs ++ ys)
        ≡ (elim (find_map f xs) as (λ o. Option String) [ none ↦ find_map f ys | some x ↦ some x ])
  find_map-append f [] ys = refl
  find_map-append f (x ∷ xs) ys = ground (arith, find_map-append f xs ys)

  next-service :
      next_claimable kinds pool policy s ≡ find_map (claimable_id kinds pool policy s) service
  unfolding next_claimable iter
  next-service =
      let f = claimable_id kinds pool policy s in
      ground (
        arith,
        find_map-append f s.queues.realtime (s.queues.batch ++ s.queues.background),
        find_map-append f s.queues.batch s.queues.background,
      )

module _ {V : Type 0} (worker_id : String) (kinds : List JobKind) (pool : String)
    (policy : WorkloadPoolPolicy) (duration now : ℕ) (r : JobRegistry V)
    (p : JobRegistry V × Option (JobRecord V)) where
  pub data ClaimAnswer : Type 0 where
    nothing :
        All (λ id. ¬ MayTake kinds pool policy r.inner id) (service kinds pool policy r.inner)
        → p ≡ (r, none)
        → ClaimAnswer
    claimed :
        (before after : List String) (id : String) (m : MayTake kinds pool policy r.inner id)
        (job' : JobRecord V)
        → service kinds pool policy r.inner ≡ before ++ id ∷ after
        → All (λ k. ¬ MayTake kinds pool policy r.inner k) before
        → job' ≡ record (m.job) {
          status = JobStatus.running;
          attempts = u32 (m.job.attempts + 1);
          result = none;
          terminal_attempt = none;
          lease = some (record {
            worker_id = worker_id;
            attempt = u32 (m.job.attempts + 1);
            claimed_at_unix_ms = now;
            expires_at_unix_ms = u128 (now + duration);
          });
          updated_at_unix_ms = now;
        }
        → WritesTo id job' r p.0
        → Leaves m.job.priority id r.inner p.0.inner
        → p.1 ≡ some job'
        → ClaimAnswer

module _ {V : Type 0} (worker_id : String) (kinds : List JobKind) (pool : String)
    (policy : WorkloadPoolPolicy) (duration now : ℕ) (r : JobRegistry V) where
  -- How a claim is answered: the first id in the order of service (realtime before batch before
  -- background, in each queue by arrival) whose job is queued, of a kind of the worker, and allowed in
  -- its pool is leased to it, leaves its queue, and uses one attempt. If there is none, nothing changes.
  -- The registry has no store.
  pub claim_answered :
      (fault : Option String)
      → r.store ≡ none
      → ClaimAnswer worker_id kinds pool policy duration now r
          (claim_next_for_worker_in_pool fault now r worker_id kinds pool policy duration)
  unfolding claim_next_for_worker_in_pool claimed_job
  claim_answered fault mem =
      let p = claim_next_for_worker_in_pool fault now r worker_id kinds pool policy duration in
      let found = next-service kinds pool policy r.inner in
      elim (first kinds pool policy r.inner (service kinds pool policy r.inner)) [
        | First.nowhere all e ↦
            let none_ : next_claimable kinds pool policy r.inner ≡ none = found ∙ e in
            ClaimAnswer.nothing all (rw (none_, claim_next_for_worker_in_pool) refl)
        | First.somewhere before after id split all m e ↦
            let next : next_claimable kinds pool policy r.inner ≡ some id = found ∙ e in
            let job' = claimed_job worker_id duration now m.job in
            let there : get id r.inner.jobs ≡ some m.job = m.at in
            let out : p ≡ (record r { inner = dequeue_as id job' r.inner }, some job') =
              rw (next, there, claim_next_for_worker_in_pool) (settle_memory fault _ _ _ mem) in
            ClaimAnswer.claimed before after id m job' split all refl
              (subst (λ x. WritesTo id job' r x.0) (sym out)
                (insert-WritesTo id job' r (remove m.job.priority id r.inner.queues)))
              (λ queue.
                ap (λ x. for_priority queue x.0.inner.queues) out
                ∙ for-remove m.job.priority queue id r.inner.queues)
              (ap (λ x. x.1) out)
      ]

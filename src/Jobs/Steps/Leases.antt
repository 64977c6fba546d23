-- ===== src/Jobs/Steps/Leases.antt =====
-- The calls of a worker are steps: claim, renew, complete and fail.
use fairlead.Base.{
  true, false, ℕ, String, Option, none, some, List, Eq, ◌==◌, ◌&&◌, ◌≡◌, ◌<◌, not, inl, inr,
  Bool-cases, Option-cases, find_map-sound, string_eq, string_beq_iff, ltb, leb, arith,
}
use fairlead.Base.Maps.{get, is_some, is_some-some}
use fairlead.Config.{Priority, WorkloadPoolPolicy}
use fairlead.Jobs.Types.{
  JobRecord, JobKind, JobFailure, JobLease, JobRegistryInner, running, status_eq,
}
use fairlead.Jobs.Store.{JobRegistry, settle-inner}
use fairlead.Jobs.Queues.{iter}
use fairlead.Jobs.Leases.{
  is_claimable, claimable_id, next_claimable, claim_next_for_worker_in_pool, renew_held,
  renew_lease, held_refusal, complete_held, complete_lease, fail_held, fail_lease,
}
use fairlead.Jobs.Steps.Relation.{Step, stays, claims, renews, completes, requeues, fails}

module _ {V : Type 0} (kinds : List JobKind) (pool : String) (policy : WorkloadPoolPolicy)
    (s : JobRegistryInner V) where
  -- What a claim finds is in the map, and may be claimed.
  abbrev pub Claimable : String → Type 0
  Claimable id =
      (job : JobRecord V) × (get id s.jobs ≡ some job) × (is_claimable kinds pool policy job ≡ true)

  pub claimable_id-Claimable :
      (i id : String) → claimable_id kinds pool policy s i ≡ some id → Claimable id
  claimable_id-Claimable i id h = elim (Option-cases (get i s.jobs)) [
    | inl e ↦ absurd (ground arith)
    | inr (job, e) ↦ (job, ground arith, ground arith)
  ]

  -- The claim looks through the three queues.
  pub next_claimable-Claimable :
      (id : String) → next_claimable kinds pool policy s ≡ some id → Claimable id
  unfolding next_claimable
  next_claimable-Claimable =
      find_map-sound _ Claimable
        (λ (pq : Priority × List String). find_map-sound _ Claimable claimable_id-Claimable pq.1)
        (iter s.queues)

module _ {V : Type 0} (fault : Option String) (now : ℕ) (r : JobRegistry V) where
  pub claim-Step :
      (worker_id : String) (kinds : List JobKind) (pool : String) (policy : WorkloadPoolPolicy)
      (duration : ℕ)
      → Step r.inner
          (claim_next_for_worker_in_pool fault now r worker_id kinds pool policy duration).0.inner
  unfolding claim_next_for_worker_in_pool is_claimable
  claim-Step worker_id kinds pool policy duration =
      elim (Option-cases (next_claimable kinds pool policy r.inner)) [
        | inl e ↦ stays (ground arith)
        | inr (id, e) ↦
            let (job, at, free) = next_claimable-Claimable kinds pool policy r.inner id e in
            claims id job worker_id duration now at (ground arith)
              (rw (e, at, claim_next_for_worker_in_pool) (settle-inner _ _ _ _))
      ]

  renew_held-Step :
      (id worker_id : String) (duration : ℕ) (job : JobRecord V) (lease : JobLease)
      → get id r.inner.jobs ≡ some job
      → job.status ≡ running
      → job.lease ≡ some lease
      → Step r.inner (renew_held fault now r id worker_id duration job lease).0.inner
  unfolding renew_held
  renew_held-Step id worker_id duration job lease at on held =
      elim (Bool-cases ((lease.worker_id == worker_id) && not (leb lease.expires_at_unix_ms now))) [
        | inl good ↦ renews id job lease duration now at on held (ground arith) (
            let mine : (lease.worker_id == worker_id) ≡ true = ground arith in
            let late : leb lease.expires_at_unix_ms now ≡ false = ground arith in
            rw (mine, late, renew_held) (settle-inner _ _ _ _))
        | inr bad ↦ stays (ground arith)
      ]

  pub renew_lease-Step :
      (id worker_id : String) (duration : ℕ)
      → Step r.inner (renew_lease fault now r id worker_id duration).0.inner
  unfolding renew_lease
  renew_lease-Step id worker_id duration = elim (Option-cases (get id r.inner.jobs)) [
    | inl e ↦ stays (ground arith)
    | inr (job, at) ↦ elim (Bool-cases ((job.status == running) && is_some job.lease)) [
      | inr off ↦ stays (ground arith)
      | inl on ↦
          let (lease, held) = is_some-some job.lease (ground arith) in
          let state : (job.status == running) ≡ true = ground arith in
          rw (at, state, held, renew_lease)
            (renew_held-Step id worker_id duration job lease at (ground arith) held)
    ]
  ]

  -- A report is taken only from the holder of a lease that has not run out.
  held_refusal-none :
      (worker_id : String) (attempt : Option ℕ) (job : JobRecord V) (lease : JobLease)
      → held_refusal now worker_id attempt job lease ≡ none
      → (lease.worker_id ≡ worker_id) × (now < lease.expires_at_unix_ms)
  held_refusal-none worker_id attempt job lease h =
      ground (arith, string_beq_iff lease.worker_id worker_id)

  complete_held-Step :
      (id worker_id : String) (attempt : Option ℕ) (result : V) (job : JobRecord V)
      (lease : JobLease)
      → get id r.inner.jobs ≡ some job
      → job.status ≡ running
      → job.lease ≡ some lease
      → Step r.inner (complete_held fault now r id worker_id attempt result job lease).0.inner
  unfolding complete_held
  complete_held-Step id worker_id attempt result job lease at on held =
      elim (Option-cases (held_refusal now worker_id attempt job lease)) [
        | inr (refusal, e) ↦ stays (ground arith)
        | inl e ↦
            let (mine, early) = held_refusal-none worker_id attempt job lease e in
            completes id job lease now result at on held early
              (rw (e, complete_held) (rw mine (settle-inner _ _ _ _)))
      ]

  pub complete_lease-Step :
      ⦃q : Eq V⦄ (id worker_id : String) (attempt : Option ℕ) (result : V)
      → Step r.inner (complete_lease fault now r id worker_id attempt result).0.inner
  unfolding complete_lease
  complete_lease-Step ⦃q⦄ id worker_id attempt result = elim (Option-cases (get id r.inner.jobs)) [
    | inl e ↦ stays (ground arith)
    | inr (job, at) ↦ elim (Bool-cases ((job.status == running) && is_some job.lease)) [
      | inr off ↦ stays (ground arith)
      | inl on ↦
          let (lease, held) = is_some-some job.lease (ground arith) in
          let state : (job.status == running) ≡ true = ground arith in
          rw (at, state, held, complete_lease)
            (complete_held-Step id worker_id attempt result job lease at (ground arith) held)
    ]
  ]

  fail_held-Step :
      (id worker_id : String) (attempt : Option ℕ) (failure : JobFailure) (job : JobRecord V)
      (lease : JobLease)
      → get id r.inner.jobs ≡ some job
      → job.status ≡ running
      → job.lease ≡ some lease
      → Step r.inner (fail_held fault now r id worker_id attempt failure job lease).0.inner
  unfolding fail_held
  fail_held-Step id worker_id attempt failure job lease at on held =
      elim (Option-cases (held_refusal now worker_id attempt job lease)) [
        | inr (refusal, e) ↦ stays (ground arith)
        | inl e ↦
            let (mine, early) = held_refusal-none worker_id attempt job lease e in
            elim (Bool-cases (failure.retryable && ltb job.attempts job.max_attempts)) [
              | inl again ↦
                  requeues id job lease now failure at on held early (ground arith)
                    (rw (e, again, fail_held) (settle-inner _ _ _ _))
              | inr last ↦
                  fails id job lease now failure at on held early
                    (rw (e, last, fail_held) (rw mine (settle-inner _ _ _ _)))
            ]
      ]

  pub fail_lease-Step :
      (id worker_id : String) (attempt : Option ℕ) (failure : JobFailure)
      → Step r.inner (fail_lease fault now r id worker_id attempt failure).0.inner
  unfolding fail_lease
  fail_lease-Step id worker_id attempt failure = elim (Option-cases (get id r.inner.jobs)) [
    | inl e ↦ stays (ground arith)
    | inr (job, at) ↦ elim (Bool-cases ((job.status == running) && is_some job.lease)) [
      | inr off ↦ stays (ground arith)
      | inl on ↦
          let (lease, held) = is_some-some job.lease (ground arith) in
          let state : (job.status == running) ≡ true = ground arith in
          rw (at, state, held, fail_lease)
            (fail_held-Step id worker_id attempt failure job lease at (ground arith) held)
    ]
  ]

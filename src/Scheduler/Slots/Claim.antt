-- ===== src/Scheduler/Slots/Claim.antt =====
-- src/scheduler.rs, claiming: a slot is taken for each job that is handed out, and for no other.
use fairlead.Base.{
  ℕ, ◌+◌, ◌<◌, String, [], ◌∷◌, ◌≡◌, ◌∙◌, refl, ap, sym, subst, arith, string_eq, inl, inr,
  string_beq_iff, ◌==◌, if◌then◌else◌,
}
use fairlead.Jobs.Types.{JobRecord}
use fairlead.Jobs.Leases.{claim_next_for_worker_in_pool, claimed_job}
use fairlead.Jobs.Effects.Claim.{claim_exact}
use fairlead.Jobs.Steps.Leases.{claim-Step}
use fairlead.Jobs.Valid.Runs.{Step-IsValid}
use fairlead.Jobs.Held.{held_by, put-held}
use fairlead.Workers.Types.{WorkerSnapshot, AcquireWorkerSlotResult, snapshot_from_entry}
use fairlead.Workers.Registry.{try_acquire_slot}
use fairlead.Workers.Valid.{WorkerCall, after_worker, after_worker-IsValid}
use fairlead.Workers.Slots.{Acquires, try_acquire_slot-Acquires, acquire-slots}
use fairlead.Scheduler.State.{AppState, Moment, now_ms}
use fairlead.Scheduler.Handlers.{claim_with_slot, claim_swept}
use fairlead.Scheduler.Slots.{Owes, Balanced, HasRoom, release-Owes, jobs-Owes}

module _ {V : Type 0} where
  claimed-held :
      (w worker_id : String) (duration now : ℕ) (job : JobRecord V)
      → held_by w (claimed_job worker_id duration now job) ≡ (if worker_id == w then 1 else 0)
  unfolding claimed_job
  claimed-held w worker_id duration now job = refl

  -- With one slot taken for it, a claim ends in balance.
  claim_with_slot-Balanced :
      (at : Moment) (s : AppState V) (worker : WorkerSnapshot)
      → s.jobs.inner.next_id + 1 < 18446744073709551616
      → Owes (worker.id ∷ []) s
      → Balanced (claim_with_slot at s worker).0
  unfolding claim_with_slot
  claim_with_slot-Balanced at s worker room o =
      let now = now_ms at in
      let valid = Step-IsValid room o.jobs (
        claim-Step at.fault now s.jobs worker.id worker.job_types worker.pool s.workload_pools
          s.lease_duration_ms) in
      elim (claim_exact worker.job_types worker.pool s.workload_pools s.jobs at.fault now worker.id
        s.lease_duration_ms o.memory) [
          | inl (no_job, out) ↦
              rw (out, claim_with_slot)
                (release-Owes at worker.id []
                  (record s {
                    jobs =
                        (claim_next_for_worker_in_pool at.fault now s.jobs worker.id
                          worker.job_types worker.pool s.workload_pools s.lease_duration_ms).0;
                  })
                  (subst (λ p. Owes (worker.id ∷ []) (record s { jobs = p.0 })) (sym out) o))
          | inr (id, job, first, found, on, out) ↦
              rw (out, claim_with_slot)
                (jobs-Owes (worker.id ∷ []) [] s
                  (claim_next_for_worker_in_pool at.fault now s.jobs worker.id worker.job_types
                    worker.pool s.workload_pools s.lease_duration_ms).0
                  _ (ap (λ p. p.0) out) o.memory o valid
                  (λ w. ground (
                    arith,
                    put-held w id job (claimed_job worker.id s.lease_duration_ms now job)
                        s.jobs.inner found,
                    claimed-held w worker.id s.lease_duration_ms now job,
                    string_beq_iff worker.id w,
                    string_beq_iff w worker.id,
                  )))
        ]

  acquired-Owes :
      (at : Moment) (s : AppState V) (id : String) (worker : WorkerSnapshot)
      → HasRoom s
      → Balanced s
      → (try_acquire_slot at.clock s.workers id).1 ≡ AcquireWorkerSlotResult.acquired worker
      → Owes (id ∷ []) (record s { workers = (try_acquire_slot at.clock s.workers id).0 })
  unfolding after_worker
  acquired-Owes at s id worker room b won = record {
    memory = b.memory;
    jobs = b.jobs;
    workers = after_worker-IsValid at.clock s.workers (WorkerCall.try_acquire_slot id) b.workers;
    balanced = λ w. ground (
      arith,
      acquire-slots at.clock s.workers id worker (room.slots id) won w,
      b.balanced w,
      string_beq_iff id w,
      string_beq_iff w id,
    );
  }

  pub claim_swept-Balanced :
      (at : Moment) (s : AppState V) (worker_id : String)
      → HasRoom s
      → Balanced s
      → Balanced (claim_swept at s worker_id).0
  unfolding claim_swept snapshot_from_entry
  claim_swept-Balanced at s worker_id room b =
      elim (try_acquire_slot-Acquires at.clock s.workers worker_id (room.slots worker_id)) [
        | Acquires.unknown e out ↦ rw (out, claim_swept) b
        | Acquires.refused_stale entry e old out ↦ rw (out, claim_swept) b
        | Acquires.refused_draining entry e young d out ↦ rw (out, claim_swept) b
        | Acquires.refused_full entry max e young d limit over out ↦ rw (out, claim_swept) b
        | Acquires.granted entry entry' e young d same free out ↦
            let worker = snapshot_from_entry at.clock s.workers.stale_after entry' in
            let named : worker.id ≡ worker_id =
              ap (λ x. x.id) same ∙ (b.workers.valid worker_id entry e).named in
            let owes = acquired-Owes at s worker_id worker room b (ap (λ p. p.1) out) in
            rw (out, claim_swept)
              (claim_with_slot-Balanced at
                (record s { workers = (try_acquire_slot at.clock s.workers worker_id).0 }) worker
                room.ids
                (subst
                  (λ i.
                    Owes (i ∷ [])
                      (record s { workers = (try_acquire_slot at.clock s.workers worker_id).0 }))
                  (sym named) owes))
      ]

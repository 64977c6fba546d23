-- ===== src/Scheduler/Slots/Clients.antt =====
-- src/jobs.rs: submitting and cancelling keep the slots in step with the leases.
use fairlead.Base.{
  ℕ, ◌+◌, ◌<◌, String, Option, none, some, [], ◌∷◌, ◌≡◌, refl, ap, sym, subst, arith, string_eq,
  string_beq_iff, false, Eq, inl, inr, Option-cases, Result-cases,
}
use fairlead.Base.Maps.{get, total-insert}
use fairlead.Jobs.Types.{JobRecord, JobRegistryInner, SubmitJobRequest, is_terminal, status_eq}
use fairlead.Jobs.Submit.{existing_for_key, submit, accept_new, new_job, fresh_id}
use fairlead.Jobs.Callbacks.{prepare_callback}
use fairlead.Jobs.Leases.{dequeue_as}
use fairlead.Jobs.Cancel.{cancel, cancelled_job}
use fairlead.Jobs.Effects.Submit.{Submits, submit_exact}
use fairlead.Jobs.Effects.Others.{Cancels, cancel_exact}
use fairlead.Jobs.Steps.Others.{submit-Step, cancel-Step}
use fairlead.Jobs.Valid.{IsValid}
use fairlead.Jobs.Valid.Runs.{Step-IsValid}
use fairlead.Jobs.Valid.Submit.{unused, jobs_after}
use fairlead.Jobs.Held.{held, held_by, put-held}
use fairlead.Scheduler.State.{AppState, Moment, now_ms}
use fairlead.Scheduler.Handlers
use fairlead.Scheduler.Slots.{Balanced, HasRoom, release-Owes, jobs-Owes}

module _ {V : Type 0} where
  cancelled-held :
      (w : String) (now : ℕ) (job : JobRecord V) → held_by w (cancelled_job now job) ≡ 0
  unfolding cancelled_job prepare_callback
  cancelled-held w now job = ground arith

  cancelled-lease : (now : ℕ) (job : JobRecord V) → (cancelled_job now job).lease ≡ job.lease
  unfolding cancelled_job prepare_callback
  cancelled-lease now job = ground arith

  cancelled-Balanced :
      (at : Moment) (s : AppState V) (id : String) (job : JobRecord V)
      → Balanced s
      → get id s.jobs.inner.jobs ≡ some job
      → is_terminal job.status ≡ false
      → (let job' = cancelled_job (now_ms at) job in
          let jobs' = record (s.jobs) { inner = dequeue_as id job' s.jobs.inner } in
          IsValid jobs'.inner
          → Balanced (Handlers.release_lease at job' (record s { jobs = jobs' })))
  cancelled-Balanced at s id job b found open_ valid =
      let job' = cancelled_job (now_ms at) job in
      let jobs' = record (s.jobs) { inner = dequeue_as id job' s.jobs.inner } in
      let leased = (b.jobs.valid id job found).leased in
      elim (Option-cases job.lease) [
        | inl e ↦
            rw (cancelled-lease (now_ms at) job, e, Handlers.release_lease)
              (jobs-Owes [] [] s jobs' jobs' refl b.memory b valid (λ w. ground (
                arith,
                put-held w id job job' s.jobs.inner found,
                cancelled-held w (now_ms at) job,
              )))
        | inr (lease, e) ↦
            rw (cancelled-lease (now_ms at) job, e, Handlers.release_lease)
              (release-Owes at lease.worker_id [] (record s { jobs = jobs' })
                (jobs-Owes [] (lease.worker_id ∷ []) s jobs' jobs' refl b.memory b valid (λ w.
                  ground (
                    arith,
                    leased,
                    put-held w id job job' s.jobs.inner found,
                    cancelled-held w (now_ms at) job,
                    string_beq_iff lease.worker_id w,
                    string_beq_iff w lease.worker_id,
                  ))))
      ]

  pub cancel-Balanced :
      (at : Moment) (s : AppState V) (id : String)
      → HasRoom s
      → Balanced s
      → Balanced (Handlers.cancel_job at s id).state
  unfolding Handlers.cancel_job
  cancel-Balanced at s id room b =
      let now = now_ms at in
      let p = cancel at.fault now s.jobs id in
      let valid = Step-IsValid room.ids b.jobs (cancel-Step at.fault now s.jobs id) in
      elim (cancel_exact at.fault now s.jobs id b.memory) [
        | Cancels.unknown e out ↦
            subst (λ x. Balanced (Handlers.cancel_reply at s x).state) (sym out) b
        | Cancels.finished job found done out ↦
            subst (λ x. Balanced (Handlers.cancel_reply at s x).state) (sym out) b
        | Cancels.cancelled job found open_ out ↦
            subst (λ x. Balanced (Handlers.cancel_reply at s x).state) (sym out)
              (cancelled-Balanced at s id job b found open_
                (subst (λ x. IsValid x.0.inner) out valid))
      ]

module _ {V : Type 0} ⦃q : Eq V⦄ where
  accept-held :
      (s : JobRegistryInner V) (v : IsValid s) (now : ℕ) (request : SubmitJobRequest V)
      (url key : Option String)
      → existing_for_key s key ≡ none
      → s.next_id + 1 < 18446744073709551616
      → (w : String) → held w s ≡ held w (accept_new now request url key s)
  unfolding new_job
  accept-held s v now request url key free room w =
      rw (jobs_after v now request url key free room) (
        ground (
          arith,
          total-insert (held_by w) (fresh_id s) (new_job now (fresh_id s) request url key) s.jobs,
          unused v now request url key free room,
        ))

  submit-jobs-Balanced :
      (at : Moment) (s : AppState V) (request : SubmitJobRequest V)
      → HasRoom s
      → Balanced s
      → Balanced (record s { jobs = (submit at.fault (now_ms at) s.jobs request).0 })
  submit-jobs-Balanced at s request room b =
      let now = now_ms at in
      let p = submit at.fault now s.jobs request in
      let valid = Step-IsValid room.ids b.jobs (submit-Step at.fault now s.jobs request) in
      elim (submit_exact now s.jobs request at.fault b.memory) [
        | Submits.invalid_url message e out ↦
            subst (λ x. Balanced (record s { jobs = x.0 })) (sym out) b
        | Submits.invalid_key url message e f out ↦
            subst (λ x. Balanced (record s { jobs = x.0 })) (sym out) b
        | Submits.repeated url key job e f g same out ↦
            subst (λ x. Balanced (record s { jobs = x.0 })) (sym out) b
        | Submits.clash url key job e f g other out ↦
            subst (λ x. Balanced (record s { jobs = x.0 })) (sym out) b
        | Submits.accepted url key e f g out ↦
            jobs-Owes [] [] s p.0 _ (ap (λ x. x.0) out) b.memory b valid
              (λ w. omega (arith, accept-held s.jobs.inner b.jobs now request url key g room.ids w))
      ]

  pub submit-Balanced :
      (at : Moment) (s : AppState V) (request : SubmitJobRequest V)
      → HasRoom s
      → Balanced s
      → Balanced (Handlers.submit_job at s request).state
  unfolding Handlers.submit_job
  submit-Balanced at s request room b =
      elim (Result-cases (submit at.fault (now_ms at) s.jobs request).1) [
        | inl (job, e) ↦ rw (e, Handlers.submit_job) (submit-jobs-Balanced at s request room b)
        | inr (message, e) ↦ rw (e, Handlers.submit_job) (submit-jobs-Balanced at s request room b)
      ]

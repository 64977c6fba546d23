-- ===== src/Scheduler/Slots/Sweep.antt =====
-- src/scheduler.rs, `sweep_expired_leases`: the slots of leases that have run out are given back.
use fairlead.Base.{
  String, Option, none, List, [], ◌∷◌, ◌≡◌, ◌∙◌, Result, refl, ap, arith, string_eq,
}
use fairlead.Jobs.Store.{JobRegistry, persist_locked, persist_locked-inner}
use fairlead.Jobs.Expiry.{requeue_expired_leases, requeue_expired_leases_locked}
use fairlead.Jobs.Steps.Others.{requeue_expired_leases-Step}
use fairlead.Jobs.Valid.Runs.{Step-IsValid}
use fairlead.Jobs.Valid.Counter.{requeue_expired-next_id}
use fairlead.Jobs.Held.{held, requeue_expired-held}
use fairlead.Scheduler.State.{AppState, Moment, now_ms, release, release_all, sweep_expired_leases}
use fairlead.Scheduler.Slots.{Balanced, HasRoom, release_all-Owes}

module _ {V : Type 0} where
  pub persist-memory :
      (fault : Option String) (r : JobRegistry V)
      → r.store ≡ none
      → persist_locked fault r ≡ (r, Result.ok tt)
  unfolding persist_locked
  persist-memory fault r mem = ground arith

  -- The sweep for expired leases keeps the slots in step with the leases: every worker gets back one
  -- slot for each running job that the sweep takes from it.
  pub sweep-Balanced :
      (at : Moment) (s : AppState V)
      → HasRoom s
      → Balanced s
      → Balanced (sweep_expired_leases at s).0
  unfolding sweep_expired_leases requeue_expired_leases
  sweep-Balanced at s room b =
      let now = now_ms at in
      let swept = requeue_expired_leases at.fault now s.jobs in
      let saved =
        persist-memory at.fault
          (record (s.jobs) { inner = (requeue_expired_leases_locked now s.jobs.inner).0 })
          b.memory in
      release_all-Owes at swept.1.released_workers (record s { jobs = swept.0 })
        (record {
          memory = ap (λ p. p.0.store) saved ∙ b.memory;
          jobs = Step-IsValid room.ids b.jobs (requeue_expired_leases-Step at.fault now s.jobs);
          workers = b.workers;
          balanced = λ w. omega (
            arith,
            b.balanced w,
            requeue_expired-held now w s.jobs.inner,
            ap (λ p. held w p.0.inner) saved,
          );
        })

  release_all-jobs :
      (at : Moment) (ids : List String) (s : AppState V) → (release_all at ids s).jobs ≡ s.jobs
  unfolding release_all release
  release_all-jobs at [] s = refl
  release_all-jobs at (id ∷ ids) s = release_all-jobs at ids (release at id s)

  swept-jobs :
      (at : Moment) (s : AppState V)
      → (sweep_expired_leases at s).0.jobs.inner
        ≡ (requeue_expired_leases_locked (now_ms at) s.jobs.inner).0
  unfolding sweep_expired_leases requeue_expired_leases
  swept-jobs at s =
      let swept = requeue_expired_leases at.fault (now_ms at) s.jobs in
      ap (λ (j : JobRegistry V). j.inner)
        (release_all-jobs at swept.1.released_workers (record s { jobs = swept.0 }))
      ∙ persist_locked-inner at.fault
          (record (s.jobs) { inner = (requeue_expired_leases_locked (now_ms at) s.jobs.inner).0 })

  -- The sweep raises no counter.
  pub sweep-HasRoom :
      (at : Moment) (s : AppState V)
      → HasRoom s
      → Balanced s
      → HasRoom (sweep_expired_leases at s).0
  sweep-HasRoom at s room b =
      let b' = sweep-Balanced at s room b in
      record {
        ids = omega (
          arith,
          room.ids,
          ap (λ x. x.next_id) (swept-jobs at s),
          requeue_expired-next_id (now_ms at) s.jobs.inner,
        );
        slots = λ w. omega (
          arith,
          room.slots w,
          b'.balanced w,
          b.balanced w,
          ap (λ x. held w x) (swept-jobs at s),
          requeue_expired-held (now_ms at) w s.jobs.inner,
        );
      }

-- ===== src/Examples/Jobs.antt =====
-- The registry of jobs, run on small histories.
use fairlead.Base.{
  [], ◌∷◌, ◌+◌, ◌<◌, ◌≤◌, some, ◌≡◌, refl, nat_eq, arith, length, subst, count, string_eq,
}
use fairlead.Base.Maps.{get}
use fairlead.Jobs.Types.{default_retention}
use fairlead.Jobs.Store.{new}
use fairlead.Jobs.Calls.{after, run}
use fairlead.Jobs.Valid.{IsValid}
use fairlead.Jobs.Valid.Counter.{history-IsValid, run-IsValid}
use fairlead.Jobs.Types.{empty_inner, kind_str}
use fairlead.Config.{allows}
use fairlead.Base.Text.{
  trim, trim_start, trim_end, is_whitespace, to_decimal, digits_onto, push_digit, lt_wf,
}
use fairlead.Base.Maps.{insert}
use fairlead.Jobs.Store.{persist_locked}
use fairlead.Jobs.Queues.{push_back, for_priority, set_priority, iter, remove}
use fairlead.Jobs.Submit.{
  submit, submit_normalized, normalize_callback_url, normalize_idempotency_key, accept_new,
  enqueue_new, new_job, job_id,
}
use fairlead.Jobs.Leases.{claim_next_for_worker_in_pool, next_claimable, is_claimable, claimed_job}
use fairlead.Jobs.Cancel.{cancel, cancelled_job}
use fairlead.Jobs.Callbacks.{prepare_callback}
use fairlead.Jobs.Expiry.{requeue_expired_leases_locked}
use fairlead.Jobs.Prune.{prune_terminal_jobs_locked}
use fairlead.Jobs.Effects.Expiry.{Swept, IsCurrent, requeue_expired_exact}
use fairlead.Jobs.Effects.Prune.{Pruned, prune_exact}
use fairlead.Jobs.Effects.Final.{Fate, finished_final}
use fairlead.Jobs.Held.{held, requeue_expired-held}
use fairlead.Examples.{
  registry_of, job_claimed, job_cancelled, claimed_run, cancelled_run, registry_after, claiming,
}

claimed_short : length claimed_run < 18446744073709551616
claimed_short = omega arith

cancelled_short : length cancelled_run < 18446744073709551616
cancelled_short = omega arith

claimed_result : registry_after claimed_run ≡ registry_of job_claimed
unfolding run after new empty_inner default_retention submit submit_normalized
    normalize_callback_url normalize_idempotency_key trim trim_start trim_end is_whitespace
    accept_new enqueue_new new_job job_id to_decimal digits_onto push_digit lt_wf get insert
    push_back for_priority set_priority persist_locked claim_next_for_worker_in_pool next_claimable
    iter is_claimable allows kind_str claimed_job remove
claimed_result = refl

cancelled_result : registry_after cancelled_run ≡ registry_of job_cancelled
unfolding run after new empty_inner default_retention submit submit_normalized
    normalize_callback_url normalize_idempotency_key trim trim_start trim_end is_whitespace
    accept_new enqueue_new new_job job_id to_decimal digits_onto push_digit lt_wf get insert
    push_back for_priority set_priority persist_locked claim_next_for_worker_in_pool next_claimable
    iter is_claimable allows kind_str claimed_job remove cancel cancelled_job prepare_callback
cancelled_result = refl

pub job_claimed-IsValid : IsValid (registry_of job_claimed).inner
job_claimed-IsValid =
    subst (λ r. IsValid r.inner) claimed_result
      (history-IsValid default_retention claimed_run claimed_short)

-- A registry with a store that is full: the save of each call fails, and the jobs stay in memory.
run-IsValid_example :
    IsValid
      (run
        (record (registry_of job_claimed) { store = some [] })
        (record claiming { fault = some "disk full" } ∷ claiming ∷ [])).inner
run-IsValid_example =
    run-IsValid (record (registry_of job_claimed) { store = some [] })
      (record claiming { fault = some "disk full" } ∷ claiming ∷ []) job_claimed-IsValid
      (omega arith)

job_cancelled-IsValid : IsValid (registry_of job_cancelled).inner
job_cancelled-IsValid =
    subst (λ r. IsValid r.inner) cancelled_result
      (history-IsValid default_retention cancelled_run cancelled_short)

requeue_expired_exact_example :
    Swept 3000
      (get "job-1" (registry_of job_claimed).inner.jobs)
      (get "job-1" (requeue_expired_leases_locked 3000 (registry_of job_claimed).inner).0.jobs)
    × IsCurrent 3000
        (get "job-1" (requeue_expired_leases_locked 3000 (registry_of job_claimed).inner).0.jobs)
requeue_expired_exact_example =
    requeue_expired_exact 3000 (registry_of job_claimed).inner job_claimed-IsValid "job-1"

prune_exact_example :
    Pruned 100000000 default_retention (get "job-1" (registry_of job_cancelled).inner.jobs) (
      get "job-1"
        (prune_terminal_jobs_locked 100000000 default_retention
          (registry_of job_cancelled).inner).0.jobs)
    × ((prune_terminal_jobs_locked 100000000 default_retention
          (registry_of job_cancelled).inner).1.removed
        ≤ default_retention.max_pruned_jobs)
prune_exact_example =
    prune_exact 100000000 default_retention (registry_of job_cancelled).inner job_cancelled-IsValid
      "job-1"

cancelled_there : get "job-1" (registry_of job_cancelled).inner.jobs ≡ some job_cancelled
unfolding get
cancelled_there = refl

cancelled_room : (registry_of job_cancelled).inner.next_id + 1 < 18446744073709551616
cancelled_room = omega arith

finished_final_example :
    Fate
      (registry_of job_cancelled)
      claiming
      job_cancelled
      (get "job-1" (after (registry_of job_cancelled) claiming).inner.jobs)
finished_final_example =
    finished_final (registry_of job_cancelled) claiming "job-1" job_cancelled job_cancelled-IsValid
      cancelled_room cancelled_there refl

requeue_expired-held_example :
    held "w1" (requeue_expired_leases_locked 3000 (registry_of job_claimed).inner).0
      + count "w1"
          (requeue_expired_leases_locked 3000 (registry_of job_claimed).inner).1.released_workers
    ≡ held "w1" (registry_of job_claimed).inner
requeue_expired-held_example = requeue_expired-held 3000 "w1" (registry_of job_claimed).inner

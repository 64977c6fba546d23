-- ===== src/Jobs/Cancel.antt =====
-- src/jobs.rs: `cancel`. A running job keeps its lease, so that the handler can free the slot.
use fairlead.Base.{ℕ, String, Option, none, some, if◌then◌else◌}
use fairlead.Base.Maps.{get}
use fairlead.Jobs.Types.{JobRecord, cancelled, is_terminal, CancelJobResult}
use fairlead.Jobs.Store.{JobRegistry, persist_locked, settle}
use fairlead.Jobs.Callbacks.{prepare_callback}
use fairlead.Jobs.Leases.{dequeue_as}

module _ {V : Type 0} where
  unfoldable pub cancelled_job : ℕ → JobRecord V → JobRecord V
  unfolding prepare_callback
  cancelled_job now job =
      prepare_callback
        (record job { status = cancelled; updated_at_unix_ms = now; terminal_attempt = none })

  unfoldable pub cancel :
      Option String → ℕ → JobRegistry V → String → JobRegistry V × CancelJobResult V
  cancel fault now r id = elim (get id r.inner.jobs) [
    | none ↦ (r, CancelJobResult.not_found)
    | some job ↦
        if is_terminal job.status
        then (r, CancelJobResult.already_terminal job)
        else let job' = cancelled_job now job in
          settle (persist_locked fault (record r { inner = dequeue_as id job' r.inner }))
            (CancelJobResult.cancelled job') (λ _. CancelJobResult.not_found)
  ]

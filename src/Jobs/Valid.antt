-- ===== src/Jobs/Valid.antt =====
-- What holds of the registry between two operations, whatever the store does.
pub mod Replace
pub mod Leases
pub mod Others
pub mod Submit
pub mod Expiry
pub mod Prune
pub mod Runs
pub mod Counter
use fairlead.Base.{
  Bool, true, false, ℕ, ◌≤◌, ◌<◌, String, Option, none, some, List, ◌≡◌, ◌≢◌, ◌⊎◌, ◌==◌, ◌&&◌,
  count, nat_eq, string_eq, if◌then◌else◌,
}
use fairlead.Base.Maps.{get, is_some, Unique}
use fairlead.Config.{Priority, priority_eq}
use fairlead.Jobs.Types.{
  JobRecord, JobRegistryInner, JobLease, JobTerminalAttempt, queued, running, complete, failed,
  cancelled, is_terminal, status_eq,
}
use fairlead.Jobs.Queues.{for_priority}
use fairlead.Jobs.Submit.{job_id}

abbrev pub lease_attempt : Option JobLease → ℕ → ℕ
lease_attempt none n = n
lease_attempt (some lease) n = lease.attempt

abbrev pub reported_attempt : Option JobTerminalAttempt → ℕ → ℕ
reported_attempt none n = n
reported_attempt (some terminal) n = terminal.attempt

module _ {V : Type 0} where
  -- A job at rest: its fields fit its status.
  pub record JobIsValid (job : JobRecord V) : Type 0 where
    pub limit : job.max_attempts ≡ 3
    pub used : job.attempts ≤ 3
    pub queued_left : job.status ≡ queued → job.attempts < 3
    pub running_used : job.status ≡ running → 0 < job.attempts
    pub running_leased : job.status ≡ running → is_some job.lease ≡ true
    pub leased : is_some job.lease ≡ true → (job.status ≡ running) ⊎ (job.status ≡ cancelled)
    pub lease_current : lease_attempt job.lease job.attempts ≡ job.attempts
    pub result_complete : is_some job.result ≡ true → job.status ≡ complete
    pub complete_result : job.status ≡ complete → is_some job.result ≡ true
    pub failed_error : job.status ≡ failed → is_some job.error ≡ true
    pub callback_closed : is_some job.callback ≡ true → is_terminal job.status ≡ true
    pub callback_addressed : is_some job.callback ≡ true → is_some job.callback_url ≡ true
    pub callback_due :
        is_terminal job.status ≡ true
        → is_some job.callback_url ≡ true
        → is_some job.callback ≡ true
    pub attempt_reported :
        is_some job.terminal_attempt ≡ true → (job.status ≡ complete) ⊎ (job.status ≡ failed)
    pub attempt_current : reported_attempt job.terminal_attempt job.attempts ≡ job.attempts

  -- How often the queue of `p` must hold the id of a job.
  abbrev pub slots : Priority → Option (JobRecord V) → ℕ
  slots p none = 0
  slots p (some job) = if (job.status == queued) && (job.priority == p) then 1 else 0

  abbrev pub present : Option (JobRecord V) → ℕ
  present none = 0
  present (some job) = 1

  pub record IsValid (s : JobRegistryInner V) : Type 0 where
    pub named : (id : String) (job : JobRecord V) → get id s.jobs ≡ some job → job.id ≡ id
    pub valid : (id : String) (job : JobRecord V) → get id s.jobs ≡ some job → JobIsValid job
    pub queued_once :
        (p : Priority) (id : String) → count id (for_priority p s.queues) ≡ slots p (get id s.jobs)
    pub ordered_once : (id : String) → count id s.order ≡ present (get id s.jobs)
    pub keyed :
        (k id : String)
        → get k s.idempotency_keys ≡ some id
        → (job : JobRecord V) × (get id s.jobs ≡ some job) × (job.idempotency_key ≡ some k)
    pub keys_known :
        (k id : String) (job : JobRecord V)
        → get id s.jobs ≡ some job
        → job.idempotency_key ≡ some k
        → get k s.idempotency_keys ≡ some id
    pub fresh : (n : ℕ) → s.next_id < n → get (job_id n) s.jobs ≡ none
    pub unique : Unique s.jobs

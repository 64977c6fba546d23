-- ===== src/Examples.antt =====
-- Concrete runs: the data that the examples share.
mod Jobs
mod Answers
mod Machines
mod Routing
mod Proxying
mod Stored
use fairlead.Base.{Bool, true, false, ℕ, String, Option, none, some, List, [], ◌∷◌, nat_eq}
use fairlead.Config.{WorkloadPoolPolicy, realtime}
use fairlead.Jobs.Types.{
  JobKind, JobFailure, SubmitJobRequest, JobRecord, JobLease, JobRegistryInner, JobStatus,
  default_retention,
}
use fairlead.Jobs.Store.{JobRegistry, new}
use fairlead.Jobs.Calls.{Call, Event, run}

abbrev pub request : SubmitJobRequest ℕ
request = record {
  kind = JobKind.vision_analysis;
  priority = realtime;
  payload = 7;
  callback_url = none;
  idempotency_key = some "photo-1";
}

abbrev pub any_pool : WorkloadPoolPolicy
any_pool = record { pools_by_workload = [] }

abbrev pub failure : JobFailure
failure = record { message = "out of memory"; retryable = true }

abbrev pub at_time : ℕ → Call ℕ → Event ℕ
at_time now call = record { call = call; now = now; fault = none }

abbrev pub submitting : Event ℕ
submitting = at_time 1000 (Call.submit request)

abbrev pub claiming : Event ℕ
claiming = at_time 2000 (Call.claim "w1" (JobKind.vision_analysis ∷ []) "default" any_pool 50)

abbrev pub cancelling : Event ℕ
cancelling = at_time 2500 (Call.cancel "job-1")

abbrev pub claimed_run : List (Event ℕ)
claimed_run = submitting ∷ claiming ∷ []

abbrev pub cancelled_run : List (Event ℕ)
cancelled_run = submitting ∷ claiming ∷ cancelling ∷ []

abbrev pub registry_after : List (Event ℕ) → JobRegistry ℕ
registry_after events = run (new default_retention) events

-- The job as the worker holds it, and as it is after the cancellation.
abbrev pub job_claimed : JobRecord ℕ
job_claimed = record {
  id = "job-1";
  kind = JobKind.vision_analysis;
  priority = realtime;
  status = JobStatus.running;
  payload = 7;
  callback_url = none;
  idempotency_key = some "photo-1";
  result = none;
  error = none;
  callback = none;
  attempts = 1;
  max_attempts = 3;
  lease = some (record {
    worker_id = "w1";
    attempt = 1;
    claimed_at_unix_ms = 2000;
    expires_at_unix_ms = 2050;
  });
  terminal_attempt = none;
  created_at_unix_ms = 1000;
  updated_at_unix_ms = 2000;
}

abbrev pub job_cancelled : JobRecord ℕ
job_cancelled = record job_claimed { status = JobStatus.cancelled; updated_at_unix_ms = 2500 }

-- A registry in memory with one job, which is in no queue.
abbrev pub registry_of : JobRecord ℕ → JobRegistry ℕ
registry_of job = record {
  inner = record {
    next_id = 1;
    jobs = ("job-1", job) ∷ [];
    idempotency_keys = ("photo-1", "job-1") ∷ [];
    order = "job-1" ∷ [];
    queues = record { realtime = []; batch = []; background = [] };
  };
  store = none;
  retention_policy = default_retention;
}

abbrev pub job_queued : JobRecord ℕ
job_queued = record job_claimed {
  status = JobStatus.queued;
  attempts = 0;
  lease = none;
  updated_at_unix_ms = 1000;
}

-- The registry in which that job waits.
abbrev pub registry_queued : JobRegistry ℕ
registry_queued = record (registry_of job_queued) {
  inner = record ((registry_of job_queued).inner) {
    queues = record { realtime = "job-1" ∷ []; batch = []; background = [] };
  };
}

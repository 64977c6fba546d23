-- ===== src/Examples/Stored.antt =====
-- A save that is loaded again, deliveries of a callback, and configurations that are accepted.
use fairlead.Base.{
  ℕ, zero, suc, ◌+◌, ◌<◌, true, false, String, Option, none, some, List, [], ◌∷◌, ◌≡◌, ◌↔◌, nat_eq,
  refl, subst, length, contains, string_eq, ok, All, arith,
}
use fairlead.Base.Maps.{HashMap, contains_key, get, insert}
use fairlead.Callbacks.{CallbackPolicy, DeliveryState, PostResult, deliver_callback}
use fairlead.Callbacks.Delivery.{Delivered, deliver_callback-Delivered, deliver_callback-twice}
use fairlead.Config.Backends.{
  BackendConfig, BackendFits, DistinctBackends, validate_backends, validate_backends-exact,
}
use fairlead.Config.Pools.{PoolConfig, known_pool_workloads, pool_id_set, validate_workload_pools}
use fairlead.Config.Pools.Sound.{PolicyFits, validate_workload_pools-Sound}
use fairlead.Config.Workloads.{default_proxy_workloads}
use fairlead.Examples.{
  at_time, job_claimed, job_cancelled, registry_after, registry_of, registry_queued, request,
}
use fairlead.Examples.Jobs.{job_claimed-IsValid}
use fairlead.Base.Text.{
  digits_onto, is_whitespace, lt_wf, push_digit, to_decimal, trim, trim_end, trim_start,
}
use fairlead.Jobs.Calls.{Call, Event, after, run}
use fairlead.Jobs.Queues.{for_priority, push_back, set_priority}
use fairlead.Jobs.Start.{with_store_and_retention}
use fairlead.Jobs.Store.{JobRegistry, new, persist_locked}
use fairlead.Jobs.Submit.{
  accept_new, enqueue_new, job_id, new_job, normalize_callback_url, normalize_idempotency_key,
  submit, submit_normalized,
}
use fairlead.Jobs.Types.{JobCallbackStatus, JobRecord, default_retention, empty_inner}
use fairlead.Jobs.Valid.{IsValid}
use fairlead.Jobs.Valid.Counter.{history-IsValid}
use fairlead.Metrics.{no_metrics}
use fairlead.Storage.{JobTable, replace_registry_snapshot}
use fairlead.Storage.Load.{load_registry_snapshot}
use fairlead.Storage.Load.Records.{TimesFit}
use fairlead.Storage.Load.Restart.{Restarted, restart-Restarted}
use fairlead.Storage.Load.RoundTrip.{SameRegistry, load-replace}

abbrev queued_run : List (Event ℕ)
queued_run = at_time 1000 (Call.submit request) ∷ []

queued_short : length queued_run < 18446744073709551616
queued_short = omega arith

queued_result : registry_after queued_run ≡ registry_queued
unfolding run after new empty_inner default_retention submit submit_normalized
    normalize_callback_url normalize_idempotency_key trim trim_start trim_end is_whitespace
    accept_new enqueue_new new_job job_id to_decimal digits_onto push_digit lt_wf get insert
    push_back for_priority set_priority persist_locked
queued_result = refl

queued-IsValid : IsValid registry_queued.inner
queued-IsValid =
    subst (λ r. IsValid r.inner) queued_result
      (history-IsValid default_retention queued_run queued_short)

queued_times : TimesFit registry_queued.inner
unfolding get
queued_times id job at = ground arith

load-replace_example :
    (table : JobTable ℕ) × (replace_registry_snapshot registry_queued.inner ≡ some table)
    × SameRegistry registry_queued.inner (load_registry_snapshot table)
load-replace_example = load-replace registry_queued.inner queued-IsValid queued_times

-- The server stops after a claim, and starts again when the lease has run out.
claimed_times : TimesFit (registry_of job_claimed).inner
unfolding get
claimed_times id job at = ground arith

restart-Restarted_example :
    (table : JobTable ℕ) × (replace_registry_snapshot (registry_of job_claimed).inner ≡ some table)
    × (r : JobRegistry ℕ) × (with_store_and_retention none 3000 table default_retention ≡ ok r)
    × Restarted 3000 (registry_of job_claimed).inner r
restart-Restarted_example =
    restart-Restarted (registry_of job_claimed).inner 3000 default_retention job_claimed-IsValid
      claimed_times (omega arith)

-- A finished job with a URL; the first post times out, the second is accepted.
abbrev called_job : JobRecord ℕ
called_job = record job_cancelled {
  lease = none;
  callback_url = some "http://client/done";
  callback = some (record {
    status = JobCallbackStatus.pending;
    attempts = 0;
    last_attempt_at_unix_ms = none;
    delivered_at_unix_ms = none;
    last_http_status = none;
    last_error = none;
  });
}

abbrev undelivered : DeliveryState ℕ
undelivered = record { jobs = registry_of called_job; metrics = no_metrics; posts = [] }

abbrev post : ℕ → PostResult
post zero = PostResult.timed_out
post (suc n) = PostResult.responded 200

abbrev no_faults : ℕ → Option String × Option String
no_faults n = (none, none)

abbrev steady : ℕ → ℕ × ℕ
steady n = (3000 + n, 3000 + n)

abbrev policy : CallbackPolicy
policy = record { max_attempts = 3; timeout = 5000000000; retry_delay = 250000000 }

posted_twice : length (deliver_callback post steady no_faults "job-1" policy undelivered).posts ≡ 2
unfolding deliver_callback get insert persist_locked
posted_twice = refl

deliver_callback-Delivered_example :
    Delivered post steady no_faults "job-1" 3 undelivered
      (deliver_callback post steady no_faults "job-1" policy undelivered)
deliver_callback-Delivered_example =
    deliver_callback-Delivered post steady no_faults "job-1" policy undelivered

deliver_callback-twice_example :
    deliver_callback
      (λ n. PostResult.responded 500)
      steady
      no_faults
      "job-1"
      policy
      (deliver_callback post steady no_faults "job-1" policy undelivered)
    ≡ deliver_callback post steady no_faults "job-1" policy undelivered
deliver_callback-twice_example =
    deliver_callback-twice "job-1" post (λ n. PostResult.responded 500) steady steady no_faults
      no_faults policy policy undelivered 1 (omega arith) (omega (arith, posted_twice)) refl

abbrev gpu_backend : BackendConfig
gpu_backend = record {
  id = "a";
  url = "http://node-a:8000/v1";
  node_id = none;
  pool = "gpu";
  workloads = default_proxy_workloads;
  health_path = none;
}

validate_backends-exact_example :
    (validate_backends (gpu_backend ∷ []) ≡ ok tt)
    ↔ (All BackendFits (gpu_backend ∷ []) × DistinctBackends (gpu_backend ∷ []))
validate_backends-exact_example = validate_backends-exact (gpu_backend ∷ [])

abbrev gpu_pools : List PoolConfig
gpu_pools = record { id = " gpu " } ∷ []

abbrev gpu_policy : HashMap (List String)
gpu_policy = ("embeddings", "gpu" ∷ []) ∷ []

gpu_accepted :
    validate_workload_pools ((" embeddings", "gpu " ∷ []) ∷ []) gpu_pools false ≡ ok gpu_policy
unfolding validate_workload_pools insert
gpu_accepted = refl

validate_workload_pools-Sound_example :
    ((w : String) (ps : List String)
      → get w gpu_policy ≡ some ps
      → PolicyFits (pool_id_set gpu_pools) w ps)
    × (false ≡ true
        → (w : String) → contains known_pool_workloads w ≡ true
        → contains_key gpu_policy w ≡ true)
validate_workload_pools-Sound_example =
    validate_workload_pools-Sound ((" embeddings", "gpu " ∷ []) ∷ []) gpu_pools false gpu_policy
      gpu_accepted

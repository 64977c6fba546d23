-- ===== src/Scheduler/Finish.antt =====
-- src/scheduler.rs: a worker reports the end of an attempt.
use fairlead.Base.{
  ℕ, String, Option, none, some, List, [], ◌∷◌, ◌++◌, Bool, true, false, if◌then◌else◌, Eq,
}
use fairlead.Base.Text.{trim, text_is_empty}
use fairlead.Jobs.Types.{JobFailure, FinishJobResult}
use fairlead.Jobs.Leases.{complete_lease, fail_lease}
use fairlead.Workers.Registry.{get_worker}
use fairlead.Scheduler.State.{
  AppState, Moment, Response, Reply, now_ms, release, sweep_expired_leases,
}
use fairlead.Scheduler.Handlers.{refuse}

module _ {V : Type 0} where
  -- What follows from the result of a report: whether the slot is freed, and the callback sent. The
  -- results that the code calls unreachable answer as a panic does, with 500.
  unfoldable pub finish_reply :
      Moment → String → Bool → AppState V → List String → FinishJobResult V → Reply V
  finish_reply at worker_id of_failure s dispatched (FinishJobResult.completed job) =
      if of_failure then refuse s 500 "failure cannot complete a job" else record {
        state = release at worker_id s;
        response = Response.job 200 job;
        dispatched = dispatched ++ job.id ∷ [];
      }
  finish_reply at worker_id of_failure s dispatched (FinishJobResult.idempotent_completed job) =
      if of_failure
      then refuse s 500 "failure cannot complete a job"
      else record { state = s; response = Response.job 200 job; dispatched = dispatched }
  finish_reply at worker_id of_failure s dispatched (FinishJobResult.requeued job) =
      if of_failure
      then record {
        state = release at worker_id s;
        response = Response.job 200 job;
        dispatched = dispatched;
      }
      else refuse s 500 "completion cannot requeue or fail a job"
  finish_reply at worker_id of_failure s dispatched (FinishJobResult.failed job) =
      if of_failure
      then record {
        state = release at worker_id s;
        response = Response.job 200 job;
        dispatched = dispatched ++ job.id ∷ [];
      }
      else refuse s 500 "completion cannot requeue or fail a job"
  finish_reply at worker_id of_failure s dispatched (FinishJobResult.idempotent_failed job) =
      if of_failure
      then record { state = s; response = Response.job 200 job; dispatched = dispatched }
      else refuse s 500 "completion cannot requeue or fail a job"
  finish_reply at worker_id of_failure s dispatched (FinishJobResult.not_running job) = record {
    state = s;
    response = Response.job 409 job;
    dispatched = dispatched;
  }
  finish_reply at worker_id of_failure s dispatched (FinishJobResult.lease_not_held job) = record {
    state = s;
    response = Response.job 409 job;
    dispatched = dispatched;
  }
  finish_reply at worker_id of_failure s dispatched (FinishJobResult.expired job) = record {
    state = s;
    response = Response.job 409 job;
    dispatched = dispatched;
  }
  finish_reply at worker_id of_failure s dispatched FinishJobResult.not_found = record {
    state = s;
    response = Response.text 404 "job not found";
    dispatched = dispatched;
  }

  -- After the sweep.
  unfoldable pub fail_swept :
      Moment → AppState V → List String → String → String → Option ℕ → JobFailure → Reply V
  unfolding finish_reply
  fail_swept at s dispatched worker_id job_id attempt failure =
      let (jobs', result) =
        fail_lease at.fault (now_ms at) s.jobs job_id worker_id attempt failure in
      finish_reply at worker_id true (record s { jobs = jobs' }) dispatched result

  unfoldable pub fail_worker_job_handler :
      Moment → Moment → AppState V → String → String → Option ℕ → String → Bool → Reply V
  unfolding fail_swept
  fail_worker_job_handler swept at s worker_id job_id attempt error retryable =
      let message = trim error in
      elim (get_worker swept.clock s.workers worker_id) [
        | none ↦ refuse s 404 "worker not found"
        | some worker ↦
            if worker.stale
            then refuse s 409 "worker is stale"
            else if text_is_empty message
            then refuse s 400 "error cannot be empty"
            else let (s1, dispatched) = sweep_expired_leases swept s in
              fail_swept at s1 dispatched worker.id job_id attempt
                (record { message = message; retryable = retryable })
      ]

module _ {V : Type 0} ⦃q : Eq V⦄ where
  unfoldable pub complete_swept :
      Moment → AppState V → List String → String → String → Option ℕ → V → Reply V
  unfolding finish_reply
  complete_swept at s dispatched worker_id job_id attempt result =
      let (jobs', outcome) =
        complete_lease at.fault (now_ms at) s.jobs job_id worker_id attempt result in
      finish_reply at worker_id false (record s { jobs = jobs' }) dispatched outcome

  unfoldable pub complete_worker_job_handler :
      Moment → Moment → AppState V → String → String → Option ℕ → V → Reply V
  unfolding complete_swept
  complete_worker_job_handler swept at s worker_id job_id attempt result =
      elim (get_worker swept.clock s.workers worker_id) [
        | none ↦ refuse s 404 "worker not found"
        | some worker ↦
            if worker.stale
            then refuse s 409 "worker is stale"
            else let (s1, dispatched) = sweep_expired_leases swept s in
              complete_swept at s1 dispatched worker.id job_id attempt result
      ]

-- ===== src/Callbacks.antt =====
-- src/callbacks.rs: the result of a finished job is posted to its callback URL, with retries. `post` is
-- what the n-th post meets; `times` and `faults` are the clock and the answers of the store for the two
-- calls of the registry around it. The waits between attempts only move the clock.
pub mod Marks
pub mod Delivery
use fairlead.Base.{
  ℕ, zero, suc, Bool, true, false, String, Option, none, some, List, [], ◌∷◌, ◌++◌, ◌==◌, ◌/◌,
  nat_eq, string_eq, contains, filter, not, length, ltb, if◌then◌else◌,
}
use fairlead.Jobs.Callbacks.{
  begin_callback_attempt, pending_callback_jobs, record_callback_failure, record_callback_success,
}
use fairlead.Jobs.Store.{JobRegistry}
use fairlead.Jobs.Types.{JobRecord, kind_str, status_str}
use fairlead.Metrics.{RoutingMetrics, record_callback}

-- Durations are nanoseconds.
pub record CallbackPolicy : Type 0 where
  pub max_attempts : ℕ  -- u32
  pub timeout : ℕ
  pub retry_delay : ℕ

unfoldable pub default_policy : CallbackPolicy
default_policy = record { max_attempts = 3; timeout = 5000000000; retry_delay = 250000000 }

-- `CallbackDispatcher`: the jobs whose delivery runs.
abbrev pub CallbackDispatcher : Type 0
CallbackDispatcher = List String

unfoldable pub mark_in_flight : String → CallbackDispatcher → CallbackDispatcher × Bool
mark_in_flight job_id in_flight =
    if contains in_flight job_id then (in_flight, false) else (job_id ∷ in_flight, true)

unfoldable pub clear_in_flight : String → CallbackDispatcher → CallbackDispatcher
clear_in_flight job_id in_flight = filter (λ id. not (id == job_id)) in_flight

-- What a post meets: an answer with its status, a failure to send, or the timeout.
pub data PostResult : Type 0 where
  responded : ℕ → PostResult
  failed : String → PostResult
  timed_out : PostResult

-- `StatusCode::is_success`
abbrev pub is_success : ℕ → Bool
is_success status = status / 100 == 2

abbrev pub succeeds : PostResult → Bool
succeeds (responded status) = is_success status
succeeds (failed message) = false
succeeds timed_out = false

-- The registry, the counters, and what was posted to which URL.
pub record DeliveryState (V : Type 0) : Type 0 where
  pub jobs : JobRegistry V
  pub metrics : RoutingMetrics
  pub posts : List (String × JobRecord V)

module _ {V : Type 0} (post : ℕ → PostResult) (times : ℕ → ℕ × ℕ)
    (faults : ℕ → Option String × Option String) (job_id : String) where
  abbrev count : JobRecord V → String → ℕ → RoutingMetrics → RoutingMetrics
  count job outcome http_status m =
      record_callback
        (record {
          kind = kind_str job.kind;
          status = status_str job.status;
          outcome = outcome;
          http_status = http_status;
        })
        m

  abbrev failure :
      ℕ → JobRecord V → Option ℕ → Option String → ℕ → DeliveryState V → DeliveryState V
  failure n job http_status error label s = record s {
    jobs = (record_callback_failure (faults n).1 s.jobs job_id http_status error).0;
    metrics = count job "failure" label s.metrics;
  }

  -- The answer to the n-th post is recorded. The second part: is another attempt due?
  unfoldable pub record_answer :
      ℕ → JobRecord V → PostResult → DeliveryState V → DeliveryState V × Bool
  unfolding record_callback_success record_callback_failure record_callback kind_str status_str
  record_answer n job (responded status) s =
      if is_success status
      then (
        record s {
          jobs = (record_callback_success (faults n).1 (times n).1 s.jobs job_id status).0;
          metrics = count job "success" status s.metrics;
        },
        false,
      )
      else (failure n job (some status) none status s, true)
  record_answer n job (failed message) s = (failure n job none (some message) 0 s, true)
  record_answer n job timed_out s = (failure n job none (some "callback timed out") 0 s, true)

  -- The job as it was begun is posted to its URL.
  unfoldable pub post_to : JobRecord V → Option String → DeliveryState V → DeliveryState V × Bool
  unfolding record_answer
  post_to job none s = (s, false)
  post_to job (some url) s =
      let n = length s.posts in
      record_answer n job (post n) (record s { posts = s.posts ++ (url, job) ∷ [] })

  -- One round of the loop.
  unfoldable pub attempt : DeliveryState V → DeliveryState V × Bool
  unfolding begin_callback_attempt post_to
  attempt s =
      let n = length s.posts in
      let (jobs, begun) = begin_callback_attempt (faults n).0 (times n).0 s.jobs job_id in
      elim begun [
        | none ↦ (record s { jobs = jobs }, false)
        | some job ↦ post_to job job.callback_url (record s { jobs = jobs })
      ]

  unfoldable pub deliver : ℕ → DeliveryState V → DeliveryState V
  unfolding attempt
  deliver zero s = s
  deliver (suc left) s =
      let (s', more) = attempt s in let rest = deliver left s' in if more then rest else s'

  unfoldable pub deliver_callback : CallbackPolicy → DeliveryState V → DeliveryState V
  unfolding deliver
  deliver_callback policy s =
      deliver (if ltb policy.max_attempts 1 then 1 else policy.max_attempts) s

module _ {V : Type 0} (post : ℕ → PostResult) (times : ℕ → ℕ × ℕ)
    (faults : ℕ → Option String × Option String) (policy : CallbackPolicy) where
  -- A delivery that is not running yet, from its start to its end.
  unfoldable pub dispatch :
      String → CallbackDispatcher × DeliveryState V → CallbackDispatcher × DeliveryState V
  unfolding mark_in_flight clear_in_flight deliver_callback
  dispatch job_id (in_flight, s) =
      let (marked, new_) = mark_in_flight job_id in_flight in
      if new_
      then (clear_in_flight job_id marked, deliver_callback post times faults job_id policy s)
      else (marked, s)

  unfoldable dispatch_all :
      List (JobRecord V)
      → CallbackDispatcher × DeliveryState V
      → CallbackDispatcher × DeliveryState V
  dispatch_all [] d = d
  dispatch_all (job ∷ jobs) d = dispatch_all jobs (dispatch job.id d)

  unfoldable pub dispatch_pending_callbacks :
      CallbackDispatcher × DeliveryState V → CallbackDispatcher × DeliveryState V
  unfolding dispatch_all dispatch pending_callback_jobs
  dispatch_pending_callbacks (in_flight, s) =
      dispatch_all (pending_callback_jobs s.jobs) (in_flight, s)

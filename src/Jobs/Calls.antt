-- ===== src/Jobs/Calls.antt =====
-- src/jobs.rs as a client sees it: the calls that change the registry, made one after another. The
-- lock makes each of them atomic; the time and the fault of the store come with the call.
use fairlead.Base.{ℕ, String, Option, List, [], ◌∷◌, Eq, ◌≡◌, ◌⊎◌, inl, inr, refl}
use fairlead.Config.{WorkloadPoolPolicy}
use fairlead.Jobs.Types.{JobKind, JobFailure, SubmitJobRequest}
use fairlead.Jobs.Store.{JobRegistry}
use fairlead.Jobs.Submit
use fairlead.Jobs.Leases
use fairlead.Jobs.Cancel
use fairlead.Jobs.Callbacks
use fairlead.Jobs.Expiry
use fairlead.Jobs.Prune
use fairlead.Jobs.Steps.Relation.{Step}
use fairlead.Jobs.Steps.Leases.{claim-Step, renew_lease-Step, complete_lease-Step, fail_lease-Step}
use fairlead.Jobs.Steps.Others.{
  submit-Step, cancel-Step, begin_callback_attempt-Step, record_callback_success-Step,
  record_callback_failure-Step, requeue_expired_leases-Step, prune_terminal_jobs-inner,
}

pub data Call (V : Type 0) : Type 0 where
  submit : SubmitJobRequest V → Call V
  claim : String → List JobKind → String → WorkloadPoolPolicy → ℕ → Call V
  renew : String → String → ℕ → Call V
  complete : String → String → Option ℕ → V → Call V
  fail : String → String → Option ℕ → JobFailure → Call V
  cancel : String → Call V
  begin_callback : String → Call V
  callback_success : String → ℕ → Call V
  callback_failure : String → Option ℕ → Option String → Call V
  requeue_expired : Call V
  prune_terminal : Call V

-- A call, when it is made, and what SQLite answers to its save.
pub record Event (V : Type 0) : Type 0 where
  pub call : Call V
  pub now : ℕ
  pub fault : Option String

module _ {V : Type 0} ⦃q : Eq V⦄ where
  dispatch : Option String → ℕ → JobRegistry V → Call V → JobRegistry V
  dispatch fault now r (submit request) = (Submit.submit fault now r request).0
  dispatch fault now r (claim worker kinds pool policy duration) =
      (Leases.claim_next_for_worker_in_pool fault now r worker kinds pool policy duration).0
  dispatch fault now r (renew id worker duration) =
      (Leases.renew_lease fault now r id worker duration).0
  dispatch fault now r (complete id worker attempt result) =
      (Leases.complete_lease fault now r id worker attempt result).0
  dispatch fault now r (fail id worker attempt failure) =
      (Leases.fail_lease fault now r id worker attempt failure).0
  dispatch fault now r (cancel id) = (Cancel.cancel fault now r id).0
  dispatch fault now r (begin_callback id) = (Callbacks.begin_callback_attempt fault now r id).0
  dispatch fault now r (callback_success id http_status) =
      (Callbacks.record_callback_success fault now r id http_status).0
  dispatch fault now r (callback_failure id http_status error) =
      (Callbacks.record_callback_failure fault r id http_status error).0
  dispatch fault now r requeue_expired = (Expiry.requeue_expired_leases fault now r).0
  dispatch fault now r prune_terminal = (Prune.prune_terminal_jobs fault now r).0

  unfoldable pub after : JobRegistry V → Event V → JobRegistry V
  unfolding dispatch
  after r e = dispatch e.fault e.now r e.call

  unfoldable pub run : JobRegistry V → List (Event V) → JobRegistry V
  run r [] = r
  run r (e ∷ es) = run (after r e) es

  abbrev Outcome : Option String → ℕ → JobRegistry V → Call V → Type 0
  Outcome fault now r c =
      Step r.inner (dispatch fault now r c).inner
      ⊎ ((c ≡ prune_terminal)
          × ((dispatch fault now r c).inner
              ≡ (Prune.prune_terminal_jobs_locked now r.retention_policy r.inner).0))

  dispatch_cases :
      (fault : Option String) (now : ℕ) (r : JobRegistry V) (c : Call V) → Outcome fault now r c
  unfolding dispatch
  dispatch_cases fault now r (submit request) = inl (submit-Step fault now r request)
  dispatch_cases fault now r (claim worker kinds pool policy duration) =
      inl (claim-Step fault now r worker kinds pool policy duration)
  dispatch_cases fault now r (renew id worker duration) =
      inl (renew_lease-Step fault now r id worker duration)
  dispatch_cases fault now r (complete id worker attempt result) =
      inl (complete_lease-Step fault now r id worker attempt result)
  dispatch_cases fault now r (fail id worker attempt failure) =
      inl (fail_lease-Step fault now r id worker attempt failure)
  dispatch_cases fault now r (cancel id) = inl (cancel-Step fault now r id)
  dispatch_cases fault now r (begin_callback id) = inl (begin_callback_attempt-Step fault now r id)
  dispatch_cases fault now r (callback_success id http_status) =
      inl (record_callback_success-Step fault now r id http_status)
  dispatch_cases fault now r (callback_failure id http_status error) =
      inl (record_callback_failure-Step fault now r id http_status error)
  dispatch_cases fault now r requeue_expired = inl (requeue_expired_leases-Step fault now r)
  dispatch_cases fault now r prune_terminal = inr (refl, prune_terminal_jobs-inner fault now r)

  -- Every call of the registry is a step of the state machine `Step`, on each of its branches and whatever
  -- the store answers; the one call that is not is the call that prunes.
  pub after_cases :
      (r : JobRegistry V) (e : Event V)
      → Step r.inner (after r e).inner
        ⊎ ((e.call ≡ prune_terminal)
            × ((after r e).inner
                ≡ (Prune.prune_terminal_jobs_locked e.now r.retention_policy r.inner).0))
  unfolding after
  after_cases r e = dispatch_cases e.fault e.now r e.call

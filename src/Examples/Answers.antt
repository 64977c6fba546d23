-- ===== src/Examples/Answers.antt =====
-- The answers to the requests of clients and workers, on one job.
use fairlead.Base.{ℕ, none, some, List, [], ◌∷◌, ◌≡◌, refl, nat_eq}
use fairlead.Jobs.Types.{JobKind, default_retention}
use fairlead.Jobs.Store.{new}
use fairlead.Jobs.Submit.{submit}
use fairlead.Jobs.Leases.{claim_next_for_worker_in_pool, complete_lease, fail_lease, renew_lease}
use fairlead.Jobs.Cancel.{cancel}
use fairlead.Jobs.Outcomes.Claim.{ClaimAnswer, claim_answered}
use fairlead.Jobs.Outcomes.Others.{CancelAnswer, RenewAnswer, cancel_answered, renew_lease_answered}
use fairlead.Jobs.Outcomes.Reports.{
  CompleteAnswer, FailAnswer, complete_lease_answered, fail_lease_answered,
}
use fairlead.Jobs.Outcomes.Submit.{SubmitAnswer, submit_answered}
use fairlead.Examples.{request, any_pool, failure, job_claimed, registry_of, registry_queued}

complete_lease_answered_example :
    CompleteAnswer 2010
      (registry_of job_claimed)
      "job-1"
      "w1"
      (some 1)
      (complete_lease none 2010 (registry_of job_claimed) "job-1" "w1" (some 1) 9)
      9
complete_lease_answered_example =
    complete_lease_answered none 2010 (registry_of job_claimed) "job-1" "w1" (some 1) 9 refl

fail_lease_answered_example :
    FailAnswer 2010
      (registry_of job_claimed)
      "job-1"
      "w1"
      (some 1)
      (fail_lease none 2010 (registry_of job_claimed) "job-1" "w1" (some 1) failure)
      failure
fail_lease_answered_example =
    fail_lease_answered none 2010 (registry_of job_claimed) "job-1" "w1" (some 1) failure refl

renew_lease_answered_example :
    RenewAnswer 2010
      (registry_of job_claimed)
      "job-1"
      "w1"
      50
      (renew_lease none 2010 (registry_of job_claimed) "job-1" "w1" 50)
renew_lease_answered_example =
    renew_lease_answered none 2010 (registry_of job_claimed) "job-1" "w1" 50 refl

cancel_answered_example :
    CancelAnswer 2010
      (registry_of job_claimed)
      "job-1"
      (cancel none 2010 (registry_of job_claimed) "job-1")
cancel_answered_example = cancel_answered none 2010 (registry_of job_claimed) "job-1" refl

abbrev kinds : List JobKind
kinds = JobKind.vision_analysis ∷ []

claim_answered_example :
    ClaimAnswer "w1" kinds "default" any_pool 50 2000 registry_queued
      (claim_next_for_worker_in_pool none 2000 registry_queued "w1" kinds "default" any_pool 50)
claim_answered_example =
    claim_answered "w1" kinds "default" any_pool 50 2000 registry_queued none refl

no_store : (new {V = ℕ} default_retention).store ≡ none
unfolding new
no_store = refl

submit_answered_example :
    SubmitAnswer 1000
      (new default_retention)
      request
      (submit none 1000 (new default_retention) request)
submit_answered_example = submit_answered 1000 (new default_retention) request none no_store

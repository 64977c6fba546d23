-- ===== src/Jobs/Outcomes/Resubmit.antt =====
-- src/jobs.rs: a request with an idempotency key that is sent again.
use fairlead.Base.{String, Option, none, some, Eq, ◌≡◌, ◌≢◌, string_eq}
use fairlead.Base.Maps.{get}
use fairlead.Config.{Priority}
use fairlead.Jobs.Types.{JobKind, JobRecord, JobRegistryInner, SubmitJobRequest}
use fairlead.Jobs.Calls.{Call, Event}
use fairlead.Jobs.Outcomes.Submit.{Agree}

-- What a job is: the part of its record that no call changes.
pub record Identity (V : Type 0) : Type 0 where
  pub id : String
  pub kind : JobKind
  pub priority : Priority
  pub payload : V
  pub callback_url : Option String
  pub idempotency_key : Option String

module _ {V : Type 0} where
  abbrev pub identity : JobRecord V → Identity V
  identity job = record {
    id = job.id;
    kind = job.kind;
    priority = job.priority;
    payload = job.payload;
    callback_url = job.callback_url;
    idempotency_key = job.idempotency_key;
  }

  -- The job is there, and is the same one.
  abbrev pub Stays : JobRecord V → Option (JobRecord V) → Type 0
  Stays job none = ⊥
  Stays job (some job') = identity job' ≡ identity job

module _ {V : Type 0} ⦃q : Eq V⦄ where
  -- A call that is not the one that prunes.
  abbrev pub KeepsJobs : Event V → Type 0
  KeepsJobs e = e.call ≢ Call.prune_terminal

  -- The answer to a request with a key: a job that stands under that key and agrees with the request.
  pub record Answers (request : SubmitJobRequest V) (k : String) (url : Option String)
      (s : JobRegistryInner V) (job : JobRecord V) : Type 0 where
    pub there : get job.id s.jobs ≡ some job
    pub keyed : job.idempotency_key ≡ some k
    pub agrees : Agree job request url

-- ===== src/Jobs/Types.antt =====
-- src/jobs.rs: the data of a job and of the registry. `V` is `serde_json::Value`, which the code
-- stores, compares and passes on.
use fairlead.Base.{
  ℕ, Bool, true, false, String, Option, List, [], ◌≡◌, ◌↔◌, Eq, ◌==◌, ◌&&◌, string_eq, nat_eq,
  nat_beq, arith,
}
use fairlead.Base.Maps.{HashMap}
use fairlead.Config.{Priority}

abbrev pub attempt_timeout_error : String
attempt_timeout_error = "attempt timed out"

pub data JobKind : Type 0 where
  vision_analysis embed_batch index_build cluster : JobKind

-- `JobKind::as_str`
unfoldable pub kind_str : JobKind → String
kind_str vision_analysis = "vision_analysis"
kind_str embed_batch = "embed_batch"
kind_str index_build = "index_build"
kind_str cluster = "cluster"

abbrev pub kind_index : JobKind → ℕ
kind_index vision_analysis = 0
kind_index embed_batch = 1
kind_index index_build = 2
kind_index cluster = 3

pub kind_beq_iff : (a b : JobKind) → (nat_beq (kind_index a) (kind_index b) ≡ true) ↔ (a ≡ b)
kind_beq_iff a b = ground arith

instance abbrev pub kind_eq : Eq JobKind
kind_eq = record { beq = λ a b. nat_beq (kind_index a) (kind_index b); beq_iff = kind_beq_iff }

pub data JobStatus : Type 0 where
  queued running complete failed cancelled : JobStatus

abbrev pub is_terminal : JobStatus → Bool
is_terminal complete = true
is_terminal failed = true
is_terminal cancelled = true
is_terminal _ = false

-- `JobStatus::as_str`
unfoldable pub status_str : JobStatus → String
status_str queued = "queued"
status_str running = "running"
status_str complete = "complete"
status_str failed = "failed"
status_str cancelled = "cancelled"

abbrev pub status_index : JobStatus → ℕ
status_index queued = 0
status_index running = 1
status_index complete = 2
status_index failed = 3
status_index cancelled = 4

pub status_beq_iff :
    (a b : JobStatus) → (nat_beq (status_index a) (status_index b) ≡ true) ↔ (a ≡ b)
status_beq_iff a b = ground arith

instance abbrev pub status_eq : Eq JobStatus
status_eq = record {
  beq = λ a b. nat_beq (status_index a) (status_index b);
  beq_iff = status_beq_iff;
}

pub data JobCallbackStatus : Type 0 where
  pending delivered : JobCallbackStatus

abbrev pub is_delivered : JobCallbackStatus → Bool
is_delivered pending = false
is_delivered delivered = true

pub record JobCallbackState : Type 0 where
  pub status : JobCallbackStatus
  pub attempts : ℕ  -- u32
  pub last_attempt_at_unix_ms : Option ℕ
  pub delivered_at_unix_ms : Option ℕ
  pub last_http_status : Option ℕ
  pub last_error : Option String

pub record JobFailure : Type 0 where
  pub message : String
  pub retryable : Bool

abbrev pub bool_beq : Bool → Bool → Bool
bool_beq true b = b
bool_beq false true = false
bool_beq false false = true

abbrev pub failure_beq : JobFailure → JobFailure → Bool
failure_beq a b = (a.message == b.message) && bool_beq a.retryable b.retryable

pub record JobLease : Type 0 where
  pub worker_id : String
  pub attempt : ℕ  -- u32
  pub claimed_at_unix_ms : ℕ  -- u128
  pub expires_at_unix_ms : ℕ  -- u128

pub record JobTerminalAttempt : Type 0 where
  pub worker_id : String
  pub attempt : ℕ

pub record SubmitJobRequest (V : Type 0) : Type 0 where
  pub kind : JobKind
  pub priority : Priority
  pub payload : V
  pub callback_url : Option String
  pub idempotency_key : Option String

pub record JobRecord (V : Type 0) : Type 0 where
  pub id : String
  pub kind : JobKind
  pub priority : Priority
  pub status : JobStatus
  pub payload : V
  pub callback_url : Option String
  pub idempotency_key : Option String
  pub result : Option V
  pub error : Option JobFailure
  pub callback : Option JobCallbackState
  pub attempts : ℕ  -- u32
  pub max_attempts : ℕ  -- u32
  pub lease : Option JobLease
  pub terminal_attempt : Option JobTerminalAttempt
  pub created_at_unix_ms : ℕ  -- u128
  pub updated_at_unix_ms : ℕ  -- u128

pub record JobQueues : Type 0 where
  pub realtime : List String
  pub batch : List String
  pub background : List String

pub record JobRegistryInner (V : Type 0) : Type 0 where
  pub next_id : ℕ  -- u64
  pub jobs : HashMap (JobRecord V)
  pub idempotency_keys : HashMap String
  pub order : List String
  pub queues : JobQueues

pub record JobRetentionPolicy : Type 0 where
  pub terminal_retention_ms : ℕ  -- u128
  pub max_pruned_jobs : ℕ  -- usize

-- `JobRetentionPolicy::default`
unfoldable pub default_retention : JobRetentionPolicy
default_retention = record { terminal_retention_ms = 86400000; max_pruned_jobs = 1000 }

-- `JobRegistryInner::default`
unfoldable pub empty_inner : {V : Type 0} → JobRegistryInner V
empty_inner = record {
  next_id = 0;
  jobs = [];
  idempotency_keys = [];
  order = [];
  queues = record { realtime = []; batch = []; background = [] };
}

pub data CancelJobResult (V : Type 0) : Type 0 where
  cancelled already_terminal : JobRecord V → CancelJobResult V
  not_found : CancelJobResult V

pub data RenewJobLeaseResult (V : Type 0) : Type 0 where
  renewed not_running lease_not_held expired : JobRecord V → RenewJobLeaseResult V
  not_found : RenewJobLeaseResult V

pub data FinishJobResult (V : Type 0) : Type 0 where
  completed idempotent_completed requeued failed idempotent_failed : JobRecord V → FinishJobResult V
  not_running lease_not_held expired : JobRecord V → FinishJobResult V
  not_found : FinishJobResult V

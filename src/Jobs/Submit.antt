-- ===== src/Jobs/Submit.antt =====
-- src/jobs.rs: `submit` and the checks of its request.
use Prim.Native.String.{len, ◌++◌ as ◌^^◌}
use fairlead.Base.{
  Bool, ℕ, ◌+◌, String, Option, none, some, [], ◌∷◌, ◌++◌, Result, ok, err, Eq, ◌==◌, ◌&&◌,
  string_eq, option_eq, ltb, u64, if◌then◌else◌, and_then,
}
use fairlead.Base.Maps.{get, insert, remove}
use fairlead.Base.Text.{trim, text_is_empty, to_decimal}
use fairlead.Config.{priority_eq}
use fairlead.Jobs.Types.{JobRecord, JobRegistryInner, SubmitJobRequest, queued, kind_eq}
use fairlead.Jobs.Queues.{push_back}
use fairlead.Jobs.Store.{JobRegistry, persist_locked, settle}

unfoldable pub normalize_callback_url : Option String → Result String (Option String)
normalize_callback_url none = ok none
normalize_callback_url (some url) =
    let trimmed = trim url in
    if text_is_empty trimmed then err "callback_url cannot be empty" else ok (some trimmed)

-- `len` counts bytes.
unfoldable pub normalize_idempotency_key : Option String → Result String (Option String)
normalize_idempotency_key none = ok none
normalize_idempotency_key (some key) =
    let trimmed = trim key in
    if text_is_empty trimmed
    then err "idempotency_key cannot be empty"
    else if ltb 256 (len trimmed)
    then err "idempotency_key cannot exceed 256 bytes"
    else ok (some trimmed)

-- `format!("job-{}", n)`
unfoldable pub job_id : ℕ → String
job_id n = "job-" ^^ to_decimal n

module _ {V : Type 0} where
  -- The record that a key points at.
  abbrev pub existing_for_key : JobRegistryInner V → Option String → Option (JobRecord V)
  existing_for_key s key =
      and_then key (λ k. and_then (get k s.idempotency_keys) (λ id. get id s.jobs))

  -- A key that points at no record is forgotten.
  abbrev pub drop_dangling : JobRegistryInner V → Option String → JobRegistryInner V
  drop_dangling s none = s
  drop_dangling s (some k) = elim (get k s.idempotency_keys) [
    | none ↦ s
    | some id ↦ record s { idempotency_keys = remove k s.idempotency_keys }
  ]

  abbrev pub keys_with : Option String → String → JobRegistryInner V → JobRegistryInner V
  keys_with none id s = s
  keys_with (some k) id s = record s { idempotency_keys = insert k id s.idempotency_keys }

  -- The record of a new job.
  unfoldable pub new_job :
      ℕ → String → SubmitJobRequest V → Option String → Option String → JobRecord V
  new_job now id request url key = record {
    id = id;
    kind = request.kind;
    priority = request.priority;
    status = queued;
    payload = request.payload;
    callback_url = url;
    idempotency_key = key;
    result = none;
    error = none;
    callback = none;
    attempts = 0;
    max_attempts = 3;
    lease = none;
    terminal_attempt = none;
    created_at_unix_ms = now;
    updated_at_unix_ms = now;
  }

  -- Enters a job in the map, the keys, the order and its queue.
  unfoldable pub enqueue_new : JobRecord V → JobRegistryInner V → JobRegistryInner V
  enqueue_new job s =
      let keyed = keys_with job.idempotency_key job.id s in
      record keyed {
        jobs = insert job.id job keyed.jobs;
        order = keyed.order ++ job.id ∷ [];
        queues = push_back job.priority job.id keyed.queues;
      }

  -- The id that the next job gets; `next_id` is a `u64`.
  abbrev pub fresh_id : JobRegistryInner V → String
  fresh_id s = job_id (u64 (s.next_id + 1))

  unfoldable pub accept_new :
      ℕ
      → SubmitJobRequest V
      → Option String
      → Option String
      → JobRegistryInner V
      → JobRegistryInner V
  unfolding enqueue_new
  accept_new now request url key s =
      let dropped = drop_dangling s key in
      enqueue_new (new_job now (fresh_id s) request url key)
        (record dropped { next_id = u64 (dropped.next_id + 1) })

module _ {V : Type 0} ⦃e : Eq V⦄ where
  -- The retained job answers for a key only if it is the same request.
  unfoldable pub same_request : JobRecord V → SubmitJobRequest V → Option String → Bool
  same_request job request url =
      ((job.kind == request.kind) && (job.priority == request.priority))
      && ((job.payload == request.payload) && (job.callback_url == url))

  unfoldable pub submit_normalized :
      Option String
      → ℕ
      → JobRegistry V
      → SubmitJobRequest V
      → Option String
      → Option String
      → JobRegistry V × Result String (JobRecord V)
  unfolding accept_new
  submit_normalized fault now r request url key = elim (existing_for_key r.inner key) [
    | some job ↦
        if same_request job request url
        then (r, ok job)
        else (r, err "idempotency_key already used for a different job request")
    | none ↦
        settle (persist_locked fault (record r { inner = accept_new now request url key r.inner }))
          (ok (new_job now (fresh_id r.inner) request url key)) err
  ]

  unfoldable pub submit :
      Option String
      → ℕ
      → JobRegistry V
      → SubmitJobRequest V
      → JobRegistry V × Result String (JobRecord V)
  unfolding submit_normalized
  submit fault now r request = elim (normalize_callback_url request.callback_url) [
    | err message ↦ (r, err message)
    | ok url ↦ elim (normalize_idempotency_key request.idempotency_key) [
      | err message ↦ (r, err message)
      | ok key ↦ submit_normalized fault now r request url key
    ]
  ]

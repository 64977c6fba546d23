-- ===== src/Jobs/Valid/Replace.antt =====
-- Writing one record back: what is enough for the registry to stay valid.
use fairlead.Base.{
  true, false, String, some, ◌≡◌, ◌==◌, count, count_zero, string_eq, string_beq_iff, Bool-cases,
  subst, inl, inr, if◌then◌else◌, arith,
}
use fairlead.Base.Maps.{get, insert, get-insert, insert-Unique}
use fairlead.Config.{Priority, priority_beq_iff}
use fairlead.Jobs.Types.{JobRecord, JobRegistryInner, JobQueues, queued, status_eq}
use fairlead.Jobs.Queues.{for_priority, push_back, remove, count-push_back, count-remove}
use fairlead.Jobs.Submit.{job_id}
use fairlead.Jobs.Valid.{JobIsValid, IsValid, slots}

module _ {V : Type 0} where
  -- The fields by which the registry finds a job.
  pub record Replaces (job job' : JobRecord V) : Type 0 where
    pub id : job'.id ≡ job.id
    pub priority : job'.priority ≡ job.priority
    pub key : job'.idempotency_key ≡ job.idempotency_key

  abbrev pub replaced : JobRegistryInner V → String → JobRecord V → JobQueues → JobRegistryInner V
  replaced s id job' q = record s { jobs = insert id job' s.jobs; queues = q }

  -- The queues after the record at `id` has become `job'`.
  abbrev pub QueuesFit : JobRegistryInner V → String → JobRecord V → JobQueues → Type 0
  QueuesFit s id job' q =
      (p : Priority) (k : String)
      → count k (for_priority p q)
        ≡ (if id == k then slots p (some job') else count k (for_priority p s.queues))

  module _ {s : JobRegistryInner V} (v : IsValid s) (id : String) {job job' : JobRecord V}
      (at : get id s.jobs ≡ some job) (r : Replaces job job') (ok' : JobIsValid job') where
    look :
        (k : String) → get k (insert id job' s.jobs) ≡ (if id == k then some job' else get k s.jobs)
    look k = get-insert id k job' s.jobs

    named' : (k : String) (x : JobRecord V) → get k (insert id job' s.jobs) ≡ some x → x.id ≡ k
    named' k x h = ground (arith, look k, string_beq_iff id k, v.named k x, v.named id job at, r)

    valid' : (k : String) (x : JobRecord V) → get k (insert id job' s.jobs) ≡ some x → JobIsValid x
    valid' k x h = elim (Bool-cases (id == k)) [
      | inl e ↦ subst (λ y. JobIsValid y) (ground (arith, look k)) ok'
      | inr e ↦ v.valid k x (ground (arith, look k))
    ]

    keyed' :
        (k i : String)
        → get k s.idempotency_keys ≡ some i
        → (x : JobRecord V) × (get i (insert id job' s.jobs) ≡ some x)
          × (x.idempotency_key ≡ some k)
    keyed' k i h =
        let (y, at_y, key_y) = v.keyed k i h in
        elim (Bool-cases (id == i)) [
          | inl e ↦ (job', ground (arith, look i), ground (arith, string_beq_iff id i, r.key))
          | inr e ↦ (y, ground (arith, look i), key_y)
        ]

    keys_known' :
        (k i : String) (x : JobRecord V)
        → get i (insert id job' s.jobs) ≡ some x
        → x.idempotency_key ≡ some k
        → get k s.idempotency_keys ≡ some i
    keys_known' k i x h e =
        ground (arith, look i, string_beq_iff id i, v.keys_known k i x, v.keys_known k id job at, r)

    pub replaced-IsValid : (q : JobQueues) → QueuesFit s id job' q → IsValid (replaced s id job' q)
    replaced-IsValid q fit = record {
      named = named';
      valid = valid';
      queued_once = λ p k. ground (arith, look k, fit p k, v.queued_once p k);
      ordered_once = λ k. ground (arith, look k, string_beq_iff id k, v.ordered_once k, at);
      keyed = keyed';
      keys_known = keys_known';
      fresh = λ n h. ground (arith, look (job_id n), v.fresh n h, string_beq_iff id (job_id n));
      unique = insert-Unique id job' s.jobs v.unique;
    }

  module _ {s : JobRegistryInner V} (v : IsValid s) (id : String) {job job' : JobRecord V}
      (at : get id s.jobs ≡ some job) (r : Replaces job job') where
    -- The queues stay if the job stays in its queue, or out of it.
    pub fit_same :
        ((p : Priority) → slots p (some job) ≡ slots p (some job')) → QueuesFit s id job' s.queues
    fit_same same p k = ground (arith, v.queued_once p k, string_beq_iff id k, same p)

    -- A job that is no longer queued is taken out.
    pub fit_remove :
        (job'.status == queued) ≡ false → QueuesFit s id job' (remove job'.priority id s.queues)
    fit_remove gone p k = ground (
      arith,
      count-remove job'.priority p id k s.queues,
      v.queued_once p k,
      string_beq_iff id k,
      priority_beq_iff job'.priority p,
      priority_beq_iff job.priority p,
      count_zero id (for_priority job'.priority s.queues),
      r,
    )

    -- A job that was not queued, and now is, is pushed at the end.
    pub fit_push :
        (job.status == queued) ≡ false
        → (job'.status == queued) ≡ true
        → QueuesFit s id job' (push_back job'.priority job'.id s.queues)
    fit_push out back p k = ground (
      arith,
      count-push_back job'.priority p job'.id k s.queues,
      v.queued_once p k,
      string_beq_iff id k,
      v.named id job at,
      r,
    )

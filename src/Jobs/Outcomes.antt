-- ===== src/Jobs/Outcomes.antt =====
-- src/jobs.rs: the answers to clients and workers, with the records and queues that they leave spelled
-- out field by field.
pub mod Reports
pub mod Others
pub mod Claim
pub mod Submit
pub mod Resubmit
use fairlead.Base.{
  ℕ, true, String, Option, none, some, List, [], ◌∷◌, ◌++◌, ◌==◌, ◌≡◌, ◌≢◌, refl, ap, ◌∙◌,
  Bool-cases, Option-cases, inl, inr, string_eq, string_beq_iff, erase, if◌then◌else◌, arith,
  nat_eq,
}
use fairlead.Base.Maps.{get, insert, get-insert}
use fairlead.Config.{Priority, priority_eq}
use fairlead.Jobs.Types.{
  JobRecord, JobRegistryInner, JobCallbackState, JobCallbackStatus, JobQueues, is_delivered,
  is_terminal,
}
use fairlead.Jobs.Queues.{for_priority, push_back, set_priority, remove}
use fairlead.Jobs.Store.{JobRegistry}
use fairlead.Jobs.Callbacks.{prepare_callback}

module _ {V : Type 0} where
  -- The record at `id` becomes `job`; the queues aside, nothing else changes.
  pub record Writes (id : String) (job : JobRecord V) (s s' : JobRegistryInner V) : Type 0 where
    pub here : get id s'.jobs ≡ some job
    pub others : (k : String) → id ≢ k → get k s'.jobs ≡ get k s.jobs
    pub order : s'.order ≡ s.order
    pub keys : s'.idempotency_keys ≡ s.idempotency_keys
    pub next_id : s'.next_id ≡ s.next_id

  -- The id has left the queue of its priority.
  abbrev pub Leaves : Priority → String → JobRegistryInner V → JobRegistryInner V → Type 0
  Leaves p id s s' =
      (q : Priority)
      → for_priority q s'.queues
        ≡ (if p == q then erase id (for_priority q s.queues) else for_priority q s.queues)

  -- The id stands at the end of the queue of its priority.
  abbrev pub Joins : Priority → String → JobRegistryInner V → JobRegistryInner V → Type 0
  Joins p id s s' =
      (q : Priority)
      → for_priority q s'.queues
        ≡ (if p == q then for_priority q s.queues ++ id ∷ [] else for_priority q s.queues)

  pub insert-here :
      (id : String) (job : JobRecord V) (s : JobRegistryInner V)
      → get id (insert id job s.jobs) ≡ some job
  insert-here id job s = ground (arith, get-insert id id job s.jobs, string_beq_iff id id)

  pub insert-others :
      (id : String) (job : JobRecord V) (s : JobRegistryInner V) (k : String)
      → id ≢ k
      → get k (insert id job s.jobs) ≡ get k s.jobs
  insert-others id job s k other = elim (Bool-cases (id == k)) [
    | inl e ↦ absurd (other ((string_beq_iff id k).0 e))
    | inr e ↦ get-insert id k job s.jobs ∙ rw e refl
  ]

module _ {V : Type 0} where
  -- The registry has the record `job` at `id`, and its own store and policy.
  pub record WritesTo (id : String) (job : JobRecord V) (r r' : JobRegistry V) : Type 0 where
    pub inner : Writes id job r.inner r'.inner
    pub store : r'.store ≡ r.store
    pub retention : r'.retention_policy ≡ r.retention_policy

  -- A record that is written, with queues that may be any.
  pub insert-WritesTo :
      (id : String) (job : JobRecord V) (r : JobRegistry V) (queues : JobQueues)
      → WritesTo id job r (record r {
        inner = record r.inner { jobs = insert id job r.inner.jobs; queues = queues };
      })
  insert-WritesTo id job r queues = record {
    inner = record {
      here = insert-here id job r.inner;
      others = insert-others id job r.inner;
      order = refl;
      keys = refl;
      next_id = refl;
    };
    store = refl;
    retention = refl;
  }

pub for-remove :
    (p q : Priority) (id : String) (queues : JobQueues)
    → for_priority q (remove p id queues)
      ≡ (if p == q then erase id (for_priority q queues) else for_priority q queues)
unfolding remove for_priority set_priority
for-remove p q id queues = ground arith

pub for-push_back :
    (p q : Priority) (id : String) (queues : JobQueues)
    → for_priority q (push_back p id queues)
      ≡ (if p == q then for_priority q queues ++ id ∷ [] else for_priority q queues)
unfolding push_back for_priority set_priority
for-push_back p q id queues = ground arith

-- The callback that is owed for a job with this URL once it has ended: a delivered one stays, any
-- other is pending, with the attempts made so far.
abbrev pub owed : Option String → Option JobCallbackState → Option JobCallbackState
owed none callback = callback
owed (some url) none = some (record {
  status = JobCallbackStatus.pending;
  attempts = 0;
  last_attempt_at_unix_ms = none;
  delivered_at_unix_ms = none;
  last_http_status = none;
  last_error = none;
})
owed (some url) (some callback) = some (
    if is_delivered callback.status then callback else record callback {
      status = JobCallbackStatus.pending;
      delivered_at_unix_ms = none;
      last_http_status = none;
      last_error = none;
    })

pub prepare_callback-owed :
    {V : Type 0} (job : JobRecord V)
    → is_terminal job.status ≡ true
    → prepare_callback job ≡ record job { callback = owed job.callback_url job.callback }
unfolding prepare_callback
prepare_callback-owed job done = elim (Option-cases job.callback_url) [
  | inl e ↦ rw (done, e, prepare_callback) refl
  | inr (url, e) ↦ elim (Option-cases job.callback) [
    | inl f ↦ rw (done, e, f, prepare_callback) refl
    | inr (c, f) ↦ elim (Bool-cases (is_delivered c.status)) [
      | inl g ↦ rw (done, e, f, g, prepare_callback) refl
      | inr g ↦ rw (done, e, f, g, prepare_callback) refl
    ]
  ]
]

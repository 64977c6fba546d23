-- ===== src/Workers/Valid.antt =====
-- What holds of the workers between two operations.
use fairlead.Base.{
  true, false, ℕ, ◌-◌, ◌≤◌, String, Option, none, some, ◌≡◌, ◌≢◌, refl, ap, ◌∙◌, sym, subst, inl,
  inr, arith, string_eq, string_beq_iff, option_eq, option_beq_iff, nat_eq, Option-cases,
  Bool-cases, ok, Result-cases, is_empty, leb, ltb, ◌||◌, ◌+◌, u64,
}
use fairlead.Base.Maps.{get, remove, get-insert, get-remove, Unique, insert-Unique, remove-Unique}
use fairlead.Base.Text.{text_is_empty}
use fairlead.Workers.Types
use fairlead.Workers.Registry

-- The slots in use are within the limit.
abbrev pub Within : Option ℕ → ℕ → Type 0
Within none n = Unit {0}
Within (some max) n = n ≤ max

pub record EntryIsValid (id : String) (entry : Types.WorkerEntry) : Type 0 where
  pub named : entry.id ≡ id
  pub has_id : text_is_empty entry.id ≡ false
  pub has_pool : text_is_empty entry.pool ≡ false
  pub has_types : is_empty entry.job_types ≡ false
  pub limit_positive : entry.max_concurrent_jobs ≢ some 0

pub record WorkersIsValid (r : Types.WorkerRegistry) : Type 0 where
  pub valid :
      (id : String) (entry : Types.WorkerEntry)
      → get id r.workers ≡ some entry
      → EntryIsValid id entry
  pub unique : Unique r.workers

-- The operations on the workers, as one type.
pub data WorkerCall : Type 0 where
  register : Types.RegisterWorkerRequest → WorkerCall
  heartbeat try_acquire_slot release_slot drain reactivate deregister : String → WorkerCall

unfoldable pub after_worker : Types.Clock → Types.WorkerRegistry → WorkerCall → Types.WorkerRegistry
after_worker clock r (register request) = (Registry.register clock r request).0
after_worker clock r (heartbeat id) = (Registry.heartbeat clock r id).0
after_worker clock r (try_acquire_slot id) = (Registry.try_acquire_slot clock r id).0
after_worker clock r (release_slot id) = (Registry.release_slot clock r id).0
after_worker clock r (drain id) = (Registry.drain clock r id).0
after_worker clock r (reactivate id) = (Registry.reactivate clock r id).0
after_worker clock r (deregister id) = (Registry.deregister clock r id).0

put-IsValid :
    (r : Types.WorkerRegistry) (id : String) (entry : Types.WorkerEntry)
    → WorkersIsValid r
    → EntryIsValid id entry
    → WorkersIsValid (Registry.put_worker r id entry)
put-IsValid r id entry v e = record {
  valid =
      λ k x at. ground (arith, get-insert id k entry r.workers, string_beq_iff id k, v.valid k x);
  unique = insert-Unique id entry r.workers v.unique;
}

-- A validated request gives a valid entry.
validate_worker-IsValid :
    (clock : Types.Clock) (request : Types.RegisterWorkerRequest) (entry : Types.WorkerEntry)
    → Registry.validate_worker clock request ≡ ok entry
    → EntryIsValid entry.id entry
unfolding Registry.validate_worker
validate_worker-IsValid clock request entry h =
    ground (arith, option_beq_iff request.max_concurrent_jobs (some 0))

merge_existing-IsValid :
    (clock : Types.Clock) (id : String) (old : Option Types.WorkerEntry) (entry : Types.WorkerEntry)
    → EntryIsValid id entry
    → EntryIsValid id (Registry.merge_existing clock old entry)
unfolding Registry.merge_existing
merge_existing-IsValid clock id none entry v = record {
  named = v.named;
  has_id = v.has_id;
  has_pool = v.has_pool;
  has_types = v.has_types;
  limit_positive = v.limit_positive;
}
merge_existing-IsValid clock id (some old) entry v = record {
  named = v.named;
  has_id = v.has_id;
  has_pool = v.has_pool;
  has_types = v.has_types;
  limit_positive = v.limit_positive;
}

register-IsValid :
    (clock : Types.Clock) (r : Types.WorkerRegistry) (request : Types.RegisterWorkerRequest)
    → WorkersIsValid r
    → WorkersIsValid (Registry.register clock r request).0
unfolding Registry.register
register-IsValid clock r request v = elim (Result-cases (Registry.validate_worker clock request)) [
  | inl (fresh, e) ↦
      let entry = Registry.merge_existing clock (get fresh.id r.workers) fresh in
      let valid =
        merge_existing-IsValid clock fresh.id (get fresh.id r.workers) fresh
          (validate_worker-IsValid clock request fresh e) in
      rw (e, Registry.register)
        (put-IsValid r entry.id entry v
          (subst (λ id. EntryIsValid id entry) (sym valid.named) valid))
  | inr (message, e) ↦ rw (e, Registry.register) v
]

-- Changing an entry in what its validity does not look at.
update-IsValid :
    (clock : Types.Clock) (r : Types.WorkerRegistry) (id : String)
    (f : Types.WorkerEntry → Types.WorkerEntry)
    → ((entry : Types.WorkerEntry) → EntryIsValid id entry → EntryIsValid id (f entry))
    → WorkersIsValid r
    → WorkersIsValid (Registry.update_entry clock r id f).0
update-IsValid clock r id f keeps v = elim (Option-cases (get id r.workers)) [
  | inl e ↦ rw (e, Registry.update_entry) v
  | inr (entry, e) ↦
      rw (e, Registry.update_entry)
        (put-IsValid r id (f entry) v (keeps entry (v.valid id entry e)))
]

-- A field that validity does not look at.
same-EntryIsValid :
    {id : String} {entry entry' : Types.WorkerEntry}
    → EntryIsValid id entry
    → entry'.id ≡ entry.id
    → entry'.pool ≡ entry.pool
    → entry'.job_types ≡ entry.job_types
    → entry'.max_concurrent_jobs ≡ entry.max_concurrent_jobs
    → EntryIsValid id entry'
same-EntryIsValid v e p t m = record {
  named = e ∙ v.named;
  has_id = ap text_is_empty e ∙ v.has_id;
  has_pool = ap text_is_empty p ∙ v.has_pool;
  has_types = ap is_empty t ∙ v.has_types;
  limit_positive = λ z. v.limit_positive (sym m ∙ z);
}

-- A write of the entry at `id`, or nothing.
pub data Writes (r r' : Types.WorkerRegistry) (id : String) : Type 0 where
  nothing : r' ≡ r → Writes r r' id
  written :
      (entry entry' : Types.WorkerEntry)
      → get id r.workers ≡ some entry
      → r' ≡ Registry.put_worker r id entry'
      → (entry'.id ≡ entry.id)
        × (entry'.pool ≡ entry.pool)
        × (entry'.job_types ≡ entry.job_types)
        × (entry'.max_concurrent_jobs ≡ entry.max_concurrent_jobs)
      → Writes r r' id
  gone : r' ≡ record r { workers = remove id r.workers } → Writes r r' id

try_acquire_slot-Writes :
    (clock : Types.Clock) (r : Types.WorkerRegistry) (id : String)
    → Writes r (Registry.try_acquire_slot clock r id).0 id
unfolding Registry.try_acquire_slot Types.snapshot_from_entry
try_acquire_slot-Writes clock r id = elim (Option-cases (get id r.workers)) [
  | inl e ↦ Writes.nothing (ground arith)
  | inr (entry, e) ↦
      elim (Bool-cases (
        leb r.stale_after (clock.monotonic - entry.observed_at)
        || (entry.draining || Registry.is_full entry))) [
          | inl refused ↦ Writes.nothing (ground arith)
          | inr taken ↦
              Writes.written entry
                (record entry { in_flight_jobs = u64 (entry.in_flight_jobs + 1) }) e (ground arith)
                (refl, refl, refl, refl)
        ]
]

deregister-Writes :
    (clock : Types.Clock) (r : Types.WorkerRegistry) (id : String)
    → Writes r (Registry.deregister clock r id).0 id
unfolding Registry.deregister
deregister-Writes clock r id = elim (Option-cases (get id r.workers)) [
  | inl e ↦ Writes.nothing (ground arith)
  | inr (entry, e) ↦ elim (Bool-cases (ltb 0 entry.in_flight_jobs)) [
    | inl busy ↦
        Writes.written entry (record entry { draining = true }) e (ground arith)
          (refl, refl, refl, refl)
    | inr idle ↦ Writes.gone (ground arith)
  ]
]

remove-IsValid :
    (r : Types.WorkerRegistry) (id : String)
    → WorkersIsValid r
    → WorkersIsValid (record r { workers = remove id r.workers })
remove-IsValid r id v = record {
  valid = λ k x at. ground (arith, get-remove id k r.workers, v.valid k x);
  unique = remove-Unique id r.workers v.unique;
}

Writes-IsValid :
    (r r' : Types.WorkerRegistry) (id : String)
    → WorkersIsValid r
    → Writes r r' id
    → WorkersIsValid r'
Writes-IsValid r r' id v (Writes.nothing e) = subst (λ t. WorkersIsValid t) (sym e) v
Writes-IsValid r r' id v (Writes.gone e) =
    subst (λ t. WorkersIsValid t) (sym e) (remove-IsValid r id v)
Writes-IsValid r r' id v (Writes.written entry entry' at e (n, p, t, m)) =
    subst (λ t. WorkersIsValid t) (sym e)
      (put-IsValid r id entry' v (same-EntryIsValid (v.valid id entry at) n p t m))

-- Every operation on the workers, on each of its branches, keeps the registry valid: an entry is
-- stored under its own id, with a non-empty id and pool, at least one job type, and a limit above 0.
pub after_worker-IsValid :
    (clock : Types.Clock) (r : Types.WorkerRegistry) (call : WorkerCall)
    → WorkersIsValid r
    → WorkersIsValid (after_worker clock r call)
unfolding after_worker Registry.heartbeat Registry.release_slot Registry.drain Registry.reactivate
after_worker-IsValid clock r (register request) v = register-IsValid clock r request v
after_worker-IsValid clock r (heartbeat id) v =
    update-IsValid clock r id _ (λ entry h. same-EntryIsValid h refl refl refl refl) v
after_worker-IsValid clock r (try_acquire_slot id) v =
    Writes-IsValid r _ id v (try_acquire_slot-Writes clock r id)
after_worker-IsValid clock r (release_slot id) v =
    update-IsValid clock r id _ (λ entry h. same-EntryIsValid h refl refl refl refl) v
after_worker-IsValid clock r (drain id) v =
    update-IsValid clock r id _ (λ entry h. same-EntryIsValid h refl refl refl refl) v
after_worker-IsValid clock r (reactivate id) v =
    update-IsValid clock r id _ (λ entry h. same-EntryIsValid h refl refl refl refl) v
after_worker-IsValid clock r (deregister id) v =
    Writes-IsValid r _ id v (deregister-Writes clock r id)

-- ===== src/Jobs/Effects/Final.antt =====
-- src/jobs.rs: what the calls do to a job that is finished.
use fairlead.Base.{
  true, false, ℕ, ◌+◌, ◌<◌, String, Option, none, some, ◌≡◌, refl, sym, subst, ◌∙◌, ap, ◌==◌, inl,
  inr, Bool-cases, string_eq, string_beq_iff, Eq, arith,
}
use fairlead.Base.Maps.{get, insert, get-insert}
use fairlead.Jobs.Types.{
  JobRecord, JobRegistryInner, JobFailure, JobTerminalAttempt, JobStatus, is_terminal,
}
use fairlead.Jobs.Submit.{fresh_id}
use fairlead.Jobs.Steps.Relation.{
  Step, stays, submits, claims, renews, completes, requeues, fails, cancels, notes, sweeps,
}
use fairlead.Jobs.Store.{JobRegistry}
use fairlead.Jobs.Calls.{Call, Event, after, after_cases}
use fairlead.Jobs.Valid.{IsValid}
use fairlead.Jobs.Valid.Submit.{accept_new-get, unused}
use fairlead.Jobs.Effects.Expiry.{Swept, requeue_expired_exact}
use fairlead.Jobs.Effects.Prune.{MayForget, Pruned, prune_exact}

-- How a job ended.
pub record Outcome (V : Type 0) : Type 0 where
  pub id : String
  pub status : JobStatus
  pub payload : V
  pub result : Option V
  pub error : Option JobFailure
  pub attempts : ℕ
  pub terminal_attempt : Option JobTerminalAttempt
  pub updated_at_unix_ms : ℕ

module _ {V : Type 0} where
  abbrev pub outcome : JobRecord V → Outcome V
  outcome job = record {
    id = job.id;
    status = job.status;
    payload = job.payload;
    result = job.result;
    error = job.error;
    attempts = job.attempts;
    terminal_attempt = job.terminal_attempt;
    updated_at_unix_ms = job.updated_at_unix_ms;
  }

  -- The job is still there with the same outcome.
  abbrev pub Keeps : JobRecord V → Option (JobRecord V) → Type 0
  Keeps job none = ⊥
  Keeps job (some job') = outcome job' ≡ outcome job

  same-Keeps : (job : JobRecord V) {o : Option (JobRecord V)} → o ≡ some job → Keeps job o
  same-Keeps job e = subst (λ o. Keeps job o) (sym e) refl

  move :
      {s s' : JobRegistryInner V} (k : String) (job : JobRecord V)
      → s' ≡ s
      → Keeps job (get k s.jobs)
      → Keeps job (get k s'.jobs)
  move k job e h = subst (λ t. Keeps job (get k t.jobs)) (sym e) h

  -- A call that writes the record of a job which is not finished leaves a finished one alone.
  write-Keeps :
      (s : JobRegistryInner V) (id k : String) (job x x' : JobRecord V)
      → get k s.jobs ≡ some job
      → is_terminal job.status ≡ true
      → get id s.jobs ≡ some x
      → is_terminal x.status ≡ false
      → Keeps job (get k (insert id x' s.jobs))
  write-Keeps s id k job x x' at done at_x open_ =
      same-Keeps job (ground (arith, get-insert id k x' s.jobs, string_beq_iff id k))

  -- The callback is no part of the outcome.
  note-Keeps :
      (s : JobRegistryInner V) (id k : String) (job x x' : JobRecord V)
      → get k s.jobs ≡ some job
      → get id s.jobs ≡ some x
      → outcome x' ≡ outcome x
      → Keeps job (get k (insert id x' s.jobs))
  note-Keeps s id k job x x' at at_x same = elim (Bool-cases (id == k)) [
    | inl e ↦
        rw (get-insert id k x' s.jobs, e)
          (same ∙ ap outcome {x = x} {y = job} (ground (arith, string_beq_iff id k)))
    | inr e ↦ same-Keeps job (ground (arith, get-insert id k x' s.jobs))
  ]

  Swept-Keeps :
      (now : ℕ) (job : JobRecord V) (old new : Option (JobRecord V))
      → old ≡ some job
      → is_terminal job.status ≡ true
      → Swept now old new
      → Keeps job new
  Swept-Keeps now job old new at done (Swept.kept e) = same-Keeps job (e ∙ at)
  Swept-Keeps now job old new at done (Swept.timed_out x at_x expired e) =
      absurd (ground (arith, expired.on))

  Step-Keeps :
      {s s' : JobRegistryInner V} (k : String) (job : JobRecord V)
      → IsValid s
      → s.next_id + 1 < 18446744073709551616
      → get k s.jobs ≡ some job
      → is_terminal job.status ≡ true
      → Step s s'
      → Keeps job (get k s'.jobs)
  Step-Keeps k job v room at done (stays e) = move k job e (same-Keeps job at)
  Step-Keeps {s} k job v room at done (submits now request url key free e) = move k job e (
      same-Keeps job (
        ground (
          arith,
          accept_new-get v now request url key free room k,
          unused v now request url key free room,
          string_beq_iff (fresh_id s) k,
        )))
  Step-Keeps {s} k job v room at done (claims id x worker_id duration now at_x on e) =
      move k job e (write-Keeps s id k job x _ at done at_x (ground arith))
  Step-Keeps {s} k job v room at done (renews id x lease duration now at_x on held early e) =
      move k job e (write-Keeps s id k job x _ at done at_x (ground arith))
  Step-Keeps {s} k job v room at done (completes id x lease now result at_x on held early e) =
      move k job e (write-Keeps s id k job x _ at done at_x (ground arith))
  Step-Keeps {s} k job v room at done (requeues id x lease now failure at_x on held early again e) =
      move k job e (write-Keeps s id k job x _ at done at_x (ground arith))
  Step-Keeps {s} k job v room at done (fails id x lease now failure at_x on held early e) =
      move k job e (write-Keeps s id k job x _ at done at_x (ground arith))
  Step-Keeps {s} k job v room at done (cancels id x now at_x open_ e) =
      move k job e (write-Keeps s id k job x _ at done at_x open_)
  Step-Keeps {s} k job v room at done (notes id x callback at_x has e) =
      move k job e (note-Keeps s id k job x _ at at_x refl)
  Step-Keeps {s} k job v room at done (sweeps now e) =
      move k job e (Swept-Keeps now job _ _ at done (requeue_expired_exact now s v k).0)

module _ {V : Type 0} ⦃q : Eq V⦄ where
  -- What a call may do to a finished job: nothing to its outcome, or, if it is the call that prunes, it may
  -- forget a job that is old enough and has no callback to deliver.
  pub data Fate (r : JobRegistry V) (e : Event V) (job : JobRecord V) (new : Option (JobRecord V))
      : Type 0 where
    kept : (job' : JobRecord V) → new ≡ some job' → outcome job' ≡ outcome job → Fate r e job new
    pruned :
        e.call ≡ Call.prune_terminal
        → MayForget e.now r.retention_policy job
        → new ≡ none
        → Fate r e job new

  Keeps-Fate :
      (r : JobRegistry V) (e : Event V) (job : JobRecord V) (new : Option (JobRecord V))
      → Keeps job new
      → Fate r e job new
  Keeps-Fate r e job none h = absurd h
  Keeps-Fate r e job (some job') h = Fate.kept job' refl h

  Pruned-Fate :
      (r : JobRegistry V) (e : Event V) (job : JobRecord V) (old new : Option (JobRecord V))
      → old ≡ some job
      → e.call ≡ Call.prune_terminal
      → Pruned e.now r.retention_policy old new
      → Fate r e job new
  Pruned-Fate r e job old new at call (Pruned.kept same) = Fate.kept job (same ∙ at) refl
  Pruned-Fate r e job old new at call (Pruned.forgotten x at_x may gone) =
      let same : x ≡ job = cc (at_x, at) in
      Fate.pruned call (subst (MayForget e.now r.retention_policy) same may) gone

  -- Whatever call is made, with a store or without and whatever it answers, a finished job is still there
  -- with its outcome (its status, payload, result, error, attempts and times). Only the call that prunes
  -- may forget it, and only if its retention time is over and it has no callback to deliver. The registry
  -- is valid before the call, and its counter of ids does not wrap around.
  pub finished_final :
      (r : JobRegistry V) (e : Event V) (k : String) (job : JobRecord V)
      → IsValid r.inner
      → r.inner.next_id + 1 < 18446744073709551616
      → get k r.inner.jobs ≡ some job
      → is_terminal job.status ≡ true
      → Fate r e job (get k (after r e).inner.jobs)
  finished_final r e k job v room at done = elim (after_cases r e) [
    | inl step ↦ Keeps-Fate r e job _ (Step-Keeps k job v room at done step)
    | inr (call, out) ↦
        subst (λ s. Fate r e job (get k s.jobs)) (sym out)
          (Pruned-Fate r e job (get k r.inner.jobs) _ at call
            (prune_exact e.now r.retention_policy r.inner v k).0)
  ]

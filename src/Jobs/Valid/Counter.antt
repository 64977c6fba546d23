-- ===== src/Jobs/Valid/Counter.antt =====
-- The counter of ids: only a submission raises it, and by one.
use fairlead.Base.{
  ℕ, sym, ap, subst, inl, inr, ◌+◌, ◌≤◌, ◌<◌, List, [], ◌∷◌, length, ◌≡◌, refl, ◌∙◌, arith, Option,
  String, u64, Eq,
}
use fairlead.Jobs.Types.{JobRegistryInner, JobRetentionPolicy, SubmitJobRequest, empty_inner}
use fairlead.Jobs.Submit.{accept_new, enqueue_new}
use fairlead.Jobs.Store.{JobRegistry, new}
use fairlead.Jobs.Expiry
use fairlead.Jobs.Prune
use fairlead.Jobs.Expiry.{
  Sweep, sweep_one, sweep, start, requeue_one, requeue_all, requeue_expired_leases_locked,
}
use fairlead.Jobs.Prune.{remove_one, remove_all, prune_terminal_jobs_locked}
use fairlead.Jobs.Steps.Relation.{
  Step, stays, submits, claims, renews, completes, requeues, fails, cancels, notes, sweeps,
}
use fairlead.Jobs.Calls.{Event, after, after_cases, run}
use fairlead.Jobs.Valid.{IsValid}
use fairlead.Jobs.Valid.Prune.{prune_terminal-IsValid}
use fairlead.Jobs.Valid.Runs.{Step-IsValid, empty_inner-IsValid}

module _ {V : Type 0} where
  sweep_one-next_id :
      (now : ℕ) (id : String) (w : Sweep V) → (sweep_one now id w).inner.next_id ≡ w.inner.next_id
  unfolding sweep_one Expiry.expire
  sweep_one-next_id now id w = ground arith

  sweep-next_id :
      (now : ℕ) (ids : List String) (w : Sweep V)
      → (sweep now ids w).inner.next_id ≡ w.inner.next_id
  unfolding sweep
  sweep-next_id now [] w = refl
  sweep-next_id now (id ∷ ids) w =
      sweep-next_id now ids (sweep_one now id w) ∙ sweep_one-next_id now id w

  pub requeue_expired-next_id :
      (now : ℕ) (s : JobRegistryInner V)
      → (requeue_expired_leases_locked now s).0.next_id ≡ s.next_id
  unfolding requeue_expired_leases_locked start
  requeue_expired-next_id now s = sweep-next_id now s.order (start s)

  remove_one-next_id :
      (x : Prune.Removal) (s : JobRegistryInner V) → (remove_one x s).next_id ≡ s.next_id
  unfolding remove_one
  remove_one-next_id x s = ground arith

  remove_all-next_id :
      (xs : List Prune.Removal) (s : JobRegistryInner V) (report : Prune.JobPruneReport)
      → (remove_all xs s report).0.next_id ≡ s.next_id
  unfolding remove_all
  remove_all-next_id [] s report = refl
  remove_all-next_id (x ∷ xs) s report =
      remove_all-next_id xs (remove_one x s) _ ∙ remove_one-next_id x s

  prune_terminal-next_id :
      (now : ℕ) (policy : JobRetentionPolicy) (s : JobRegistryInner V)
      → (prune_terminal_jobs_locked now policy s).0.next_id ≡ s.next_id
  unfolding prune_terminal_jobs_locked
  prune_terminal-next_id now policy s = ground (
    arith,
    remove_all-next_id (Prune.select now policy s s.order [] 0).0 s (record {
      removed = 0;
      retained_pending_callbacks = (Prune.select now policy s s.order [] 0).1;
      by_status = [];
    }),
  )

  accept_new-next_id :
      (now : ℕ) (request : SubmitJobRequest V) (url key : Option String) (s : JobRegistryInner V)
      → (accept_new now request url key s).next_id ≡ u64 (s.next_id + 1)
  unfolding accept_new enqueue_new
  accept_new-next_id now request url key s = ground arith

  -- No step raises the counter by more than one.
  pub Step-next_id : {s s' : JobRegistryInner V} → Step s s' → s'.next_id ≤ s.next_id + 1
  Step-next_id (stays e) = rw e (omega arith)
  Step-next_id {s} (submits now request url key free e) =
      rw (e, accept_new-next_id now request url key s) (omega arith)
  Step-next_id (claims id job worker_id duration now at on e) = rw e (omega arith)
  Step-next_id (renews id job lease duration now at on held early e) = rw e (omega arith)
  Step-next_id (completes id job lease now result at on held early e) = rw e (omega arith)
  Step-next_id (requeues id job lease now failure at on held early again e) = rw e (omega arith)
  Step-next_id (fails id job lease now failure at on held early e) = rw e (omega arith)
  Step-next_id (cancels id job now at on e) = rw e (omega arith)
  Step-next_id (notes id job callback at has e) = rw e (omega arith)
  Step-next_id {s} (sweeps now e) = rw (e, requeue_expired-next_id now s) (omega arith)

module _ {V : Type 0} ⦃q : Eq V⦄ where
  pub after-IsValid :
      (r : JobRegistry V) (e : Event V)
      → IsValid r.inner
      → r.inner.next_id + 1 < 18446744073709551616
      → IsValid (after r e).inner
  after-IsValid r e v room = elim (after_cases r e) [
    | inl step ↦ Step-IsValid room v step
    | inr (call, out) ↦
        subst IsValid (sym out) (prune_terminal-IsValid e.now r.retention_policy r.inner v)
  ]

  pub after-next_id :
      (r : JobRegistry V) (e : Event V) → (after r e).inner.next_id ≤ r.inner.next_id + 1
  after-next_id r e = elim (after_cases r e) [
    | inl step ↦ Step-next_id step
    | inr (call, out) ↦
        omega
          (arith, ap (λ x. x.next_id) out, prune_terminal-next_id e.now r.retention_policy r.inner)
  ]

  -- A registry that is valid stays valid through any sequence of calls, at any times, with a store or
  -- without, and whatever the store answers to each save, as long as the calls cannot exhaust the counter
  -- of ids. Valid: the records fit their status, every queued job is in exactly one queue, once, the keys
  -- and the ids are unique.
  pub run-IsValid :
      (r : JobRegistry V) (es : List (Event V))
      → IsValid r.inner
      → r.inner.next_id + length es < 18446744073709551616
      → IsValid (run r es).inner
  unfolding run
  run-IsValid r [] v room = v
  run-IsValid r (e ∷ es) v room =
      run-IsValid (after r e) es (after-IsValid r e v (omega arith))
        (let up = after-next_id r e in omega arith)

  -- Every history of a new registry, of any calls at any times, leaves it valid: the records fit
  -- their status, every queued job is in exactly one queue, once, the keys and the ids are unique.
  -- The history is shorter than 2 ^ 64 calls.
  pub history-IsValid :
      (policy : JobRetentionPolicy) (es : List (Event V))
      → length es < 18446744073709551616
      → IsValid (run (new policy) es).inner
  unfolding new empty_inner
  history-IsValid policy es short = run-IsValid (new policy) es empty_inner-IsValid (omega arith)

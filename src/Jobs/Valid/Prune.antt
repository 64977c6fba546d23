-- ===== src/Jobs/Valid/Prune.antt =====
-- Pruning keeps the registry valid: what it takes out leaves the map, the keys, the order and the queues.
use fairlead.Base.{
  true, ℕ, String, none, some, List, [], ◌∷◌, ◌≡◌, ◌⊎◌, refl, ap, ◌∙◌, ◌==◌, inl, inr, Option-cases,
  string_eq, string_beq_iff, count, count-filter, filter, option_beq, option_beq_iff, All,
  All-append, if◌then◌else◌, arith,
}
use fairlead.Base.Maps.{get, remove, contains_key, get-remove, remove-Unique}
use fairlead.Config.{Priority, priority_eq}
use fairlead.Jobs.Types.{
  JobRecord, JobRegistryInner, JobRetentionPolicy, JobStatus, is_terminal, status_eq,
}
use fairlead.Jobs.Queues
use fairlead.Jobs.Queues.{for_priority, count-remove}
use fairlead.Jobs.Submit.{job_id}
use fairlead.Jobs.Prune.{
  JobPruneReport, Removal, removal, is_due, select, remove_one, remove_all, retain_known,
  prune_terminal_jobs_locked,
}
use fairlead.Jobs.Prune.Rule.{select-rule}
use fairlead.Jobs.Valid.{IsValid, present}

module _ {V : Type 0} where
  -- A removal fits: if its job is still there, it is a finished job of that priority.
  abbrev pub Removable : JobRegistryInner V → Removal → Type 0
  Removable s (id, priority, status) =
      (get id s.jobs ≡ none)
      ⊎ ((job : JobRecord V) × (get id s.jobs ≡ some job)
          × (job.priority ≡ priority)
          × (is_terminal job.status ≡ true))

  -- No slot is lost: the id of a finished job is in no queue.
  drop_id :
      (s : JobRegistryInner V) (x : Removal) (p : Priority) (k : String)
      → IsValid (retain_known s)
      → Removable s x
      → count k (for_priority p (Queues.remove x.1 x.0 s.queues))
        ≡ (if x.0 == k then 0 else count k (for_priority p s.queues))
  drop_id s (id, priority, status) p k v (inl e) =
      ground
        (arith, count-remove priority p id k s.queues, v.queued_once p k, string_beq_iff id k, e)
  drop_id s (id, priority, status) p k v (inr (job, at, _, done)) =
      ground (arith, count-remove priority p id k s.queues, v.queued_once p k, string_beq_iff id k)

  module _ (s : JobRegistryInner V) (v : IsValid (retain_known s)) (id : String) (job : JobRecord V)
      (status : JobStatus) (at : get id s.jobs ≡ some job)
      (done : is_terminal job.status ≡ true) where
    abbrev after : JobRegistryInner V
    after = retain_known (remove_one (id, job.priority, status) s)

    jobs_after : after.jobs ≡ remove id s.jobs
    unfolding remove_one
    jobs_after = elim (Option-cases job.idempotency_key) [
      | inl e ↦ ground arith
      | inr (k, e) ↦ ground arith
    ]

    queues_after : after.queues ≡ Queues.remove job.priority id s.queues
    unfolding remove_one
    queues_after = ground arith

    order_after : after.order ≡ filter (contains_key after.jobs) s.order
    unfolding remove_one
    order_after = ground arith

    next_after : after.next_id ≡ s.next_id
    unfolding remove_one
    next_after = ground arith

    look : (k : String) → get k after.jobs ≡ (if id == k then none else get k s.jobs)
    look k = rw jobs_after (get-remove id k s.jobs)

    keys_after :
        (k : String)
        → get k after.idempotency_keys
          ≡ (if option_beq job.idempotency_key (some k) then none else get k s.idempotency_keys)
    unfolding remove_one
    keys_after k = elim (Option-cases job.idempotency_key) [
      | inl e ↦ ground arith
      | inr (j, e) ↦ ground (arith, get-remove j k s.idempotency_keys)
    ]

    ordered' : (k : String) → count k after.order ≡ present (get k after.jobs)
    unfolding contains_key
    ordered' k = rw order_after (
        ground (
          arith,
          count-filter k (contains_key after.jobs) s.order,
          count-filter k (contains_key s.jobs) s.order,
          look k,
          v.ordered_once k,
        ))

    keyed' :
        (k i : String)
        → get k after.idempotency_keys ≡ some i
        → (x : JobRecord V) × (get i after.jobs ≡ some x) × (x.idempotency_key ≡ some k)
    keyed' k i h =
        let (x, at_x, own) = v.keyed k i (ground (arith, keys_after k)) in
        (
          x,
          ground (
            arith,
            look i,
            keys_after k,
            string_beq_iff id i,
            option_beq_iff job.idempotency_key (some k),
          ),
          own,
        )

    remove_one-IsValid : IsValid after
    remove_one-IsValid = record {
      named = λ k x h. ground (arith, look k, v.named k x);
      valid = λ k x h. v.valid k x (ground (arith, look k));
      queued_once = λ p k. rw queues_after (
          ground (
            arith,
            drop_id s (id, job.priority, status) p k v (inr (job, at, refl, done)),
            look k,
            v.queued_once p k,
          ));
      ordered_once = ordered';
      keyed = keyed';
      keys_known = λ k i x h e. ground (
        arith,
        look i,
        keys_after k,
        v.keys_known k i x,
        v.keys_known k id job at,
        option_beq_iff job.idempotency_key (some k),
        string_beq_iff id i,
      );
      fresh = λ n h. ground (arith, look (job_id n), v.fresh n, next_after);
      unique = rw jobs_after (remove-Unique id s.jobs v.unique);
    }

  -- An id that is not in the map is only taken out of its queue.
  absent-IsValid :
      (s : JobRegistryInner V) (v : IsValid (retain_known s)) (x : Removal)
      → get x.0 s.jobs ≡ none
      → IsValid (retain_known (record s { queues = Queues.remove x.1 x.0 s.queues }))
  absent-IsValid s v x e = record {
    named = v.named;
    valid = v.valid;
    queued_once =
        λ p k. ground (arith, drop_id s x p k v (inl e), v.queued_once p k, string_beq_iff x.0 k);
    ordered_once = v.ordered_once;
    keyed = v.keyed;
    keys_known = v.keys_known;
    fresh = v.fresh;
    unique = v.unique;
  }

  removal-IsValid :
      (s : JobRegistryInner V) (x : Removal)
      → IsValid (retain_known s)
      → Removable s x
      → IsValid (retain_known (remove_one x s))
  unfolding remove_one
  removal-IsValid s (id, priority, status) v (inl e) =
      rw (e, remove_one) (absent-IsValid s v (id, priority, status) e)
  removal-IsValid s (id, priority, status) v (inr (job, at, same, done)) =
      rw (← same) (remove_one-IsValid s v id job status at done)

  pub remove_one-jobs :
      (s : JobRegistryInner V) (x : Removal)
      → (remove_one x s).jobs
        ≡ elim (get x.0 s.jobs) [ none ↦ s.jobs | some job ↦ remove x.0 s.jobs ]
  unfolding remove_one
  remove_one-jobs s x = elim (Option-cases (get x.0 s.jobs)) [
    | inl e ↦ ground arith
    | inr (job, e) ↦ elim (Option-cases job.idempotency_key) [
      | inl f ↦ ground arith
      | inr (k, f) ↦ ground arith
    ]
  ]

  -- Another job is left alone.
  pub remove_one-look :
      (s : JobRegistryInner V) (x : Removal) (k : String)
      → ((x.0 ≡ k) × (get k (remove_one x s).jobs ≡ none))
        ⊎ (get k (remove_one x s).jobs ≡ get k s.jobs)
  remove_one-look s x k =
      ground (arith, remove_one-jobs s x, get-remove x.0 k s.jobs, string_beq_iff x.0 k)

  -- What was removable stays so.
  remove_one-Removable :
      (s : JobRegistryInner V) (x y : Removal) → Removable s y → Removable (remove_one x s) y
  remove_one-Removable s x y (inl e) = elim (remove_one-look s x y.0) [
    | inl (_, gone) ↦ inl gone
    | inr kept ↦ inl (kept ∙ e)
  ]
  remove_one-Removable s x y (inr (job, at, same, done)) = elim (remove_one-look s x y.0) [
    | inl (_, gone) ↦ inl gone
    | inr kept ↦ inr (job, kept ∙ at, same, done)
  ]

  pub remove_one-All :
      (s : JobRegistryInner V) (x : Removal) (ys : List Removal)
      → All (Removable s) ys
      → All (Removable (remove_one x s)) ys
  remove_one-All s x [] h = tt
  remove_one-All s x (y ∷ ys) h = (remove_one-Removable s x y h.0, remove_one-All s x ys h.1)

  remove_all-IsValid :
      (xs : List Removal) (s : JobRegistryInner V) (report : JobPruneReport)
      → IsValid (retain_known s)
      → All (Removable s) xs
      → IsValid (retain_known (remove_all xs s report).0)
  unfolding remove_all
  remove_all-IsValid [] s report v h = v
  remove_all-IsValid (x ∷ xs) s report v h =
      remove_all-IsValid xs (remove_one x s) _ (removal-IsValid s x v h.0)
        (remove_one-All s x xs h.1)

  -- A chosen job is a finished one, under its own id.
  chosen_one :
      (now : ℕ) (policy : JobRetentionPolicy) (s : JobRegistryInner V)
      → IsValid s
      → (id : String) (job : JobRecord V) → get id s.jobs ≡ some job
      → is_due now policy job ≡ true
      → Removable s (removal job)
  unfolding is_due
  chosen_one now policy s v id job at due =
      inr (job, ap (λ k. get k s.jobs) (v.named id job at) ∙ at, refl, ground arith)

  -- Only finished jobs are chosen.
  pub select-Removable :
      (now : ℕ) (policy : JobRetentionPolicy) (s : JobRegistryInner V)
      → IsValid s
      → All (Removable s) (select now policy s s.order [] 0).0
  select-Removable now policy s v =
      select-rule now policy s (All (Removable s))
        (λ id job at due free chosen room h.
          All-append (Removable s) chosen (removal job ∷ []) h
            (chosen_one now policy s v id job at due, tt))
        s.order [] 0 tt

  -- Before anything is removed, every id of the order is known.
  retain-IsValid : (s : JobRegistryInner V) → IsValid s → IsValid (retain_known s)
  unfolding contains_key
  retain-IsValid s v = record {
    named = v.named;
    valid = v.valid;
    queued_once = v.queued_once;
    ordered_once =
        λ k. ground (arith, count-filter k (contains_key s.jobs) s.order, v.ordered_once k);
    keyed = v.keyed;
    keys_known = v.keys_known;
    fresh = v.fresh;
    unique = v.unique;
  }

  pub prune_terminal-IsValid :
      (now : ℕ) (policy : JobRetentionPolicy) (s : JobRegistryInner V)
      → IsValid s
      → IsValid (prune_terminal_jobs_locked now policy s).0
  unfolding prune_terminal_jobs_locked
  prune_terminal-IsValid now policy s v =
      remove_all-IsValid _ s _ (retain-IsValid s v) (select-Removable now policy s v)

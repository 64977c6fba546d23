-- ===== src/Jobs/Valid/Submit.antt =====
-- A new job gets an id that no job has, so entering it keeps the registry valid.
use fairlead.Base.{
  false, ℕ, ◌+◌, ◌<◌, String, Option, none, some, [], ◌∷◌, ◌++◌, ◌≡◌, refl, ◌==◌, count,
  count-append, string_eq, string_beq_iff, Bool-cases, Option-cases, subst, inl, inr, u64,
  option_beq, option_beq_iff, if◌then◌else◌, arith,
}
use text.Mathlib.TextLemmas.{append_cancel_left}
use fairlead.Base.Decimal.{to_decimal-injective}
use fairlead.Base.Text.{to_decimal}
use fairlead.Base.Maps.{get, insert, get-insert, insert-Unique}
use fairlead.Config.{Priority}
use fairlead.Jobs.Types.{JobRecord, JobRegistryInner, SubmitJobRequest}
use fairlead.Jobs.Queues.{for_priority, push_back, count-push_back}
use fairlead.Jobs.Submit.{job_id, fresh_id, new_job, existing_for_key, accept_new}
use fairlead.Jobs.Valid.{JobIsValid, IsValid, slots, present}

-- Different numbers make different ids.
job_id-injective : (m n : ℕ) → job_id m ≡ job_id n → m ≡ n
unfolding job_id
job_id-injective m n h =
    to_decimal-injective m n (append_cancel_left "job-" (to_decimal m) (to_decimal n) h)

-- What a key points at after `id` has been entered under `key`.
abbrev owner : Option String → String → String → Option String → Option String
owner none id k old = old
owner (some j) id k old = if j == k then some id else old

module _ {V : Type 0} where
  new_job-JobIsValid :
      (now : ℕ) (id : String) (request : SubmitJobRequest V) (url key : Option String)
      → JobIsValid (new_job now id request url key)
  unfolding new_job
  new_job-JobIsValid now id request url key = ground arith

  module _ {s : JobRegistryInner V} (v : IsValid s) (now : ℕ) (request : SubmitJobRequest V)
      (url key : Option String) (free : existing_for_key s key ≡ none)
      (room : s.next_id + 1 < 18446744073709551616) where
    pub unused : get (fresh_id s) s.jobs ≡ none
    unused = v.fresh (u64 (s.next_id + 1)) (omega arith)

    -- A key that answers for no job is not in the map of keys at all.
    key_free : (k : String) → key ≡ some k → get k s.idempotency_keys ≡ none
    key_free k e = elim (Option-cases (get k s.idempotency_keys)) [
      | inl f ↦ f
      | inr (id, f) ↦ let (job, at, _) = v.keyed k id f in absurd (ground arith)
    ]

    abbrev pub added : JobRecord V
    added = new_job now (fresh_id s) request url key

    abbrev pub after : JobRegistryInner V
    after = accept_new now request url key s

    pub jobs_after : after.jobs ≡ insert (fresh_id s) added s.jobs
    unfolding accept_new new_job
    jobs_after = ground arith

    queues_after : after.queues ≡ push_back request.priority (fresh_id s) s.queues
    unfolding accept_new new_job
    queues_after = ground arith

    order_after : after.order ≡ s.order ++ fresh_id s ∷ []
    unfolding accept_new new_job
    order_after = ground arith

    next_after : after.next_id ≡ s.next_id + 1
    unfolding accept_new
    next_after = ground arith

    key_after : added.idempotency_key ≡ key
    unfolding new_job
    key_after = refl

    keys_after :
        (k : String)
        → get k after.idempotency_keys ≡ owner key (fresh_id s) k (get k s.idempotency_keys)
    unfolding accept_new new_job
    keys_after k = elim (Option-cases key) [
      | inl e ↦ ground arith
      | inr (j, e) ↦ ground (arith, key_free j e, get-insert j k (fresh_id s) s.idempotency_keys)
    ]

    -- Keys that were there keep their job, and the new key has the new one.
    kept :
        (k i : String) → get k s.idempotency_keys ≡ some i → get k after.idempotency_keys ≡ some i
    kept k i h = elim (Option-cases key) [
      | inl e ↦ ground (arith, keys_after k)
      | inr (j, e) ↦ ground (arith, keys_after k, string_beq_iff j k, key_free k)
    ]

    entered : (k : String) → key ≡ some k → get k after.idempotency_keys ≡ some (fresh_id s)
    entered k e = ground (arith, keys_after k, string_beq_iff k k)

    pub accept_new-get :
        (k : String) → get k after.jobs ≡ (if fresh_id s == k then some added else get k s.jobs)
    accept_new-get k = rw jobs_after (get-insert (fresh_id s) k added s.jobs)

    named' : (k : String) (x : JobRecord V) → get k after.jobs ≡ some x → x.id ≡ k
    unfolding new_job
    named' k x h = ground (arith, accept_new-get k, string_beq_iff (fresh_id s) k, v.named k x)

    valid' : (k : String) (x : JobRecord V) → get k after.jobs ≡ some x → JobIsValid x
    valid' k x h = elim (Bool-cases (fresh_id s == k)) [
      | inl e ↦
          subst (λ y. JobIsValid y) (ground (arith, accept_new-get k))
            (new_job-JobIsValid now (fresh_id s) request url key)
      | inr e ↦ v.valid k x (ground (arith, accept_new-get k))
    ]

    queued_once' :
        (p : Priority) (k : String)
        → count k (for_priority p after.queues) ≡ slots p (get k after.jobs)
    unfolding new_job
    queued_once' p k = rw queues_after (
        ground (
          arith,
          accept_new-get k,
          unused,
          count-push_back request.priority p (fresh_id s) k s.queues,
          v.queued_once p k,
          string_beq_iff (fresh_id s) k,
        ))

    ordered_once' : (k : String) → count k after.order ≡ present (get k after.jobs)
    ordered_once' k = rw order_after (
        ground (
          arith,
          accept_new-get k,
          unused,
          count-append k s.order (fresh_id s ∷ []),
          v.ordered_once k,
          string_beq_iff (fresh_id s) k,
        ))

    old_owner :
        (k i : String)
        → option_beq key (some k) ≡ false
        → get k after.idempotency_keys ≡ some i
        → get k s.idempotency_keys ≡ some i
    old_owner k i e h = elim (Option-cases key) [
      | inl f ↦ ground (arith, keys_after k)
      | inr (j, f) ↦ ground (arith, keys_after k)
    ]

    keyed' :
        (k i : String)
        → get k after.idempotency_keys ≡ some i
        → (x : JobRecord V) × (get i after.jobs ≡ some x) × (x.idempotency_key ≡ some k)
    keyed' k i h = elim (Bool-cases (option_beq key (some k))) [
      | inl e ↦ (
        added,
        ground (
          arith,
          accept_new-get i,
          string_beq_iff (fresh_id s) i,
          entered k,
          option_beq_iff key (some k),
        ),
        ground (arith, key_after, option_beq_iff key (some k)),
      )
      | inr e ↦
          let (x, at, own) = v.keyed k i (old_owner k i e h) in
          (x, ground (arith, accept_new-get i, string_beq_iff (fresh_id s) i, unused), own)
    ]

    keys_known' :
        (k i : String) (x : JobRecord V)
        → get i after.jobs ≡ some x
        → x.idempotency_key ≡ some k
        → get k after.idempotency_keys ≡ some i
    keys_known' k i x h e = elim (Bool-cases (fresh_id s == i)) [
      | inl f ↦
          ground (arith, accept_new-get i, key_after, entered k, string_beq_iff (fresh_id s) i)
      | inr f ↦ kept k i (v.keys_known k i x (ground (arith, accept_new-get i)) e)
    ]

    fresh' : (n : ℕ) → after.next_id < n → get (job_id n) after.jobs ≡ none
    fresh' n h = ground (
      arith,
      next_after,
      accept_new-get (job_id n),
      v.fresh n,
      string_beq_iff (fresh_id s) (job_id n),
      job_id-injective (u64 (s.next_id + 1)) n,
    )

    pub accept_new-IsValid : IsValid after
    unfolding accept_new
    accept_new-IsValid = record {
      named = named';
      valid = valid';
      queued_once = queued_once';
      ordered_once = ordered_once';
      keyed = keyed';
      keys_known = keys_known';
      fresh = fresh';
      unique = rw jobs_after (insert-Unique (fresh_id s) added s.jobs v.unique);
    }

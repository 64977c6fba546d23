-- ===== src/Jobs/Outcomes/Submit.antt =====
-- src/jobs.rs: how a submission is answered, spelled out.
use fairlead.Base.{
  true, false, ℕ, ◌+◌, String, Option, none, some, [], ◌∷◌, ◌++◌, ◌==◌, Result, ok, err, Eq, ◌≡◌,
  ◌≢◌, refl, sym, ap, ◌∙◌, subst, u64, string_eq, string_beq_iff, option_eq, option_beq_iff,
  Bool-cases, Option-cases, arith, inl, inr,
}
use fairlead.Base.Maps.{get, get-insert, get-remove}
use fairlead.Config.{priority_eq, priority_beq_iff}
use fairlead.Jobs.Types.{
  JobRecord, JobRegistryInner, JobStatus, SubmitJobRequest, kind_eq, kind_beq_iff,
}
use fairlead.Jobs.Store.{JobRegistry}
use fairlead.Jobs.Queues.{for_priority, push_back}
use fairlead.Jobs.Submit.{
  accept_new, drop_dangling, enqueue_new, existing_for_key, fresh_id, job_id, keys_with, new_job,
  normalize_callback_url, normalize_idempotency_key, same_request, submit,
}
use fairlead.Jobs.Effects.Submit.{Submits, submit_exact}
use fairlead.Jobs.Outcomes.{Joins, for-push_back, insert-here, insert-others}

module _ {V : Type 0} where
  -- The key is that of a job which the registry still has.
  abbrev pub Known : JobRegistryInner V → Option String → JobRecord V → Type 0
  Known s key job =
      (k : String) × (id : String) × (key ≡ some k)
      × (get k s.idempotency_keys ≡ some id)
      × (get id s.jobs ≡ some job)

  -- The job and the request agree in kind, priority, payload and callback URL.
  abbrev pub Agree : JobRecord V → SubmitJobRequest V → Option String → Type 0
  Agree job request url =
      (job.kind ≡ request.kind)
      × (job.priority ≡ request.priority)
      × (job.payload ≡ request.payload)
      × (job.callback_url ≡ url)

  pub existing-Known :
      (s : JobRegistryInner V) (key : Option String) (job : JobRecord V)
      → existing_for_key s key ≡ some job
      → Known s key job
  existing-Known s none job h = absurd (cc h)
  existing-Known s (some k) job h = elim (Option-cases (get k s.idempotency_keys)) [
    | inl e ↦ absurd (ground arith)
    | inr (id, e) ↦ (k, id, refl, e, ground arith)
  ]

  pub Known-existing :
      (s : JobRegistryInner V) (key : Option String) (job : JobRecord V)
      → Known s key job
      → existing_for_key s key ≡ some job
  Known-existing s key job (k, id, e, f, g) = rw (e, f, g) refl

module _ {V : Type 0} ⦃q : Eq V⦄ where
  same_request-Agree :
      (job : JobRecord V) (request : SubmitJobRequest V) (url : Option String)
      → same_request job request url ≡ true
      → Agree job request url
  unfolding same_request
  same_request-Agree job request url h = (
    ground (arith, h, kind_beq_iff job.kind request.kind),
    ground (arith, h, priority_beq_iff job.priority request.priority),
    ground (arith, h, q.beq_iff job.payload request.payload),
    ground (arith, h, option_beq_iff job.callback_url url),
  )

  pub Agree-same_request :
      (job : JobRecord V) (request : SubmitJobRequest V) (url : Option String)
      → Agree job request url
      → same_request job request url ≡ true
  unfolding same_request
  Agree-same_request job request url (a, b, c, d) = ground (
    arith,
    a,
    b,
    c,
    d,
    kind_beq_iff job.kind request.kind,
    priority_beq_iff job.priority request.priority,
    q.beq_iff job.payload request.payload,
    option_beq_iff job.callback_url url,
  )

module _ {V : Type 0} where
  -- The keys after a job was entered: its own key names it, every other names what it named before.
  abbrev pub KeyAdded : Option String → String → JobRegistryInner V → JobRegistryInner V → Type 0
  KeyAdded key id s s' =
      (k : String)
      → ((key ≡ some k) → get k s'.idempotency_keys ≡ some id)
        × ((key ≢ some k) → get k s'.idempotency_keys ≡ get k s.idempotency_keys)

  -- A job stands in the map, at the end of the order and of its queue, and under its key.
  pub record Enters (id : String) (job : JobRecord V) (s s' : JobRegistryInner V) : Type 0 where
    pub here : get id s'.jobs ≡ some job
    pub others : (k : String) → id ≢ k → get k s'.jobs ≡ get k s.jobs
    pub order : s'.order ≡ s.order ++ id ∷ []
    pub next_id : s'.next_id ≡ u64 (s.next_id + 1)
    pub queue : Joins job.priority id s s'
    pub keys : KeyAdded job.idempotency_key id s s'

  -- A key that points at no record may be dropped before it is given to the new job.
  dropped-keys :
      (s : JobRegistryInner V) (k j : String)
      → (k == j) ≡ false
      → get j (drop_dangling s (some k)).idempotency_keys ≡ get j s.idempotency_keys
  dropped-keys s k j h = elim (Option-cases (get k s.idempotency_keys)) [
    | inl e ↦ rw (e, drop_dangling) refl
    | inr (id, e) ↦ rw (e, drop_dangling) (get-remove k j s.idempotency_keys ∙ rw h refl)
  ]

  dropped-rest :
      (s : JobRegistryInner V) (key : Option String)
      → ((drop_dangling s key).jobs ≡ s.jobs)
        × ((drop_dangling s key).order ≡ s.order)
        × ((drop_dangling s key).queues ≡ s.queues)
        × ((drop_dangling s key).next_id ≡ s.next_id)
  dropped-rest s none = (refl, refl, refl, refl)
  dropped-rest s (some k) = elim (Option-cases (get k s.idempotency_keys)) [
    | inl e ↦ rw (e, drop_dangling) (refl, refl, refl, refl)
    | inr (id, e) ↦ rw (e, drop_dangling) (refl, refl, refl, refl)
  ]

  keys-KeyAdded :
      (key : Option String) (id : String) (s t u : JobRegistryInner V)
      → t.idempotency_keys ≡ (drop_dangling s key).idempotency_keys
      → u.idempotency_keys ≡ (keys_with key id t).idempotency_keys
      → KeyAdded key id s u
  keys-KeyAdded none id s t u dropped e k = ((λ h. absurd (cc h)), (λ h. ap (get k) (e ∙ dropped)))
  keys-KeyAdded (some j) id s t u dropped e k =
      let look = ap (get k) e ∙ get-insert j k id t.idempotency_keys in
      (
        (λ h. let same : j ≡ k = cc h in look ∙ rw ((string_beq_iff j k).1 same) refl),
        (λ h. elim (Bool-cases (j == k)) [
          | inl y ↦ absurd (h (ap some ((string_beq_iff j k).0 y)))
          | inr n ↦ look ∙ rw n (ap (get k) dropped ∙ dropped-keys s j k n)
        ]),
      )

  keys_with-rest :
      (key : Option String) (id : String) (t : JobRegistryInner V)
      → ((keys_with key id t).jobs ≡ t.jobs)
        × ((keys_with key id t).order ≡ t.order)
        × ((keys_with key id t).queues ≡ t.queues)
        × ((keys_with key id t).next_id ≡ t.next_id)
  keys_with-rest none id t = (refl, refl, refl, refl)
  keys_with-rest (some k) id t = (refl, refl, refl, refl)

  enqueue_new-Enters :
      (s t : JobRegistryInner V) (job : JobRecord V)
      → t.jobs ≡ s.jobs
      → t.order ≡ s.order
      → t.queues ≡ s.queues
      → t.next_id ≡ u64 (s.next_id + 1)
      → t.idempotency_keys ≡ (drop_dangling s job.idempotency_key).idempotency_keys
      → Enters job.id job s (enqueue_new job t)
  unfolding enqueue_new
  enqueue_new-Enters s t job jobs order queues next keys =
      let rest = keys_with-rest job.idempotency_key job.id t in
      let keyed = keys_with job.idempotency_key job.id t in
      record {
        here = insert-here job.id job keyed;
        others = λ k other. insert-others job.id job keyed k other ∙ ap (get k) (rest.0 ∙ jobs);
        order = ap (λ xs. xs ++ job.id ∷ []) (rest.1 ∙ order);
        next_id = rest.3 ∙ next;
        queue = λ queue.
            ap (λ x. for_priority queue (push_back job.priority job.id x)) (rest.2 ∙ queues)
            ∙ for-push_back job.priority queue job.id s.queues;
        keys = keys-KeyAdded job.idempotency_key job.id s t (enqueue_new job t) keys refl;
      }

  accept_new-Enters :
      (now : ℕ) (request : SubmitJobRequest V) (url key : Option String) (s : JobRegistryInner V)
      → Enters
          (fresh_id s)
          (new_job now (fresh_id s) request url key)
          s
          (accept_new now request url key s)
  unfolding accept_new new_job
  accept_new-Enters now request url key s =
      let dropped = drop_dangling s key in
      let rest = dropped-rest s key in
      enqueue_new-Enters s (record dropped { next_id = u64 (dropped.next_id + 1) })
        (new_job now (fresh_id s) request url key) rest.0 rest.1 rest.2
        (ap (λ n. u64 (n + 1)) rest.3) refl

module _ {V : Type 0} ⦃q : Eq V⦄ (now : ℕ) (r : JobRegistry V) (request : SubmitJobRequest V)
    (p : JobRegistry V × Result String (JobRecord V)) where
  pub data SubmitAnswer : Type 0 where
    invalid_url :
        (message : String)
        → normalize_callback_url request.callback_url ≡ err message
        → p ≡ (r, err message)
        → SubmitAnswer
    invalid_key :
        (message : String)
        → normalize_idempotency_key request.idempotency_key ≡ err message
        → p ≡ (r, err message)
        → SubmitAnswer
    repeated :
        (url key : Option String) (job : JobRecord V)
        → normalize_callback_url request.callback_url ≡ ok url
        → normalize_idempotency_key request.idempotency_key ≡ ok key
        → Known r.inner key job
        → Agree job request url
        → p ≡ (r, ok job)
        → SubmitAnswer
    clash :
        (url key : Option String) (job : JobRecord V)
        → normalize_callback_url request.callback_url ≡ ok url
        → normalize_idempotency_key request.idempotency_key ≡ ok key
        → Known r.inner key job
        → ¬ Agree job request url
        → p ≡ (r, err "idempotency_key already used for a different job request")
        → SubmitAnswer
    accepted :
        (url key : Option String) (id : String) (job : JobRecord V)
        → normalize_callback_url request.callback_url ≡ ok url
        → normalize_idempotency_key request.idempotency_key ≡ ok key
        → ((old : JobRecord V) → ¬ Known r.inner key old)
        → id ≡ job_id (u64 (r.inner.next_id + 1))
        → job ≡ record {
          id = id;
          kind = request.kind;
          priority = request.priority;
          status = JobStatus.queued;
          payload = request.payload;
          callback_url = url;
          idempotency_key = key;
          result = none;
          error = none;
          callback = none;
          attempts = 0;
          max_attempts = 3;
          lease = none;
          terminal_attempt = none;
          created_at_unix_ms = now;
          updated_at_unix_ms = now;
        }
        → Enters id job r.inner p.0.inner
        → p.0.store ≡ r.store
        → p.0.retention_policy ≡ r.retention_policy
        → p.1 ≡ ok job
        → SubmitAnswer

module _ {V : Type 0} ⦃q : Eq V⦄ (now : ℕ) (r : JobRegistry V) (request : SubmitJobRequest V) where
  -- How a submission is answered. A URL or a key that is not well formed is refused. A request whose key
  -- names a job that is still there gets that job if kind, priority, payload and callback URL agree, and
  -- is refused if they do not. Any other request makes a new queued job with the next id, which stands in
  -- the map, at the end of the order and of the queue of its priority, and under its key. Only this
  -- changes the registry, which has no store.
  pub submit_answered :
      (fault : Option String)
      → r.store ≡ none
      → SubmitAnswer now r request (submit fault now r request)
  unfolding new_job
  submit_answered fault mem = elim (submit_exact now r request fault mem) [
    | Submits.invalid_url message e out ↦ SubmitAnswer.invalid_url message e out
    | Submits.invalid_key url message e f out ↦ SubmitAnswer.invalid_key message f out
    | Submits.repeated url key job e f g same out ↦
        SubmitAnswer.repeated url key job e f (existing-Known r.inner key job g)
          (same_request-Agree job request url same) out
    | Submits.clash url key job e f g other out ↦
        SubmitAnswer.clash url key job e f (existing-Known r.inner key job g)
          (λ agree. absurd (cc (sym other ∙ Agree-same_request job request url agree))) out
    | Submits.accepted url key e f g out ↦
        SubmitAnswer.accepted url key (fresh_id r.inner)
          (new_job now (fresh_id r.inner) request url key) e f
          (λ old known. absurd (cc (sym g ∙ Known-existing r.inner key old known))) refl refl
          (subst
            (λ x.
              Enters (fresh_id r.inner) (new_job now (fresh_id r.inner) request url key) r.inner
                x.0.inner)
            (sym out) (accept_new-Enters now request url key r.inner))
          (ap (λ x. x.0.store) out) (ap (λ x. x.0.retention_policy) out) (ap (λ x. x.1) out)
  ]

-- ===== src/Jobs/Effects/Submit.antt =====
-- src/jobs.rs: how a submission is answered, in a registry without a store.
use fairlead.Base.{
  true, false, ℕ, String, Option, none, some, Result, ok, err, Eq, ◌≡◌, refl, Bool-cases,
  Option-cases, Result-cases, string_eq, option_eq, arith, inl, inr,
}
use fairlead.Config.{priority_eq}
use fairlead.Jobs.Types.{JobRecord, SubmitJobRequest, kind_eq}
use fairlead.Jobs.Store.{JobRegistry, settle_memory}
use fairlead.Jobs.Submit.{
  normalize_callback_url, normalize_idempotency_key, existing_for_key, same_request, accept_new,
  new_job, fresh_id, submit_normalized, submit,
}

module _ {V : Type 0} ⦃q : Eq V⦄ (now : ℕ) (r : JobRegistry V) (request : SubmitJobRequest V) where
  pub data Submits (p : JobRegistry V × Result String (JobRecord V)) : Type 0 where
    invalid_url :
        (message : String)
        → normalize_callback_url request.callback_url ≡ err message
        → p ≡ (r, err message)
        → Submits p
    invalid_key :
        (url : Option String) (message : String)
        → normalize_callback_url request.callback_url ≡ ok url
        → normalize_idempotency_key request.idempotency_key ≡ err message
        → p ≡ (r, err message)
        → Submits p
    repeated :
        (url key : Option String) (job : JobRecord V)
        → normalize_callback_url request.callback_url ≡ ok url
        → normalize_idempotency_key request.idempotency_key ≡ ok key
        → existing_for_key r.inner key ≡ some job
        → same_request job request url ≡ true
        → p ≡ (r, ok job)
        → Submits p
    clash :
        (url key : Option String) (job : JobRecord V)
        → normalize_callback_url request.callback_url ≡ ok url
        → normalize_idempotency_key request.idempotency_key ≡ ok key
        → existing_for_key r.inner key ≡ some job
        → same_request job request url ≡ false
        → p ≡ (r, err "idempotency_key already used for a different job request")
        → Submits p
    accepted :
        (url key : Option String)
        → normalize_callback_url request.callback_url ≡ ok url
        → normalize_idempotency_key request.idempotency_key ≡ ok key
        → existing_for_key r.inner key ≡ none
        → p ≡ (
          record r { inner = accept_new now request url key r.inner },
          ok (new_job now (fresh_id r.inner) request url key),
        )
        → Submits p

  -- How a submission is answered: an invalid request is refused; a request whose key is known gets the
  -- job of that key if it is the same request, and is refused if it is not; any other request makes a
  -- new job. Only the last case changes the registry, which has no store.
  pub submit_exact : (fault : Option String) → r.store ≡ none → Submits (submit fault now r request)
  unfolding submit submit_normalized
  submit_exact fault mem = elim (Result-cases (normalize_callback_url request.callback_url)) [
    | inr (message, e) ↦ invalid_url message e (ground arith)
    | inl (url, e) ↦ elim (Result-cases (normalize_idempotency_key request.idempotency_key)) [
      | inr (message, f) ↦ invalid_key url message e f (ground arith)
      | inl (key, f) ↦ elim (Option-cases (existing_for_key r.inner key)) [
        | inl g ↦
            accepted url key e f g
              (rw (e, f, g, submit, submit_normalized) (settle_memory fault _ _ _ mem))
        | inr (job, g) ↦ elim (Bool-cases (same_request job request url)) [
          | inl same ↦
              repeated url key job e f g same (rw (e, f, g, same, submit, submit_normalized) refl)
          | inr other ↦
              clash url key job e f g other (rw (e, f, g, other, submit, submit_normalized) refl)
        ]
      ]
    ]
  ]

module _ {V : Type 0} ⦃q : Eq V⦄ where
  pub repeat_kept :
      (now : ℕ) (fault : Option String) (r : JobRegistry V) (request : SubmitJobRequest V)
      (url key : Option String) (job : JobRecord V)
      → normalize_callback_url request.callback_url ≡ ok url
      → normalize_idempotency_key request.idempotency_key ≡ ok key
      → existing_for_key r.inner key ≡ some job
      → same_request job request url ≡ true
      → submit fault now r request ≡ (r, ok job)
  unfolding submit submit_normalized
  repeat_kept now fault r request url key job e f g same =
      rw (e, f, g, same, submit, submit_normalized) refl

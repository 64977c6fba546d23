-- ===== src/Callbacks/Marks.antt =====
-- src/callbacks.rs, src/jobs.rs: what the marks on a job record before and after a post.
use fairlead.Base.{
  ℕ, Bool, true, false, String, Option, none, some, ◌||◌, not, ◌≡◌, ◌⊎◌, ◌∙◌, refl, sym, ap,
  Bool-cases, Option-cases, inl, inr, string_beq_iff, arith,
}
use fairlead.Base.Maps.{is_some, get, get-insert}
use fairlead.Jobs.Callbacks.{
  record_success, begin_attempt, begin_callback_attempt, record_callback_success, was_delivered,
  begun, succeeded,
}
use fairlead.Jobs.Store.{JobRegistry, persist_locked, put_job, settle, settle-cases, settle-inner}
use fairlead.Jobs.Types.{JobCallbackState, JobRecord, is_delivered, is_terminal}

module _ {V : Type 0} where
  -- The callback of a job was delivered, as far as the registry in memory knows.
  abbrev pub done_in : Option (JobRecord V) → Bool
  done_in none = false
  done_in (some job) = was_delivered job.callback

  abbrev pub is_done : String → JobRegistry V → Bool
  is_done id r = done_in (get id r.inner.jobs)

  -- A delivered callback is not begun again.
  pub begin-done :
      (fault : Option String) (now : ℕ) (r : JobRegistry V) (id : String)
      → is_done id r ≡ true
      → begin_callback_attempt fault now r id ≡ (r, none)
  unfolding begin_callback_attempt begin_attempt
  begin-done fault now r id h = ground arith

  begin_attempt-cases :
      (fault : Option String) (now : ℕ) (r : JobRegistry V) (id : String) (j : JobRecord V)
      → (begin_attempt fault now r id j ≡ (r, none))
        ⊎ ((c : JobCallbackState) × (begin_attempt fault now r id j
              ≡ settle
                  (persist_locked fault (put_job r id (record j { callback = some (begun now c) })))
                  (some (record j { callback = some (begun now c) }))
                  (λ m. none)))
  unfolding begin_attempt
  begin_attempt-cases fault now r id j =
      elim (Bool-cases (not (is_some j.callback_url) || not (is_terminal j.status))) [
        | inl e ↦ inl (rw e refl)
        | inr e ↦ elim (Option-cases j.callback) [
          | inl f ↦ inl (rw (e, f, begin_attempt) refl)
          | inr (c, f) ↦ elim (Bool-cases (is_delivered c.status)) [
            | inl g ↦ inl (rw (e, f, g, begin_attempt) refl)
            | inr g ↦ inr (c, rw (e, f, g, begin_attempt) refl)
          ]
        ]
      ]

  none-some : (job : JobRecord V) → none ≡ some job → ⊥
  none-some job h = absurd (cc h)

  some-some : (a b : JobRecord V) → some a ≡ some b → a ≡ b
  some-some a b h = cc h

  -- A job that was begun has a callback, and stands in the registry.
  pub begin-some :
      (fault : Option String) (now : ℕ) (r : JobRegistry V) (id : String) (job : JobRecord V)
      → (begin_callback_attempt fault now r id).1 ≡ some job
      → (get id (begin_callback_attempt fault now r id).0.inner.jobs ≡ some job)
        × ((c : JobCallbackState) × (job.callback ≡ some c))
  unfolding begin_callback_attempt begin_attempt
  begin-some fault now r id job h =
      let run = begin_callback_attempt fault now r id in
      elim (Option-cases (get id r.inner.jobs)) [
        | inl e ↦
            let out : run ≡ (r, none) = rw (e, begin_callback_attempt) refl in
            absurd (none-some job (sym (ap (λ x. x.1) out) ∙ h))
        | inr (j, e) ↦
            let at_j : run ≡ begin_attempt fault now r id j = rw (e, begin_callback_attempt) refl in
            elim (begin_attempt-cases fault now r id j) [
              | inl out ↦ absurd (none-some job (sym (ap (λ x. x.1) (at_j ∙ out)) ∙ h))
              | inr (c, out) ↦
                  let j' : JobRecord V = record j { callback = some (begun now c) } in
                  let saved = persist_locked fault (put_job r id j') in
                  let inner : run.0.inner ≡ (put_job r id j').inner =
                    ap (λ x. x.0.inner) (at_j ∙ out)
                    ∙ settle-inner fault (put_job r id j') (some j') (λ m. none) in
                  elim (settle-cases saved (some j') (λ m. none)) [
                    | inr (m, bad) ↦
                        absurd (none-some job (sym (ap (λ x. x.1) (at_j ∙ out) ∙ bad) ∙ h))
                    | inl good ↦
                        let same : job ≡ j' =
                          some-some job j' (sym h ∙ ap (λ x. x.1) (at_j ∙ out) ∙ good) in
                        (
                          ap (λ i. get id i.jobs) inner
                              ∙ get-insert id id j' r.inner.jobs
                              ∙ rw ((string_beq_iff id id).1 refl) (ap some (sym same)),
                          (begun now c, ap (λ x. x.callback) same),
                        )
                  ]
            ]
      ]

  record_success-at :
      (fault : Option String) (now : ℕ) (r : JobRegistry V) (id : String) (status : ℕ)
      (job : JobRecord V) (c : JobCallbackState)
      → job.callback ≡ some c
      → record_success fault now r id status job
        ≡ settle
            (persist_locked fault
              (put_job r id (record job { callback = some (succeeded now status c) })))
            (some (record job { callback = some (succeeded now status c) }))
            (λ m. none)
  unfolding record_success
  record_success-at fault now r id status job c called =
      ap
        (λ o. elim o as (λ x. JobRegistry V × Option (JobRecord V)) [
          | none ↦ (r, none)
          | some callback ↦
              settle
                (persist_locked fault
                  (put_job r id (record job { callback = some (succeeded now status callback) })))
                (some (record job { callback = some (succeeded now status callback) })) (λ m. none)
        ])
        called

  pub success-done :
      (fault : Option String) (now : ℕ) (r : JobRegistry V) (id : String) (status : ℕ)
      (job : JobRecord V) (c : JobCallbackState)
      → get id r.inner.jobs ≡ some job
      → job.callback ≡ some c
      → is_done id (record_callback_success fault now r id status).0 ≡ true
  unfolding record_callback_success record_success
  success-done fault now r id status job c at called =
      let j' : JobRecord V = record job { callback = some (succeeded now status c) } in
      let out : record_callback_success fault now r id status
          ≡ settle (persist_locked fault (put_job r id j')) (some j') (λ m. none) =
        rw (at, record_callback_success) (record_success-at fault now r id status job c called) in
      let inner : (record_callback_success fault now r id status).0.inner
          ≡ (put_job r id j').inner =
        ap (λ x. x.0.inner) out ∙ settle-inner fault (put_job r id j') (some j') (λ m. none) in
      ap (λ i. done_in (get id i.jobs)) inner
      ∙ ap done_in (get-insert id id j' r.inner.jobs)
      ∙ rw ((string_beq_iff id id).1 refl) refl

-- ===== src/Callbacks/Delivery.antt =====
-- src/callbacks.rs: how often a callback is posted.
use fairlead.Base.{
  ℕ, ◌+◌, ◌≤◌, ◌<◌, zero, suc, Bool, true, false, String, Option, none, some, [], ◌∷◌, ◌++◌, ◌≡◌,
  ◌∙◌, refl, sym, ap, subst, length, length-append, ltb, Bool-cases, inl, inr, if◌then◌else◌, arith,
}
use fairlead.Base.Maps.{get}
use fairlead.Callbacks.{
  CallbackPolicy, DeliveryState, PostResult, attempt, deliver, deliver_callback, post_to,
  record_answer, succeeds, responded, failed, timed_out, is_success,
}
use fairlead.Callbacks.Marks.{begin-done, begin-some, success-done, is_done}
use fairlead.Jobs.Callbacks.{begin_callback_attempt}
use fairlead.Jobs.Store.{JobRegistry}
use fairlead.Jobs.Types.{JobCallbackState, JobRecord}

false-true : false ≡ true → ⊥
false-true h = absurd (cc h)

module _ {V : Type 0} (post : ℕ → PostResult) (times : ℕ → ℕ × ℕ)
    (faults : ℕ → Option String × Option String) (job_id : String) where
  -- What one round of the loop does: it stops, or posts once, and after a success nothing is due.
  data Attempted (s : DeliveryState V) : DeliveryState V × Bool → Type 0 where
    stopped : (s' : DeliveryState V) → s'.posts ≡ s.posts → Attempted s (s', false)
    posted :
        (s' : DeliveryState V) (more : Bool) (x : String × JobRecord V)
        → s'.posts ≡ s.posts ++ x ∷ []
        → (succeeds (post (length s.posts)) ≡ true
            → (more ≡ false) × (is_done job_id s'.jobs ≡ true))
        → Attempted s (s', more)

  record_answer-Attempted :
      (s s' : DeliveryState V) (job : JobRecord V) (x : String × JobRecord V) (answer : PostResult)
      (c : JobCallbackState)
      → post (length s.posts) ≡ answer
      → s'.posts ≡ s.posts ++ x ∷ []
      → get job_id s'.jobs.inner.jobs ≡ some job
      → job.callback ≡ some c
      → Attempted s (record_answer post times faults job_id (length s.posts) job answer s')
  unfolding record_answer
  record_answer-Attempted s s' job x (responded status) c got sent at called =
      elim (Bool-cases (is_success status)) [
        | inl e ↦
            rw (e, record_answer)
              (Attempted.posted _ false x sent (λ h. (
                refl,
                success-done (faults (length s.posts)).1 (times (length s.posts)).1 s'.jobs job_id
                    status job c at called,
              )))
        | inr e ↦
            rw (e, record_answer)
              (Attempted.posted _ true x sent
                (λ h. absurd (false-true (sym e ∙ (sym (ap succeeds got) ∙ h)))))
      ]
  record_answer-Attempted s s' job x (failed message) c got sent at called =
      Attempted.posted _ true x sent (λ h. absurd (false-true (sym (ap succeeds got) ∙ h)))
  record_answer-Attempted s s' job x timed_out c got sent at called =
      Attempted.posted _ true x sent (λ h. absurd (false-true (sym (ap succeeds got) ∙ h)))

  post_to-Attempted :
      (s s' : DeliveryState V) (job : JobRecord V) (c : JobCallbackState) (url : Option String)
      → s'.posts ≡ s.posts
      → get job_id s'.jobs.inner.jobs ≡ some job
      → job.callback ≡ some c
      → Attempted s (post_to post times faults job_id job url s')
  unfolding post_to
  post_to-Attempted s s' job c none same at called = Attempted.stopped s' same
  post_to-Attempted s s' job c (some url) same at called =
      let n_same : length s'.posts ≡ length s.posts = ap length same in
      subst
        (λ n. Attempted s (
          record_answer post times faults job_id n job (post n)
            (record s' { posts = s'.posts ++ (url, job) ∷ [] })))
        (sym n_same)
        (record_answer-Attempted s (record s' { posts = s'.posts ++ (url, job) ∷ [] }) job
          (url, job) (post (length s.posts)) c refl (ap (λ xs. xs ++ (url, job) ∷ []) same) at
          called)

  -- How a round goes on after `begin_callback_attempt`.
  abbrev follow : DeliveryState V → JobRegistry V × Option (JobRecord V) → DeliveryState V × Bool
  follow s (jobs, none) = (record s { jobs = jobs }, false)
  follow s (jobs, some job) =
      post_to post times faults job_id job job.callback_url (record s { jobs = jobs })

  follow-Attempted :
      (s : DeliveryState V) (begun : JobRegistry V × Option (JobRecord V))
      → ((job : JobRecord V)
          → begun.1 ≡ some job
          → (get job_id begun.0.inner.jobs ≡ some job)
            × ((c : JobCallbackState) × (job.callback ≡ some c)))
      → Attempted s (follow s begun)
  follow-Attempted s (jobs, none) at = Attempted.stopped _ refl
  follow-Attempted s (jobs, some job) at =
      let (there, (c, called)) = at job refl in
      post_to-Attempted s (record s { jobs = jobs }) job c job.callback_url refl there called

  attempt-Attempted : (s : DeliveryState V) → Attempted s (attempt post times faults job_id s)
  unfolding attempt
  attempt-Attempted s =
      let n = length s.posts in
      follow-Attempted s (begin_callback_attempt (faults n).0 (times n).0 s.jobs job_id)
        (λ job e. begin-some (faults n).0 (times n).0 s.jobs job_id job e)

  attempt-done :
      (s : DeliveryState V)
      → is_done job_id s.jobs ≡ true
      → attempt post times faults job_id s ≡ (s, false)
  unfolding attempt
  attempt-done s h =
      let n = length s.posts in ap (follow s) (begin-done (faults n).0 (times n).0 s.jobs job_id h)

  -- What holds of a delivery with a number of attempts.
  pub record Delivered (left : ℕ) (s s' : DeliveryState V) : Type 0 where
    pub more : length s.posts ≤ length s'.posts
    pub few : length s'.posts ≤ length s.posts + left
    pub last :
        (n : ℕ)
        → length s.posts ≤ n
        → n < length s'.posts
        → succeeds (post n) ≡ true
        → (n + 1 ≡ length s'.posts) × (is_done job_id s'.jobs ≡ true)

  deliver-round :
      (left : ℕ) (s : DeliveryState V) (run : DeliveryState V × Bool)
      → Attempted s run
      → Delivered left run.0 (deliver post times faults job_id left run.0)
      → Delivered
          (suc left)
          s
          (if run.1 then deliver post times faults job_id left run.0 else run.0)
  deliver-round left s _ (Attempted.stopped s' same) rest = record {
    more = omega (arith, ap length same);
    few = omega (arith, ap length same);
    last = λ n low high h. absurd (omega (arith, low, high, ap length same));
  }
  deliver-round left s _ (Attempted.posted s' more x sent closed) rest =
      let long = ap length sent ∙ length-append s.posts (x ∷ []) in
      elim (Bool-cases more) [
        | inl e ↦ rw e (record {
          more = omega (arith, long, rest.more);
          few = omega (arith, long, rest.few);
          last = λ n low high h. elim (Bool-cases (ltb (length s.posts) n)) [
            | inl later ↦ rest.last n (ground (arith, long, later)) high h
            | inr now ↦
                let same : n ≡ length s.posts = ground (arith, low, now) in
                absurd
                  (false-true (sym (closed (subst (λ m. succeeds (post m) ≡ true) same h)).0 ∙ e))
          ];
        })
        | inr e ↦ rw e (record {
          more = omega (arith, long);
          few = omega (arith, long);
          last = λ n low high h.
              let same : n ≡ length s.posts = omega (arith, long, low, high) in
              (
                omega (arith, long, same),
                (closed (subst (λ m. succeeds (post m) ≡ true) same h)).1,
              );
        })
      ]

  deliver-Delivered :
      (left : ℕ) (s : DeliveryState V) → Delivered left s (deliver post times faults job_id left s)
  unfolding deliver
  deliver-Delivered zero s = record {
    more = omega arith;
    few = omega arith;
    last = λ n low high h. absurd (omega (arith, low, high));
  }
  deliver-Delivered (suc left) s =
      let run = attempt post times faults job_id s in
      deliver-round left s run (attempt-Attempted s) (deliver-Delivered left run.0)

  -- A delivery posts at most as often as the policy allows, where 0 counts as 1. A post that is answered
  -- with success is its last, and after it the registry knows that the callback was delivered. The
  -- network, the clock and the store may answer in any way; nothing else changes the job meanwhile.
  pub deliver_callback-Delivered :
      (policy : CallbackPolicy) (s : DeliveryState V)
      → Delivered
          (if ltb policy.max_attempts 1 then 1 else policy.max_attempts)
          s
          (deliver_callback post times faults job_id policy s)
  unfolding deliver_callback
  deliver_callback-Delivered policy s =
      deliver-Delivered (if ltb policy.max_attempts 1 then 1 else policy.max_attempts) s

  deliver-done :
      (left : ℕ) (s : DeliveryState V)
      → is_done job_id s.jobs ≡ true
      → deliver post times faults job_id left s ≡ s
  unfolding deliver
  deliver-done zero s h = refl
  deliver-done (suc left) s h =
      ap (λ run. if run.1 then deliver post times faults job_id left run.0 else run.0)
        (attempt-done s h)

  deliver_callback-done :
      (policy : CallbackPolicy) (s : DeliveryState V)
      → is_done job_id s.jobs ≡ true
      → deliver_callback post times faults job_id policy s ≡ s
  unfolding deliver_callback
  deliver_callback-done policy s h =
      deliver-done (if ltb policy.max_attempts 1 then 1 else policy.max_attempts) s h

-- Once a post of a delivery was answered with success, another delivery of the same job posts nothing
-- and changes nothing, whatever its network, clock, store and policy, if nothing came in between.
pub deliver_callback-twice :
    {V : Type 0} (job_id : String) (post post' : ℕ → PostResult) (times times' : ℕ → ℕ × ℕ)
    (faults faults' : ℕ → Option String × Option String) (policy policy' : CallbackPolicy)
    (s : DeliveryState V) (n : ℕ)
    → length s.posts ≤ n
    → n < length (deliver_callback post times faults job_id policy s).posts
    → succeeds (post n) ≡ true
    → deliver_callback post' times' faults' job_id policy'
        (deliver_callback post times faults job_id policy s)
      ≡ deliver_callback post times faults job_id policy s
deliver_callback-twice job_id post post' times times' faults faults' policy policy' s n low high h =
    let s' = deliver_callback post times faults job_id policy s in
    let once = deliver_callback-Delivered post times faults job_id policy s in
    deliver_callback-done post' times' faults' job_id policy' s' (once.last n low high h).1

-- ===== src/Storage/Load/Requeued.antt =====
-- src/storage.rs: the queued entries that a load collects are those of the saved queues.
use fairlead.Base.{
  ℕ, ◌+◌, ◌≤◌, true, false, String, Option, none, some, List, [], ◌∷◌, ◌++◌, ◌==◌, ◌≡◌, ◌∙◌, refl,
  sym, ap, subst, map, contains, All, string_eq, nat_eq, string_beq_iff, count, count_zero,
  count_one, contains-count, sort_by, unwrap_or, Bool-cases, Option-cases, inl, inr, arith,
}
use fairlead.Base.Maps.{get}
use fairlead.Config.{Priority, realtime, batch, background, priority_eq, priority_beq_iff}
use fairlead.Jobs.Queues.{for_priority}
use fairlead.Jobs.Types.{JobRecord, JobRegistryInner, queued, status_eq}
use fairlead.Jobs.Valid.{IsValid, slots, present}
use fairlead.Storage.{queue_positions}
use fairlead.Storage.Load.{QueuedEntry, entry_le, loaded_queued, max_position}
use fairlead.Storage.Load.Positions.{
  All-join, Apart, Separate, all_entries, entries, entry, entry_name, queue_positions-Found,
  all_entries-Ordered,
}
use fairlead.Storage.Load.Rows.{DistinctIds, Present, rows_from}
use fairlead.Storage.Load.Sorted.{Distinct, Listed, sort_to}

count-Distinct : (xs : List String) → ((id : String) → count id xs ≤ 1) → DistinctIds xs
count-Distinct [] once = tt
count-Distinct (x ∷ xs) once = (
  count_one x xs (ground (arith, once x, string_beq_iff x x)),
  count-Distinct xs (λ id. ground (arith, once id)),
)

count-contains : (id : String) (xs : List String) → 1 ≤ count id xs → contains xs id ≡ true
count-contains id xs h = elim (Bool-cases (contains xs id)) [
  | inl e ↦ e
  | inr e ↦ absurd (omega (arith, count_zero id xs e))
]

All-of :
    (P : String → Type 0) (xs : List String)
    → ((id : String) → contains xs id ≡ true → P id)
    → All P xs
All-of P [] f = tt
All-of P (x ∷ xs) f =
    (f x (ground (arith, string_beq_iff x x)), All-of P xs (λ id h. f id (ground arith)))

Apart-of :
    (xs ys : List String)
    → ((id : String) → contains xs id ≡ true → contains ys id ≡ false)
    → Apart xs ys
Apart-of [] ys f = tt
Apart-of (x ∷ xs) ys f =
    (f x (ground (arith, string_beq_iff x x)), Apart-of xs ys (λ id h. f id (ground arith)))

different : (p r : Priority) → (p == r) ≡ false → p ≡ r → ⊥
different p r other same = absurd (ground (arith, priority_beq_iff p r))

present_small : {V : Type 0} (o : Option (JobRecord V)) → present o ≤ 1
present_small none = omega arith
present_small (some job) = omega arith

priority_of : {V : Type 0} (a b : JobRecord V) → some a ≡ some b → a.priority ≡ b.priority
priority_of a b h = let same : a ≡ b = cc h in ap (λ j. j.priority) same

status_of :
    {V : Type 0} (a b : JobRecord V)
    → some a ≡ some b
    → a.status ≡ queued
    → (b.status == queued) ≡ true
status_of a b h status =
    let same : a ≡ b = cc h in
    let b_queued : b.status ≡ queued = ap (λ j. j.status) (sym same) ∙ status in
    ap (λ x. x == queued) b_queued

module _ {V : Type 0} (s : JobRegistryInner V) (v : IsValid s) where
  slots_small : (p : Priority) (o : Option (JobRecord V)) → slots p o ≤ 1
  slots_small p none = omega arith
  slots_small p (some job) = ground arith

  queue_once : (p : Priority) (id : String) → count id (for_priority p s.queues) ≤ 1
  queue_once p id = omega (arith, v.queued_once p id, slots_small p (get id s.jobs))

  -- What a queue holds is the id of a queued job of its priority.
  queued_job :
      (p : Priority) (id : String)
      → contains (for_priority p s.queues) id ≡ true
      → (job : JobRecord V) × (get id s.jobs ≡ some job)
        × (job.status ≡ queued)
        × (job.priority ≡ p)
  queued_job p id there = elim (Option-cases (get id s.jobs)) [
    | inl e ↦
        let none_left : count id (for_priority p s.queues) ≡ 0 =
          v.queued_once p id ∙ ap (slots p) e in
        absurd (omega (arith, none_left, contains-count id (for_priority p s.queues) there))
    | inr (job, e) ↦
        let one : count id (for_priority p s.queues) ≡ slots p (some job) =
          v.queued_once p id ∙ ap (slots p) e in
        let some_left = contains-count id (for_priority p s.queues) there in
        (
          job,
          e,
          ground (arith, one, some_left),
          ground (arith, one, some_left, priority_beq_iff job.priority p),
        )
  ]

  not_both :
      (p r : Priority) (id : String)
      → (p == r) ≡ false
      → contains (for_priority p s.queues) id ≡ true
      → contains (for_priority r s.queues) id ≡ false
  not_both p r id other there = elim (Bool-cases (contains (for_priority r s.queues) id)) [
    | inr e ↦ e
    | inl e ↦
        let (job, at, _, first) = queued_job p id there in
        let (job', at', _, second) = queued_job r id e in
        let same : some job ≡ some job' = sym at ∙ at' in
        absurd (different p r other (sym first ∙ priority_of job job' same ∙ second))
  ]

  pub queues-Separate : Separate s.queues
  unfolding for_priority
  queues-Separate = record {
    in_realtime = count-Distinct s.queues.realtime (queue_once realtime);
    in_batch = count-Distinct s.queues.batch (queue_once batch);
    in_background = count-Distinct s.queues.background (queue_once background);
    realtime_batch =
        Apart-of s.queues.realtime s.queues.batch (λ id h. not_both realtime batch id refl h);
    realtime_background =
        Apart-of s.queues.realtime s.queues.background
          (λ id h. not_both realtime background id refl h);
    batch_background =
        Apart-of s.queues.batch s.queues.background (λ id h. not_both batch background id refl h);
  }

  pub order-Distinct : DistinctIds s.order
  order-Distinct =
      count-Distinct s.order (λ id. omega (arith, v.ordered_once id, present_small (get id s.jobs)))

  pub order-Present : Present s s.order
  order-Present = All-of _ s.order (λ id h. elim (Option-cases (get id s.jobs)) [
    | inl e ↦
        let gone : count id s.order ≡ 0 = v.ordered_once id ∙ ap present e in
        absurd (omega (arith, gone, contains-count id s.order h))
    | inr (job, e) ↦ (job, e, v.named id job e)
  ])

  pub ordered_job :
      (id : String) (job : JobRecord V) → get id s.jobs ≡ some job → contains s.order id ≡ true
  ordered_job id job at =
      let one : count id s.order ≡ 1 = v.ordered_once id ∙ ap present at in
      count-contains id s.order (omega (arith, one))

  abbrev requeued : (ids : List String) → Present s ids → ℕ → List QueuedEntry
  requeued ids present n = loaded_queued (rows_from s ids present n)

  -- A queued job has its entry among those of the queues.
  job_entry :
      (id : String) (job : JobRecord V)
      → get id s.jobs ≡ some job
      → job.status ≡ queued
      → Listed entry_le entry_name
          (entry job.priority
            (unwrap_or (get job.id (queue_positions s.queues)) max_position)
            job.id)
          (all_entries s.queues)
  job_entry id job at status =
      let named = v.named id job at in
      let one : count id (for_priority job.priority s.queues) ≡ slots job.priority (some job) =
        v.queued_once job.priority id ∙ ap (slots job.priority) at in
      let there : contains (for_priority job.priority s.queues) id ≡ true =
        count-contains id (for_priority job.priority s.queues)
          (ground (arith, one, status, priority_beq_iff job.priority job.priority)) in
      let there' =
        subst (λ x. contains (for_priority job.priority s.queues) x ≡ true) (sym named) there in
      let (k, position, found) =
        queue_positions-Found job.priority s.queues job.id queues-Separate there' in
      let same : unwrap_or (get job.id (queue_positions s.queues)) max_position ≡ k =
        ap (λ o. unwrap_or o max_position) position in
      subst (λ m. Listed entry_le entry_name (entry job.priority m job.id) (all_entries s.queues))
        (sym same) found

  requeued-listed :
      (ids : List String) (present : Present s ids) (n : ℕ)
      → All (λ e. Listed entry_le entry_name e (all_entries s.queues)) (requeued ids present n)
  unfolding loaded_queued
  requeued-listed [] present n = tt
  requeued-listed (id ∷ ids) present n =
      let (job, at, same) = present.0 in
      let rest = requeued-listed ids present.1 (n + 1) in
      elim (Bool-cases (job.status == queued)) [
        | inl e ↦ rw e (job_entry id job at (ground arith), rest)
        | inr e ↦ rw e rest
      ]

  requeued-out :
      (ids : List String) (present : Present s ids) (n : ℕ) (k : String)
      → contains ids k ≡ false
      → contains (map entry_name (requeued ids present n)) k ≡ false
  unfolding loaded_queued
  requeued-out [] present n k out = refl
  requeued-out (id ∷ ids) present n k out =
      let (job, at, same) = present.0 in
      let rest = requeued-out ids present.1 (n + 1) k (ground arith) in
      let other : (job.id == k) ≡ false = subst (λ x. (x == k) ≡ false) (sym same) (ground arith) in
      elim (Bool-cases (job.status == queued)) [ inl e ↦ rw (e, other) rest | inr e ↦ rw e rest ]

  requeued-Distinct :
      (ids : List String) (present : Present s ids) (n : ℕ)
      → DistinctIds ids
      → Distinct entry_le entry_name (requeued ids present n)
  unfolding loaded_queued
  requeued-Distinct [] present n distinct = tt
  requeued-Distinct (id ∷ ids) present n distinct =
      let (job, at, same) = present.0 in
      let rest = requeued-Distinct ids present.1 (n + 1) distinct.1 in
      let out =
        requeued-out ids present.1 (n + 1) job.id
          (subst (λ x. contains ids x ≡ false) (sym same) distinct.0) in
      elim (Bool-cases (job.status == queued)) [ inl e ↦ rw e (out, rest) | inr e ↦ rw e rest ]

  requeued-in :
      (ids : List String) (present : Present s ids) (n : ℕ) (k : String) (found : JobRecord V)
      → contains ids k ≡ true
      → get k s.jobs ≡ some found
      → found.status ≡ queued
      → contains (map entry_name (requeued ids present n)) k ≡ true
  unfolding loaded_queued
  requeued-in [] present n k found there at_k status = absurd (cc there)
  requeued-in (id ∷ ids) present n k found there at_k status =
      let (job, at, same) = present.0 in
      elim (Bool-cases (id == k)) [
        | inl e ↦
            let same_k : id ≡ k = (string_beq_iff id k).0 e in
            let one : some found ≡ some job =
              sym at_k ∙ (subst (λ x. get x s.jobs ≡ some job) same_k at) in
            let is_queued : (job.status == queued) ≡ true = status_of found job one status in
            let named : (job.id == k) ≡ true = (string_beq_iff job.id k).1 (same ∙ same_k) in
            rw (is_queued, named) refl
        | inr e ↦
            let rest = requeued-in ids present.1 (n + 1) k found (ground arith) at_k status in
            elim (Bool-cases (job.status == queued)) [
              | inl f ↦ rw f (ground (arith, rest))
              | inr f ↦ rw f rest
            ]
      ]

  entries-All :
      (p : Priority) (n : ℕ) (ids : List String) (P : String → Type 0)
      → All P ids
      → All (λ t. P t.id) (entries p n ids)
  entries-All p n [] P all = tt
  entries-All p n (id ∷ ids) P all = (all.0, entries-All p (n + 1) ids P all.1)

  requeued_one :
      (p : Priority)
      → All
          (λ t. contains (map entry_name (requeued s.order order-Present 0)) t.id ≡ true)
          (entries p 0 (for_priority p s.queues))
  requeued_one p =
      entries-All p 0 (for_priority p s.queues)
        (λ id. contains (map entry_name (requeued s.order order-Present 0)) id ≡ true)
        (All-of _ (for_priority p s.queues) (λ id h.
          let (job, at, status, _) = queued_job p id h in
          requeued-in s.order order-Present 0 id job (ordered_job id job at) at status))

  -- Sorted, the entries that a load collects are those of the queues in the order of service.
  pub sorted_again :
      sort_by entry_le (loaded_queued (rows_from s s.order order-Present 0)) ≡ all_entries s.queues
  unfolding for_priority
  sorted_again =
      sort_to entry_le entry_name (requeued s.order order-Present 0) (all_entries s.queues)
        (all_entries-Ordered s.queues queues-Separate) (requeued-listed s.order order-Present 0)
        (requeued-Distinct s.order order-Present 0 order-Distinct)
        (All-join _ (entries realtime 0 s.queues.realtime)
          (entries batch 0 s.queues.batch ++ entries background 0 s.queues.background)
          (requeued_one realtime)
          (All-join _ (entries batch 0 s.queues.batch) (entries background 0 s.queues.background)
            (requeued_one batch) (requeued_one background)))

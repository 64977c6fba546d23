-- ===== src/Storage/Load/Restart.antt =====
-- src/storage.rs, src/jobs.rs: a registry that starts from a save is a valid one.
use Prim.Native.Char.{code}
use Prim.Native.String.{◌++◌ as ◌^^◌}
use text.Mathlib.TextLemmas.{nil-append, cons-append}
use fairlead.Base.{
  ◌==◌, nat_eq, ℕ, ◌+◌, ◌<◌, ◌≤◌, true, String, none, some, List, [], ◌∷◌, ◌≡◌, ◌∙◌, refl, sym, ap,
  sort_by, subst, contains, count, and_then, unwrap_or, ltb, string_eq, string_beq_iff, Bool-cases,
  Option-cases, inl, inr, arith, ◌||◌, ok, if◌then◌else◌,
}
use fairlead.Base.Maps.{get, Unique}
use fairlead.Base.Parsing.{parse_u64-to_decimal}
use fairlead.Base.Text.{parse_u64, to_decimal}
use fairlead.Jobs.Effects.Expiry.{IsCurrent, Swept, requeue_expired_exact}
use fairlead.Jobs.Expiry.{requeue_expired_leases_locked}
use fairlead.Jobs.Queues.{for_priority}
use fairlead.Jobs.Start.{with_store_and_retention}
use fairlead.Jobs.Store.{JobRegistry, saved_table}
use fairlead.Jobs.Submit.{job_id}
use fairlead.Jobs.Types.{JobRegistryInner, JobRetentionPolicy}
use fairlead.Jobs.Valid.{IsValid, present, slots}
use fairlead.Jobs.Valid.Expiry.{requeue_expired-IsValid}
use fairlead.Storage.{JobRow, JobTable, replace_registry_snapshot}
use fairlead.Storage.Load.{
  row_le, load_registry_snapshot, loaded_next_id, parse_numeric_job_id, strip_prefix,
}
use fairlead.Storage.Load.Records.{TimesFit, loaded_jobs-Unique}
use fairlead.Storage.Load.Requeued.{order-Distinct, order-Present, ordered_job}
use fairlead.Storage.Load.RoundTrip.{SameRegistry, same_after}
use fairlead.Storage.Load.Rows.{Present, rows_from, saved_rows}

strip_prefix-append : (prefix t : String) → strip_prefix prefix (prefix ^^ t) ≡ some t
unfolding strip_prefix
strip_prefix-append String.[] t = ap some (nil-append t)
strip_prefix-append (String.◌∷◌ c prefix) t =
    let same : (code c == code c) ≡ true = ground arith in
    ap (strip_prefix (String.◌∷◌ c prefix)) (cons-append c prefix t)
    ∙ rw same (strip_prefix-append prefix t)

-- The number of an id is read back.
parse_numeric-job_id :
    (n : ℕ) → 0 < n → n < 18446744073709551616 → parse_numeric_job_id (job_id n) ≡ n
unfolding parse_numeric_job_id job_id
parse_numeric-job_id n h fits =
    ap (λ o. unwrap_or (and_then o parse_u64) 0) (strip_prefix-append "job-" (to_decimal n))
    ∙ ap (λ o. unwrap_or o 0) (parse_u64-to_decimal n h fits)

module _ {V : Type 0} where
  next_id-grows : (rows : List (JobRow V)) (m : ℕ) → m ≤ loaded_next_id rows m
  unfolding loaded_next_id
  next_id-grows [] m = omega arith
  next_id-grows (row ∷ rows) m = ground (
    arith,
    next_id-grows rows
        (if ltb m (parse_numeric_job_id row.job.id) then parse_numeric_job_id row.job.id else m),
  )

module _ {V : Type 0} (s : JobRegistryInner V) where
  -- The counter of a load is not below the number of any id that it finds.
  next_id-above :
      (ids : List String) (there : Present s ids) (n m : ℕ) (id : String)
      → contains ids id ≡ true
      → parse_numeric_job_id id ≤ loaded_next_id (rows_from s ids there n) m
  unfolding loaded_next_id
  next_id-above [] there n m id h = absurd (ground arith)
  next_id-above (i ∷ ids) there n m id h =
      let number = parse_numeric_job_id there.0.0.id in
      let m' = if ltb m number then number else m in
      elim (Bool-cases (i == id)) [
        | inl e ↦
            let same : there.0.0.id ≡ id = there.0.2 ∙ (string_beq_iff i id).0 e in
            let least : number ≤ m' = ground arith in
            omega (
              arith,
              least,
              ap parse_numeric_job_id same,
              next_id-grows (rows_from s ids there.1 (n + 1)) m',
            )
        | inr e ↦ next_id-above ids there.1 (n + 1) m' id (ground arith)
      ]

  -- A registry with the same content is valid if its counter and its map are.
  same-IsValid :
      (s' : JobRegistryInner V)
      → IsValid s
      → SameRegistry s s'
      → Unique s'.jobs
      → ((n : ℕ) → s'.next_id < n → get (job_id n) s.jobs ≡ none)
      → IsValid s'
  same-IsValid s' v same unique fresh = record {
    named = λ id job at. v.named id job (sym (same.jobs id) ∙ at);
    valid = λ id job at. v.valid id job (sym (same.jobs id) ∙ at);
    queued_once = λ p id.
        ap (λ q. count id (for_priority p q)) same.queues
        ∙ v.queued_once p id
        ∙ sym (ap (slots p) (same.jobs id));
    ordered_once =
        λ id. ap (count id) same.order ∙ v.ordered_once id ∙ sym (ap present (same.jobs id));
    keyed = λ k id at.
        let (job, there, keyed) = v.keyed k id (sym (same.keys k) ∙ at) in
        (job, same.jobs id ∙ there, keyed);
    keys_known =
        λ k id job at keyed. same.keys k ∙ v.keys_known k id job (sym (same.jobs id) ∙ at) keyed;
    fresh = λ n above. same.jobs (job_id n) ∙ fresh n above;
    unique = unique;
  }

module _ {V : Type 0} where
  module _ (s : JobRegistryInner V) (v : IsValid s) (fits : TimesFit s)
      (counted : s.next_id < 18446744073709551616) where
    -- The counter of a load is not below the number of any job.
    load-fresh :
        (table : JobTable V)
        → sort_by row_le table ≡ rows_from s s.order (order-Present s v) 0
        → (n : ℕ) → (load_registry_snapshot table).next_id < n
        → get (job_id n) s.jobs ≡ none
    unfolding load_registry_snapshot
    load-fresh table sorted n above = elim (Option-cases (get (job_id n) s.jobs)) [
      | inl gone ↦ gone
      | inr (job, at) ↦ elim (Bool-cases (ltb s.next_id n)) [
        | inl later ↦ v.fresh n (ground arith)
        | inr known ↦
            let small : n < 18446744073709551616 = ground arith in
            let number = parse_numeric-job_id n (omega (arith, above)) small in
            let listed =
              next_id-above s s.order (order-Present s v) 0 0 (job_id n)
                (ordered_job s v (job_id n) job at) in
            let counter = ap (λ rs. loaded_next_id rs 0) sorted in
            absurd (omega (arith, above, number, listed, counter))
      ]
    ]

    load-IsValid :
        (table : JobTable V)
        → sort_by row_le table ≡ rows_from s s.order (order-Present s v) 0
        → IsValid (load_registry_snapshot table)
    unfolding load_registry_snapshot
    load-IsValid table sorted =
        same-IsValid s (load_registry_snapshot table) v (same_after s v fits table sorted)
          (loaded_jobs-Unique s (sort_by row_le table) [] tt) (load-fresh table sorted)

  -- What a server has after a restart at `now`: the jobs of the registry before, less the leases that
  -- have run out.
  pub record Restarted (now : ℕ) (s : JobRegistryInner V) (r : JobRegistry V) : Type 0 where
    pub valid : IsValid r.inner
    pub jobs : (id : String) → Swept now (get id s.jobs) (get id r.inner.jobs)
    pub current : (id : String) → IsCurrent now (get id r.inner.jobs)

  saved_again :
      (inner : JobRegistryInner V)
      → IsValid inner
      → (table : JobTable V) × (saved_table none inner ≡ ok table)
  unfolding saved_table
  saved_again inner v =
      let (table, out, _) = saved_rows inner (order-Present inner v) (order-Distinct inner v) in
      (table, rw (out, saved_table) refl)

  swept_start :
      (now : ℕ) (table : JobTable V) (policy : JobRetentionPolicy)
      → IsValid (requeue_expired_leases_locked now (load_registry_snapshot table)).0
      → (r : JobRegistry V) × (with_store_and_retention none now table policy ≡ ok r)
        × (r.inner ≡ (requeue_expired_leases_locked now (load_registry_snapshot table)).0)
  unfolding with_store_and_retention
  swept_start now table policy v =
      let swept = requeue_expired_leases_locked now (load_registry_snapshot table) in
      let (saved, out) = saved_again swept.0 v in
      elim (Bool-cases (ltb 0 swept.1.requeued || ltb 0 swept.1.failed)) [
        | inl some_ ↦ (
          record { inner = swept.0; store = some saved; retention_policy = policy },
          rw (some_, out) refl,
          refl,
        )
        | inr none_ ↦ (
          record { inner = swept.0; store = some table; retention_policy = policy },
          rw none_ refl,
          refl,
        )
      ]

  -- A server that saved a valid registry and starts again, at any time, with a store that works, has a
  -- valid registry again: each job is as it was, or is timed out because its lease has run out, and no
  -- lease that has run out is left. The times of the jobs fit the signed 64-bit columns, and the counter
  -- of ids has not wrapped.
  pub restart-Restarted :
      (s : JobRegistryInner V) (now : ℕ) (policy : JobRetentionPolicy)
      → IsValid s
      → TimesFit s
      → s.next_id < 18446744073709551616
      → (table : JobTable V) × (replace_registry_snapshot s ≡ some table)
        × (r : JobRegistry V) × (with_store_and_retention none now table policy ≡ ok r)
        × Restarted now s r
  restart-Restarted s now policy v fits counted =
      let (table, out, sorted) = saved_rows s (order-Present s v) (order-Distinct s v) in
      let loaded = load-IsValid s v fits counted table sorted in
      let same = same_after s v fits table sorted in
      let (r, started, inner) =
        swept_start now table policy
          (requeue_expired-IsValid now (load_registry_snapshot table) loaded) in
      let exact = requeue_expired_exact now (load_registry_snapshot table) loaded in
      (
        table,
        out,
        r,
        started,
        record {
          valid =
              subst IsValid (sym inner)
                (requeue_expired-IsValid now (load_registry_snapshot table) loaded);
          jobs = λ id. rw (inner, sym (same.jobs id)) (exact id).0;
          current = λ id. rw inner (exact id).1;
        },
      )

-- ===== src/Storage/Load/RoundTrip.antt =====
-- src/storage.rs: what a save writes, a load reads back.
use fairlead.Base.{
  ℕ, ◌+◌, String, some, List, [], ◌∷◌, ◌≡◌, ◌∙◌, refl, sym, ap, contains, sort_by, string_eq,
  Bool-cases, Option-cases, inl, inr,
}
use fairlead.Base.Maps.{get, values}
use fairlead.Jobs.Types.{JobRegistryInner}
use fairlead.Jobs.Valid.{IsValid}
use fairlead.Storage.{JobRow, JobTable, replace_registry_snapshot}
use fairlead.Storage.Load.{
  row_le, entry_le, fill_queues, load_registry_snapshot, loaded_jobs, loaded_keys, loaded_order,
  loaded_queued,
}
use fairlead.Storage.Load.Positions.{fill-all_entries}
use fairlead.Storage.Load.Records.{TimesFit, get-loaded_jobs, keys_again, loaded_jobs-Unique}
use fairlead.Storage.Load.Requeued.{order-Distinct, order-Present, ordered_job, sorted_again}
use fairlead.Storage.Load.Rows.{Present, rows_from, saved_rows}

module _ {V : Type 0} where
  -- Two registries that hold the same jobs, in the same order and queues, under the same keys.
  pub record SameRegistry (s s' : JobRegistryInner V) : Type 0 where
    pub jobs : (id : String) → get id s'.jobs ≡ get id s.jobs
    pub order : s'.order ≡ s.order
    pub queues : s'.queues ≡ s.queues
    pub keys : (key : String) → get key s'.idempotency_keys ≡ get key s.idempotency_keys

  module _ (s : JobRegistryInner V) (v : IsValid s) (fits : TimesFit s) where
    abbrev rows : List (JobRow V)
    rows = rows_from s s.order (order-Present s v) 0

    order_again :
        (ids : List String) (present : Present s ids) (n : ℕ)
        → loaded_order (rows_from s ids present n) ≡ ids
    unfolding loaded_order
    order_again [] present n = refl
    order_again (id ∷ ids) present n =
        ap (λ x. x ∷ loaded_order (rows_from s ids present.1 (n + 1))) present.0.2
        ∙ ap (λ xs. id ∷ xs) (order_again ids present.1 (n + 1))

    jobs_again : (id : String) → get id (loaded_jobs rows []) ≡ get id s.jobs
    unfolding get
    jobs_again id =
        get-loaded_jobs s v fits id s.order (order-Present s v) 0 []
        ∙ (elim (Option-cases (get id s.jobs)) [
          | inr (job, e) ↦ rw (ordered_job s v id job e) refl
          | inl e ↦ elim (Bool-cases (contains s.order id)) [
            | inl there ↦ rw there refl
            | inr gone ↦ rw gone (sym e)
          ]
        ])

    -- What a load makes of the rows of a save.
    pub same_after :
        (table : JobTable V)
        → sort_by row_le table ≡ rows
        → SameRegistry s (load_registry_snapshot table)
    unfolding load_registry_snapshot
    same_after table sorted = record {
      jobs = λ id. ap (λ rs. get id (loaded_jobs rs [])) sorted ∙ jobs_again id;
      order = ap loaded_order sorted ∙ order_again s.order (order-Present s v) 0;
      queues =
          ap
            (λ rs.
              fill_queues (sort_by entry_le (loaded_queued rs))
                (record { realtime = []; batch = []; background = [] }))
            sorted
          ∙ ap (λ es. fill_queues es (record { realtime = []; batch = []; background = [] }))
              (sorted_again s v)
          ∙ fill-all_entries s.queues;
      keys = λ key.
          ap (λ rs. get key (loaded_keys (values (loaded_jobs rs [])) [])) sorted
          ∙ keys_again s v (loaded_jobs rows []) (loaded_jobs-Unique s rows [] tt) jobs_again key;
    }

    -- A valid registry is saved, and the load of that save gives it back: the same jobs, the same order
    -- of submission, the same queues in the same order, and the same idempotency keys. The times of the
    -- jobs fit the signed 64-bit columns. The counter of ids is not among these: it is found anew.
    pub load-replace :
        (table : JobTable V) × (replace_registry_snapshot s ≡ some table)
        × SameRegistry s (load_registry_snapshot table)
    load-replace =
        let (table, out, sorted) = saved_rows s (order-Present s v) (order-Distinct s v) in
        (table, out, same_after table sorted)

-- ===== src/Storage/Load/Rows.antt =====
-- src/storage.rs: the rows that a save writes, and the order in which they are read back.
use fairlead.Base.{
  ℕ, ◌+◌, ◌<◌, true, false, String, some, List, [], ◌∷◌, ◌==◌, ◌≡◌, ◌⊎◌, ◌∙◌, refl, sym, ap, subst,
  map, any, contains, All, string_eq, string_beq_iff, sort_by, Bool-cases, inl, inr, arith,
}
use fairlead.Base.Maps.{get}
use fairlead.Jobs.Types.{JobRecord, JobRegistryInner}
use fairlead.Storage.{
  JobRow, JobTable, insert_rows, queue_positions, replace_registry_snapshot, row_of,
}
use fairlead.Storage.Load.{row_le}
use fairlead.Storage.Load.Sorted.{Before, Distinct, Listed, Ordered, sort_to}

-- No id occurs twice.
abbrev pub DistinctIds : List String → Type 0
DistinctIds [] = Unit
DistinctIds (x ∷ xs) = (contains xs x ≡ false) × DistinctIds xs

module _ {V : Type 0} where
  abbrev pub row_name : JobRow V → String
  row_name row = row.job.id

  any_named :
      (table : JobTable V) (id : String)
      → any (λ row. row.job.id == id) table ≡ contains (map row_name table) id
  any_named [] id = refl
  any_named (row ∷ table) id = ground (arith, any_named table id)

module _ {V : Type 0} (inner : JobRegistryInner V) where
  -- Each id has its job.
  abbrev pub Present : List String → Type 0
  Present ids = All (λ id. (job : JobRecord V) × (get id inner.jobs ≡ some job) × (job.id ≡ id)) ids

  abbrev pub row_for : JobRecord V → ℕ → JobRow V
  row_for job n = row_of job (get job.id (queue_positions inner.queues)) n

  -- The rows in the order of submission.
  abbrev pub rows_from : (ids : List String) → Present ids → ℕ → List (JobRow V)
  rows_from [] present n = []
  rows_from (id ∷ ids) present n = row_for present.0.0 n ∷ rows_from ids present.1 (n + 1)

  names-rows_from :
      (ids : List String) (present : Present ids) (n : ℕ)
      → map row_name (rows_from ids present n) ≡ ids
  names-rows_from [] present n = refl
  names-rows_from (id ∷ ids) present n =
      ap (λ x. x ∷ map row_name (rows_from ids present.1 (n + 1))) present.0.2
      ∙ ap (λ xs. id ∷ xs) (names-rows_from ids present.1 (n + 1))

  Before-all :
      (job : JobRecord V) (m : ℕ) (ids : List String) (present : Present ids) (n : ℕ)
      → m < n
      → contains ids job.id ≡ false
      → All (Before row_le row_name (row_for job m)) (rows_from ids present n)
  unfolding row_le
  Before-all job m [] present n less new_ = tt
  Before-all job m (id ∷ ids) present n less new_ =
      let named = present.0.2 in
      (
        record {
          first = ground arith;
          not_after = ground arith;
          other =
              ground (arith, named, string_beq_iff job.id present.0.0.id, string_beq_iff id job.id);
        },
        Before-all job m ids present.1 (n + 1) (omega arith) (ground arith),
      )

  rows_from-Ordered :
      (ids : List String) (present : Present ids) (n : ℕ)
      → DistinctIds ids
      → Ordered row_le row_name (rows_from ids present n)
  rows_from-Ordered [] present n distinct = tt
  rows_from-Ordered (id ∷ ids) present n distinct = (
    Before-all present.0.0 n ids present.1 (n + 1) (omega arith)
        (subst (λ x. contains ids x ≡ false) (sym present.0.2) distinct.0),
    rows_from-Ordered ids present.1 (n + 1) distinct.1,
  )

  still_free :
      (job : JobRecord V) (n : ℕ) (table : JobTable V) (id : String) (ids : List String)
      → job.id ≡ id
      → contains ids id ≡ false
      → All (λ k. contains (map row_name table) k ≡ false) ids
      → All (λ k. contains (map row_name (row_for job n ∷ table)) k ≡ false) ids
  still_free job n table id [] same new_ free = tt
  still_free job n table id (k ∷ ids) same new_ free = (
    ground (arith, free.0, same, string_beq_iff job.id k, string_beq_iff k id),
    still_free job n table id ids same (ground arith) free.1,
  )

  later :
      (id : String) (ids : List String) (k : String)
      → (id == k) ≡ false
      → contains (id ∷ ids) k ≡ true
      → contains ids k ≡ true
  later id ids k other h = ground arith

  Listed_self :
      (xs ts : List (JobRow V))
      → ((x : JobRow V) → Listed row_le row_name x xs → Listed row_le row_name x ts)
      → All (λ x. Listed row_le row_name x ts) xs
  Listed_self [] ts sub = tt
  Listed_self (x ∷ xs) ts sub = (sub x (inl refl), Listed_self xs ts (λ y h. sub y (inr h)))

  all_contained :
      (ids : List String) (present : Present ids) (n : ℕ) (table : JobTable V)
      → ((id : String) → contains ids id ≡ true → contains (map row_name table) id ≡ true)
      → All (λ t. contains (map row_name table) (row_name t) ≡ true) (rows_from ids present n)
  all_contained [] present n table complete = tt
  all_contained (id ∷ ids) present n table complete = (
    complete present.0.0.id (ground (arith, present.0.2, string_beq_iff id present.0.0.id)),
    all_contained ids present.1 (n + 1) table (λ k h. complete k (ground arith)),
  )

  -- What the inserted rows are, if all of them are among `ts`.
  record Inserted (ts : List (JobRow V)) (named : String → Type 0) (table : JobTable V)
      : Type 0 where
    pub listed : All (λ x. Listed row_le row_name x ts) table
    pub distinct : Distinct row_le row_name table
    pub complete : (id : String) → named id → contains (map row_name table) id ≡ true

  inserted :
      (ids : List String) (present : Present ids) (n : ℕ) (ts : List (JobRow V))
      (table : JobTable V) (named : String → Type 0)
      → DistinctIds ids
      → All (λ id. contains (map row_name table) id ≡ false) ids
      → All (λ x. Listed row_le row_name x ts) (rows_from ids present n)
      → Inserted ts named table
      → (table' : JobTable V) × (insert_rows inner ids n table ≡ some table')
        × Inserted ts (λ id. named id ⊎ (contains ids id ≡ true)) table'
  unfolding insert_rows
  inserted [] present n ts table named distinct free listed before = (
    table,
    refl,
    record {
      listed = before.listed;
      distinct = before.distinct;
      complete = λ id h. elim h [ inl x ↦ before.complete id x | inr x ↦ absurd (cc x) ];
    },
  )
  inserted (id ∷ ids) present n ts table named distinct free listed before =
      let job = present.0.0 in
      let at = present.0.1 in
      let same = present.0.2 in
      let row = row_for job n in
      let free_job : contains (map row_name table) job.id ≡ false =
        subst (λ x. contains (map row_name table) x ≡ false) (sym same) free.0 in
      let test : any (λ r. r.job.id == job.id) table ≡ false = any_named table job.id ∙ free_job in
      let (table', out, after) =
        inserted ids present.1 (n + 1) ts (row ∷ table) (λ k. named k ⊎ (k ≡ id)) distinct.1
          (still_free job n table id ids same distinct.0 free.1) listed.1
          (record {
            listed = (listed.0, before.listed);
            distinct = (free_job, before.distinct);
            complete = λ k h. elim h [
              | inl x ↦ ground (arith, before.complete k x)
              | inr x ↦ ground (arith, string_beq_iff job.id k, same, x)
            ];
          }) in
      (
        table',
        rw (at, test, insert_rows) out,
        record {
          listed = after.listed;
          distinct = after.distinct;
          complete = λ k h. elim h [
            | inl x ↦ after.complete k (inl (inl x))
            | inr x ↦ elim (Bool-cases (id == k)) [
              | inl e ↦ after.complete k (inl (inr (sym ((string_beq_iff id k).0 e))))
              | inr e ↦ after.complete k (inr (later id ids k e x))
            ]
          ];
        },
      )

  none_free : (ids : List String) → All (λ id. contains [] id ≡ false) ids
  none_free [] = tt
  none_free (id ∷ ids) = (refl, none_free ids)

  -- A save succeeds, and a load reads its rows back in the order of submission.
  pub saved_rows :
      (present : Present inner.order)
      → DistinctIds inner.order
      → (table : JobTable V) × (replace_registry_snapshot inner ≡ some table)
        × (sort_by row_le table ≡ rows_from inner.order present 0)
  unfolding replace_registry_snapshot
  saved_rows present distinct =
      let ts = rows_from inner.order present 0 in
      let (table, out, all) =
        inserted inner.order present 0 ts [] (λ id. ⊥) distinct (none_free inner.order)
          (Listed_self ts ts (λ x h. h))
          (record { listed = tt; distinct = tt; complete = λ id h. absurd h }) in
      (
        table,
        out,
        sort_to row_le row_name table ts (rows_from-Ordered inner.order present 0 distinct)
            all.listed all.distinct
            (all_contained inner.order present 0 table (λ id h. all.complete id (inr h))),
      )

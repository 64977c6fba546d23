-- ===== src/Storage.antt =====
-- src/storage.rs: the job store. SQLite and serde_json are outside: a table is the list of its rows,
-- a JSON column holds the value that it encodes, and `id` is the primary key.
pub mod Load
use fairlead.Base.{
  ℕ, ◌+◌, String, Option, none, some, List, [], ◌∷◌, ◌==◌, string_eq, any, u64, if◌then◌else◌,
}
use fairlead.Base.Maps.{HashMap, get, insert}
use fairlead.Jobs.Types.{JobRecord, JobQueues, JobRegistryInner}

-- The two positions are the columns that a record does not have.
pub record JobRow (V : Type 0) : Type 0 where
  pub job : JobRecord V
  pub queue_position : Option ℕ
  pub order_position : ℕ

abbrev pub JobTable : Type 0 → Type 0
JobTable V = List (JobRow V)

unfoldable pub positions_from : ℕ → List String → HashMap ℕ → HashMap ℕ
positions_from n [] m = m
positions_from n (id ∷ ids) m = positions_from (n + 1) ids (insert id n m)

unfoldable pub queue_positions : JobQueues → HashMap ℕ
unfolding positions_from
queue_positions q =
    positions_from 0 q.background (positions_from 0 q.batch (positions_from 0 q.realtime []))

-- Times are cast to `i64`: the bit pattern of the low 64 bits is kept.
abbrev pub row_of : {V : Type 0} → JobRecord V → Option ℕ → ℕ → JobRow V
row_of job position order = record {
  job = record job {
    created_at_unix_ms = u64 job.created_at_unix_ms;
    updated_at_unix_ms = u64 job.updated_at_unix_ms;
  };
  queue_position = position;
  order_position = order;
}

-- The INSERTs of one transaction; `none` where a primary key is taken.
unfoldable pub insert_rows :
    {V : Type 0} → JobRegistryInner V → List String → ℕ → JobTable V → Option (JobTable V)
insert_rows inner [] n table = some table
insert_rows inner (id ∷ ids) n table = elim (get id inner.jobs) [
  | none ↦ insert_rows inner ids (n + 1) table
  | some job ↦
      let rest =
        insert_rows inner ids (n + 1)
          (row_of job (get job.id (queue_positions inner.queues)) n ∷ table) in
      if any (λ row. row.job.id == job.id) table then none else rest
]

unfoldable pub replace_registry_snapshot : {V : Type 0} → JobRegistryInner V → Option (JobTable V)
unfolding insert_rows
replace_registry_snapshot inner = insert_rows inner inner.order 0 []

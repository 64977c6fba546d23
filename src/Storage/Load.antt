-- ===== src/Storage/Load.antt =====
-- src/storage.rs: `load_registry_snapshot`, and src/jobs.rs: the start from a store.
pub mod Sorted
pub mod Positions
pub mod Rows
pub mod Records
pub mod Requeued
pub mod RoundTrip
pub mod Restart
use Prim.Native.Char.{Char, code}
use fairlead.Base.{
  ℕ, ◌+◌, ◌-◌, ◌*◌, ◌%◌, Bool, true, false, String, Option, none, some, List, [], ◌∷◌, ◌++◌, ◌==◌,
  ◌&&◌, string_eq, nat_eq, ltb, leb, nat_beq, lex_le, sort_by, and_then, unwrap_or, u32, u64,
  if◌then◌else◌, refl, ◌≡◌,
}
use fairlead.Base.Maps.{HashMap, get, insert, values}
use fairlead.Base.Text.{parse_u64, text_le}
use fairlead.Config.{Priority, realtime, batch, background}
use fairlead.Jobs.Queues.{push_back}
use fairlead.Jobs.Types.{JobRecord, JobQueues, JobRegistryInner, JobStatus, queued, status_eq}
use fairlead.Storage.{JobRow, JobTable}

abbrev pub max_position : ℕ
max_position = 9223372036854775807

-- An `i64` column holds the bit pattern; these are its order and its cast to `u128`.
abbrev pub i64_le : ℕ → ℕ → Bool
i64_le a b = leb (u64 (a + 9223372036854775808)) (u64 (b + 9223372036854775808))

abbrev pub as_u128 : ℕ → ℕ
as_u128 a = if ltb a 9223372036854775808 then a else a + 340282366920938463444927863358058659840

-- `ORDER BY order_position ASC, created_at_unix_ms ASC, id ASC`
unfoldable pub row_le : {V : Type 0} → JobRow V → JobRow V → Bool
row_le a b = lex_le a.order_position b.order_position (
    if a.job.created_at_unix_ms == b.job.created_at_unix_ms
    then text_le a.job.id b.job.id
    else i64_le a.job.created_at_unix_ms b.job.created_at_unix_ms)

-- `str::strip_prefix`
unfoldable pub strip_prefix : String → String → Option String
strip_prefix String.[] s = some s
strip_prefix (String.◌∷◌ c prefix) String.[] = none
strip_prefix (String.◌∷◌ c prefix) (String.◌∷◌ d s) =
    let rest = strip_prefix prefix s in if code c == code d then rest else none

unfoldable pub parse_numeric_job_id : String → ℕ
unfolding strip_prefix parse_u64
parse_numeric_job_id id = unwrap_or (and_then (strip_prefix "job-" id) parse_u64) 0

-- A queued job with what it is sorted by.
pub record QueuedEntry : Type 0 where
  pub priority : Priority
  pub position : ℕ
  pub id : String

-- `priority_rank` of src/storage.rs.
unfoldable pub stored_priority_rank : Priority → ℕ
stored_priority_rank realtime = 0
stored_priority_rank batch = 1
stored_priority_rank background = 2

-- `sort_by_key` on `(priority_rank, queue_position, id)`
unfoldable pub entry_le : QueuedEntry → QueuedEntry → Bool
unfolding stored_priority_rank
entry_le a b =
    lex_le (stored_priority_rank a.priority) (stored_priority_rank b.priority)
      (lex_le a.position b.position (text_le a.id b.id))

unfoldable pub fill_queues : List QueuedEntry → JobQueues → JobQueues
unfolding push_back
fill_queues [] queues = queues
fill_queues (e ∷ es) queues = fill_queues es (push_back e.priority e.id queues)

module _ {V : Type 0} where
  -- The record that a row holds.
  abbrev pub job_of : JobRow V → JobRecord V
  job_of row =
      let job = row.job in
      record job {
        attempts = u32 job.attempts;
        max_attempts = u32 job.max_attempts;
        created_at_unix_ms = as_u128 job.created_at_unix_ms;
        updated_at_unix_ms = as_u128 job.updated_at_unix_ms;
      }

  -- The loop over the rows.
  unfoldable pub loaded_next_id : List (JobRow V) → ℕ → ℕ
  unfolding parse_numeric_job_id
  loaded_next_id [] next_id = next_id
  loaded_next_id (row ∷ rows) next_id =
      let n = parse_numeric_job_id row.job.id in
      loaded_next_id rows (if ltb next_id n then n else next_id)

  unfoldable pub loaded_queued : List (JobRow V) → List QueuedEntry
  loaded_queued [] = []
  loaded_queued (row ∷ rows) =
      let rest = loaded_queued rows in
      if row.job.status == queued
      then (record {
        priority = row.job.priority;
        position = unwrap_or row.queue_position max_position;
        id = row.job.id;
      })
        ∷ rest
      else rest

  unfoldable pub loaded_order : List (JobRow V) → List String
  loaded_order [] = []
  loaded_order (row ∷ rows) = row.job.id ∷ loaded_order rows

  unfoldable pub loaded_jobs : List (JobRow V) → HashMap (JobRecord V) → HashMap (JobRecord V)
  loaded_jobs [] jobs = jobs
  loaded_jobs (row ∷ rows) jobs = loaded_jobs rows (insert row.job.id (job_of row) jobs)

  -- `filter_map` and `collect` into a map.
  unfoldable pub loaded_keys : List (JobRecord V) → HashMap String → HashMap String
  loaded_keys [] keys = keys
  loaded_keys (job ∷ jobs) keys =
      loaded_keys jobs
        (elim job.idempotency_key [ none ↦ keys | some key ↦ insert key job.id keys ])

  unfoldable pub load_registry_snapshot : JobTable V → JobRegistryInner V
  unfolding row_le entry_le fill_queues loaded_next_id loaded_queued loaded_order loaded_jobs
      loaded_keys
  load_registry_snapshot table =
      let rows = sort_by row_le table in
      let jobs = loaded_jobs rows [] in
      record {
        next_id = loaded_next_id rows 0;
        jobs = jobs;
        idempotency_keys = loaded_keys (values jobs) [];
        order = loaded_order rows;
        queues =
            fill_queues (sort_by entry_le (loaded_queued rows))
              (record { realtime = []; batch = []; background = [] });
      }

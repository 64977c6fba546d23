-- ===== src/Jobs/Start.antt =====
-- src/jobs.rs: the registry of a server that starts from a store.
use fairlead.Base.{ℕ, ltb, ◌||◌, String, Option, some, Result, ok, err, if◌then◌else◌}
use fairlead.Jobs.Expiry.{requeue_expired_leases_locked}
use fairlead.Jobs.Store.{JobRegistry, saved_table}
use fairlead.Jobs.Types.{JobRetentionPolicy, default_retention}
use fairlead.Storage.{JobTable}
use fairlead.Storage.Load.{load_registry_snapshot}

module _ {V : Type 0} where
  -- The snapshot is loaded, and leases that ran out meanwhile are taken back and saved.
  unfoldable pub with_store_and_retention :
      Option String → ℕ → JobTable V → JobRetentionPolicy → Result String (JobRegistry V)
  unfolding load_registry_snapshot requeue_expired_leases_locked saved_table
  with_store_and_retention fault now table policy =
      let (inner, report) = requeue_expired_leases_locked now (load_registry_snapshot table) in
      if ltb 0 report.requeued || ltb 0 report.failed
      then elim (saved_table fault inner) [
        | err message ↦ err message
        | ok saved ↦ ok (record { inner = inner; store = some saved; retention_policy = policy })
      ]
      else ok (record { inner = inner; store = some table; retention_policy = policy })

  unfoldable pub with_store : Option String → ℕ → JobTable V → Result String (JobRegistry V)
  unfolding with_store_and_retention default_retention
  with_store fault now table = with_store_and_retention fault now table default_retention

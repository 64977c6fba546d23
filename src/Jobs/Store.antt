-- ===== src/Jobs/Store.antt =====
-- src/jobs.rs, `JobRegistry`: the state behind the lock, the optional store, and how a handler saves.
use fairlead.Base.{String, Option, none, some, Result, ok, err, ◌≡◌, refl, ◌⊎◌, inl, inr, arith}
use fairlead.Base.Maps.{insert}
use fairlead.Jobs.Types.{JobRecord, JobRegistryInner, JobRetentionPolicy, empty_inner}
use fairlead.Storage.{JobTable, replace_registry_snapshot}

pub record JobRegistry (V : Type 0) : Type 0 where
  pub inner : JobRegistryInner V
  pub store : Option (JobTable V)
  pub retention_policy : JobRetentionPolicy

-- `JobRegistry::new`
unfoldable pub new : {V : Type 0} → JobRetentionPolicy → JobRegistry V
new policy = record { inner = empty_inner; store = none; retention_policy = policy }

abbrev pub Unit₀ : Type 0
Unit₀ = Unit {0}

-- The transaction: a fault of SQLite, or a clash of keys, rolls it back.
unfoldable pub saved_table :
    {V : Type 0} → Option String → JobRegistryInner V → Result String (JobTable V)
saved_table (some fault) inner = err fault
saved_table none inner = elim (replace_registry_snapshot inner) [
  | none ↦ err "UNIQUE constraint failed: jobs.id"
  | some table ↦ ok table
]

-- `persist_locked`. The first argument is the fault that SQLite reports this time, if any.
unfoldable pub persist_locked :
    {V : Type 0} → Option String → JobRegistry V → JobRegistry V × Result String Unit₀
unfolding saved_table
persist_locked fault r = elim r.store [
  | none ↦ (r, ok tt)
  | some old ↦ elim (saved_table fault r.inner) [
    | ok table ↦ (record r { store = some table }, ok tt)
    | err message ↦ (r, err message)
  ]
]

-- `self.persist_locked(&guard)` and the two ways on.
abbrev pub settle :
    {V A : Type 0} → JobRegistry V × Result String Unit₀ → A → (String → A) → JobRegistry V × A
settle (r, ok _) good bad = (r, good)
settle (r, err message) good bad = (r, bad message)

-- The map with the record at `id` replaced: a write through `get_mut`.
abbrev pub put_job : {V : Type 0} → JobRegistry V → String → JobRecord V → JobRegistry V
put_job r id job = record r { inner = record r.inner { jobs = insert id job r.inner.jobs } }

-- Saving does not touch the state in memory, whether it succeeds or not.
pub settle-inner :
    {V A : Type 0} (fault : Option String) (r : JobRegistry V) (good : A) (bad : String → A)
    → (settle (persist_locked fault r) good bad).0.inner ≡ r.inner
unfolding persist_locked
settle-inner fault r good bad = ground arith

pub persist_locked-inner :
    {V : Type 0} (fault : Option String) (r : JobRegistry V)
    → (persist_locked fault r).0.inner ≡ r.inner
unfolding persist_locked
persist_locked-inner fault r = ground arith

-- The two results of a save.
pub settle-cases :
    {V A : Type 0} (saved : JobRegistry V × Result String Unit₀) (good : A) (bad : String → A)
    → ((settle saved good bad).1 ≡ good) ⊎ ((m : String) × ((settle saved good bad).1 ≡ bad m))
settle-cases (r, ok u) good bad = inl refl
settle-cases (r, err m) good bad = inr (m, refl)

-- Without a store nothing can fail.
pub settle_memory :
    {V A : Type 0} (fault : Option String) (r : JobRegistry V) (good : A) (bad : String → A)
    → r.store ≡ none
    → settle (persist_locked fault r) good bad ≡ (r, good)
unfolding persist_locked
settle_memory fault r good bad h = ground arith

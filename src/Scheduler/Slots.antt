-- ===== src/Scheduler/Slots.antt =====
-- The slots of the workers against the leases of the jobs, across the handlers.
pub mod Sweep
pub mod Claim
pub mod Finish
pub mod Requests
pub mod Clients
pub mod Admin
pub mod Prune
pub mod Kept
use fairlead.Base.{
  ℕ, ◌+◌, ◌<◌, String, none, List, [], ◌∷◌, ◌≡◌, ◌∙◌, ap, sym, count, string_eq, arith, ◌-◌,
  if◌then◌else◌, ◌==◌, string_beq_iff,
}
use fairlead.Jobs.Store.{JobRegistry}
use fairlead.Jobs.Valid.{IsValid}
use fairlead.Jobs.Held.{held}
use fairlead.Workers.Types.{WorkerRegistry}
use fairlead.Workers.Registry.{release_slot}
use fairlead.Workers.Valid.{WorkersIsValid, WorkerCall, after_worker, after_worker-IsValid}
use fairlead.Workers.Slots.{slots_of, release-slots}
use fairlead.Scheduler.State.{AppState, Moment, release, release_all}

rel-IsValid :
    {V : Type 0} (at : Moment) (id : String) (s : AppState V)
    → WorkersIsValid s.workers
    → WorkersIsValid (release at id s).workers
unfolding release after_worker
rel-IsValid at id s v = after_worker-IsValid at.clock s.workers (WorkerCall.release_slot id) v

module _ {V : Type 0} where
  -- The registries are valid, the jobs are kept in memory only, and each worker has as many slots in
  -- use as running jobs are leased to it, and one more for each time `ids` names it.
  pub record Owes (ids : List String) (s : AppState V) : Type 0 where
    pub memory : s.jobs.store ≡ none
    pub jobs : IsValid s.jobs.inner
    pub workers : WorkersIsValid s.workers
    pub balanced : (w : String) → slots_of s.workers w ≡ held w s.jobs.inner + count w ids

  -- The slots in use are the leases of running jobs.
  abbrev pub Balanced : AppState V → Type 0
  Balanced s = Owes [] s

  -- The counters do not wrap around in the next call.
  pub record HasRoom (s : AppState V) : Type 0 where
    pub ids : s.jobs.inner.next_id + 1 < 18446744073709551616
    pub slots : (w : String) → slots_of s.workers w + 1 < 18446744073709551616

  -- A call on the jobs that returns the registry `r'`, and what it does to the leases.
  pub jobs-Owes :
      (ids ids' : List String) (s : AppState V) (r r' : JobRegistry V)
      → r ≡ r'
      → r'.store ≡ none
      → Owes ids s
      → IsValid r.inner
      → ((w : String) → held w s.jobs.inner + count w ids ≡ held w r'.inner + count w ids')
      → Owes ids' (record s { jobs = r })
  jobs-Owes ids ids' s r r' e mem o valid moves = record {
    memory = ap (λ x. x.store) e ∙ mem;
    jobs = valid;
    workers = o.workers;
    balanced = λ w. o.balanced w ∙ (moves w ∙ ap (λ x. held w x.inner + count w ids') (sym e));
  }

  -- Giving a slot back pays what is owed to a worker.
  pub release-Owes :
      (at : Moment) (id : String) (ids : List String) (s : AppState V)
      → Owes (id ∷ ids) s
      → Owes ids (release at id s)
  unfolding release
  release-Owes at id ids s o = record {
    memory = o.memory;
    jobs = o.jobs;
    workers = rel-IsValid at id s o.workers;
    balanced = λ w. ground (
      arith,
      release-slots at.clock s.workers id w,
      o.balanced w,
      string_beq_iff id w,
      string_beq_iff w id,
    );
  }

  pub release_all-Owes :
      (at : Moment) (ids : List String) (s : AppState V)
      → Owes ids s
      → Balanced (release_all at ids s)
  unfolding release_all
  release_all-Owes at [] s o = o
  release_all-Owes at (id ∷ ids) s o =
      release_all-Owes at ids (release at id s) (release-Owes at id ids s o)

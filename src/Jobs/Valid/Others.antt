-- ===== src/Jobs/Valid/Others.antt =====
-- Cancelling and the bookkeeping of callbacks keep the registry valid.
use fairlead.Base.{true, false, ℕ, String, some, ◌≡◌, refl, arith, string_eq}
use fairlead.Base.Maps.{get, is_some}
use fairlead.Jobs.Types.{JobRecord, JobCallbackState, JobRegistryInner, is_terminal}
use fairlead.Jobs.Leases.{dequeue_as}
use fairlead.Jobs.Cancel.{cancelled_job}
use fairlead.Jobs.Steps.Relation.{put}
use fairlead.Jobs.Valid.{JobIsValid, IsValid}
use fairlead.Jobs.Valid.Replace.{Replaces, replaced-IsValid, fit_same, fit_remove}

module _ {V : Type 0} {job : JobRecord V} (v : JobIsValid job) where
  cancelled_job-JobIsValid :
      (now : ℕ) → is_terminal job.status ≡ false → JobIsValid (cancelled_job now job)
  unfolding cancelled_job
  cancelled_job-JobIsValid now h = ground arith

  noted-JobIsValid :
      (callback : JobCallbackState)
      → is_some job.callback ≡ true
      → JobIsValid (record job { callback = some callback })
  noted-JobIsValid callback h = ground arith

module _ {V : Type 0} {s : JobRegistryInner V} (v : IsValid s) (id : String) {job : JobRecord V}
    (at : get id s.jobs ≡ some job) where
  pub cancelled-IsValid :
      (now : ℕ) → is_terminal job.status ≡ false → IsValid (dequeue_as id (cancelled_job now job) s)
  unfolding cancelled_job
  cancelled-IsValid now h =
      let better = cancelled_job-JobIsValid (v.valid id job at) now h in
      let same : Replaces job (cancelled_job now job) = ground arith in
      replaced-IsValid v id at same better _ (fit_remove v id at same (ground arith))

  pub noted-IsValid :
      (callback : JobCallbackState)
      → is_some job.callback ≡ true
      → IsValid (put id (record job { callback = some callback }) s)
  noted-IsValid callback h =
      let better = noted-JobIsValid (v.valid id job at) callback h in
      let same : Replaces job (record job { callback = some callback }) = ground arith in
      replaced-IsValid v id at same better _ (fit_same v id at same (λ p. refl))

-- ===== src/Jobs/Valid/Runs.antt =====
-- The invariant over whole histories: it holds at the start, and every step keeps it.
use fairlead.Base.{◌+◌, ◌<◌, refl, sym, subst, arith}
use fairlead.Base.Maps.{get}
use fairlead.Jobs.Types.{JobRegistryInner, empty_inner}
use fairlead.Jobs.Queues.{for_priority}
use fairlead.Jobs.Steps.Relation.{
  Step, stays, submits, claims, renews, completes, requeues, fails, cancels, notes, sweeps,
}
use fairlead.Jobs.Valid.{IsValid}
use fairlead.Jobs.Valid.Leases.{
  claimed-IsValid, renewed-IsValid, completed-IsValid, requeued-IsValid, failed-IsValid,
}
use fairlead.Jobs.Valid.Others.{cancelled-IsValid, noted-IsValid}
use fairlead.Jobs.Valid.Submit.{accept_new-IsValid}
use fairlead.Jobs.Valid.Expiry.{requeue_expired-IsValid}

module _ {V : Type 0} where
  pub empty_inner-IsValid : IsValid (empty_inner {V = V})
  unfolding empty_inner get for_priority
  empty_inner-IsValid = record {
    named = λ id job h. cc;
    valid = λ id job h. absurd (cc);
    queued_once = λ p id. ground arith;
    ordered_once = λ id. refl;
    keyed = λ k id h. absurd (cc);
    keys_known = λ k id job h e. absurd (cc);
    fresh = λ n h. refl;
    unique = tt;
  }

  -- Every step of the registry keeps it valid, as long as the counter of ids does not wrap around.
  pub Step-IsValid :
      {s s' : JobRegistryInner V}
      → s.next_id + 1 < 18446744073709551616
      → IsValid s
      → Step s s'
      → IsValid s'
  Step-IsValid room v (stays e) = subst (λ t. IsValid t) (sym e) v
  Step-IsValid room v (submits now request url key free e) =
      subst (λ t. IsValid t) (sym e) (accept_new-IsValid v now request url key free room)
  Step-IsValid room v (claims id job worker_id duration now at on e) =
      subst (λ t. IsValid t) (sym e) (claimed-IsValid v id at worker_id duration now on)
  Step-IsValid room v (renews id job lease duration now at on held early e) =
      subst (λ t. IsValid t) (sym e) (renewed-IsValid v id at lease duration now held)
  Step-IsValid room v (completes id job lease now result at on held early e) =
      subst (λ t. IsValid t) (sym e)
        (completed-IsValid v id at lease.worker_id now result lease held on)
  Step-IsValid room v (requeues id job lease now failure at on held early again e) =
      subst (λ t. IsValid t) (sym e) (requeued-IsValid v id at now failure on again)
  Step-IsValid room v (fails id job lease now failure at on held early e) =
      subst (λ t. IsValid t) (sym e)
        (failed-IsValid v id at lease.worker_id now failure lease held on)
  Step-IsValid room v (cancels id job now at on e) =
      subst (λ t. IsValid t) (sym e) (cancelled-IsValid v id at now on)
  Step-IsValid room v (notes id job callback at has e) =
      subst (λ t. IsValid t) (sym e) (noted-IsValid v id at callback has)
  Step-IsValid {s} room v (sweeps now e) =
      subst (λ t. IsValid t) (sym e) (requeue_expired-IsValid now s v)

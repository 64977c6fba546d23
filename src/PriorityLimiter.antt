-- ===== src/PriorityLimiter.antt =====
-- src/priority.rs: how many requests of each priority run at the same time.
use fairlead.Base.{
  ℕ, ◌+◌, ◌-◌, ◌<◌, Bool, true, false, Option, none, some, List, [], ◌∷◌, ◌≡◌, ◌==◌, ltb, u64,
  if◌then◌else◌, arith,
}
use fairlead.Config.{Priority, realtime, batch, background, priority_eq}

-- `permits` is what the semaphore has left.
pub record PriorityBucket : Type 0 where
  pub limit : ℕ
  pub permits : ℕ
  pub in_flight : ℕ  -- an atomic usize

pub record PriorityLimiter : Type 0 where
  pub realtime_bucket : PriorityBucket
  pub batch_bucket : PriorityBucket
  pub background_bucket : PriorityBucket

pub record PrioritySnapshot : Type 0 where
  pub priority : Priority
  pub limit : ℕ
  pub in_flight : ℕ

unfoldable pub new_bucket : ℕ → PriorityBucket
new_bucket limit = record { limit = limit; permits = limit; in_flight = 0 }

unfoldable pub new_limiter : ℕ → ℕ → ℕ → PriorityLimiter
unfolding new_bucket
new_limiter realtime_limit batch_limit background_limit = record {
  realtime_bucket = new_bucket realtime_limit;
  batch_bucket = new_bucket batch_limit;
  background_bucket = new_bucket background_limit;
}

unfoldable pub default_limiter : PriorityLimiter
unfolding new_limiter
default_limiter = new_limiter 8 4 2

unfoldable pub bucket : Priority → PriorityLimiter → PriorityBucket
bucket realtime l = l.realtime_bucket
bucket batch l = l.batch_bucket
bucket background l = l.background_bucket

unfoldable pub set_bucket : Priority → PriorityBucket → PriorityLimiter → PriorityLimiter
set_bucket realtime b l = record l { realtime_bucket = b }
set_bucket batch b l = record l { batch_bucket = b }
set_bucket background b l = record l { background_bucket = b }

-- The bucket with a permit taken, if the semaphore has one.
unfoldable pub acquire_bucket : PriorityBucket → Option PriorityBucket
acquire_bucket b =
    if ltb 0 b.permits
    then some (record b { permits = b.permits - 1; in_flight = u64 (b.in_flight + 1) })
    else none

-- `PriorityPermit::drop`: the counter goes down, and the semaphore gets its permit back. The counter
-- of the code would wrap below 0, where it never is while a permit is held.
unfoldable pub drop_permit : Priority → PriorityLimiter → PriorityLimiter
unfolding bucket set_bucket
drop_permit p l =
    let b = bucket p l in
    set_bucket p (record b { permits = b.permits + 1; in_flight = b.in_flight - 1 }) l

-- The limiter, and whether a permit was given.
unfoldable pub try_acquire : Priority → PriorityLimiter → PriorityLimiter × Bool
unfolding bucket set_bucket acquire_bucket
try_acquire p l = elim (acquire_bucket (bucket p l)) [
  | none ↦ (l, false)
  | some b ↦ (set_bucket p b l, true)
]

abbrev pub snapshot_of : Priority → PriorityBucket → PrioritySnapshot
snapshot_of p b = record { priority = p; limit = b.limit; in_flight = b.in_flight }

unfoldable pub snapshots : PriorityLimiter → List PrioritySnapshot
snapshots l =
    snapshot_of realtime l.realtime_bucket
    ∷ snapshot_of batch l.batch_bucket
    ∷ snapshot_of background l.background_bucket
    ∷ []

-- Acquiring, and dropping a permit that was given.
pub data LimiterEvent : Type 0 where
  acquires drops : Priority → LimiterEvent

-- A permit can only be dropped while it is held.
unfoldable pub after_event :
    LimiterEvent → PriorityLimiter × (Priority → ℕ) → PriorityLimiter × (Priority → ℕ)
unfolding try_acquire drop_permit
after_event (acquires p) (l, held) =
    let (l', given) = try_acquire p l in
    (l', λ q. if given then (if p == q then held q + 1 else held q) else held q)
after_event (drops p) (l, held) =
    if ltb 0 (held p)
    then (drop_permit p l, λ q. if p == q then held q - 1 else held q)
    else (l, held)

unfoldable pub run_limiter :
    PriorityLimiter × (Priority → ℕ) → List LimiterEvent → PriorityLimiter × (Priority → ℕ)
unfolding after_event
run_limiter s [] = s
run_limiter s (e ∷ es) = run_limiter (after_event e s) es

-- The permits that are held and those that are left make up the limit, and the counter shows the
-- former.
pub record IsMetered (l : PriorityLimiter) (held : Priority → ℕ) : Type 0 where
  pub shared : (p : Priority) → (bucket p l).permits + held p ≡ (bucket p l).limit
  pub shown : (p : Priority) → (bucket p l).in_flight ≡ held p
  pub small : (p : Priority) → (bucket p l).limit < 18446744073709551616

after_event-IsMetered :
    (e : LimiterEvent) (l : PriorityLimiter) (held : Priority → ℕ)
    → IsMetered l held
    → IsMetered (after_event e (l, held)).0 (after_event e (l, held)).1
unfolding after_event try_acquire drop_permit bucket set_bucket acquire_bucket
after_event-IsMetered (LimiterEvent.acquires p) l held m = record {
  shared = λ q. ground (arith, m.shared p, m.shared q, m.small p);
  shown = λ q. ground (arith, m.shared p, m.shown p, m.shown q, m.small p);
  small = λ q. ground (arith, m.small q);
}
after_event-IsMetered (LimiterEvent.drops p) l held m = record {
  shared = λ q. ground (arith, m.shared p, m.shared q);
  shown = λ q. ground (arith, m.shown p, m.shown q);
  small = λ q. ground (arith, m.small q);
}

-- Through any sequence of acquisitions and drops of held permits, in each priority the permits that are
-- held and those that are left make up the limit, so that never more requests than the limit run, and
-- the counter that the metrics show is the number of permits held. This holds before the sequence.
pub run_limiter-IsMetered :
    (es : List LimiterEvent) (l : PriorityLimiter) (held : Priority → ℕ)
    → IsMetered l held
    → IsMetered (run_limiter (l, held) es).0 (run_limiter (l, held) es).1
unfolding run_limiter
run_limiter-IsMetered [] l held m = m
run_limiter-IsMetered (e ∷ es) l held m =
    run_limiter-IsMetered es (after_event e (l, held)).0 (after_event e (l, held)).1
      (after_event-IsMetered e l held m)

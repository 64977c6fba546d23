-- ===== src/Router/Circuit.antt =====
-- src/router/circuit.rs: the circuit breaker of one backend. Instants are nanoseconds.
use fairlead.Base.{
  Bool, true, false, ℕ, ◌+◌, ◌-◌, ◌≤◌, ◌<◌, List, [], ◌∷◌, length, ◌≡◌, refl, ltb, leb, u32,
  if◌then◌else◌, arith,
}

pub data CircuitState : Type 0 where
  closed half_open : CircuitState
  open_since : ℕ → CircuitState

pub record CircuitBreaker : Type 0 where
  pub state : CircuitState
  pub consecutive_failures : ℕ  -- u32
  pub failure_threshold : ℕ
  pub cooldown : ℕ

unfoldable pub new_circuit : ℕ → ℕ → CircuitBreaker
new_circuit failure_threshold cooldown = record {
  state = CircuitState.closed;
  consecutive_failures = 0;
  failure_threshold = failure_threshold;
  cooldown = cooldown;
}

-- The breaker after the question, and the answer.
unfoldable pub is_available : ℕ → CircuitBreaker → CircuitBreaker × Bool
is_available now c = elim c.state [
  | closed ↦ (c, true)
  | half_open ↦ (c, true)
  | open_since since ↦
      if ltb (now - since) c.cooldown
      then (c, false)
      else (record c { state = CircuitState.half_open }, true)
]

unfoldable pub record_success : CircuitBreaker → CircuitBreaker
record_success c = record c { consecutive_failures = 0; state = CircuitState.closed }

unfoldable pub record_failure : ℕ → CircuitBreaker → CircuitBreaker
record_failure now c =
    let failures = u32 (c.consecutive_failures + 1) in
    if leb c.failure_threshold failures
    then record c { consecutive_failures = failures; state = CircuitState.open_since now }
    else record c { consecutive_failures = failures }

-- What happens to a breaker, with the time.
pub data CircuitEvent : Type 0 where
  asked failed : ℕ → CircuitEvent
  succeeded : CircuitEvent

unfoldable pub after_event : CircuitEvent → CircuitBreaker → CircuitBreaker
after_event (asked now) c = (is_available now c).0
after_event (failed now) c = record_failure now c
after_event succeeded c = record_success c

-- The history is read from its latest event back.
unfoldable pub run_circuit : CircuitBreaker → List CircuitEvent → CircuitBreaker
unfolding after_event
run_circuit c [] = c
run_circuit c (e ∷ es) = after_event e (run_circuit c es)

-- The failures since the last success.
unfoldable pub trailing_failures : List CircuitEvent → ℕ
trailing_failures [] = 0
trailing_failures (asked now ∷ es) = trailing_failures es
trailing_failures (failed now ∷ es) = trailing_failures es + 1
trailing_failures (succeeded ∷ es) = 0

abbrev pub is_closed : CircuitBreaker → Bool
is_closed c = elim c.state [ closed ↦ true | half_open ↦ false | open_since since ↦ false ]

-- What the history says about the breaker.
pub record Reflects (threshold cooldown : ℕ) (es : List CircuitEvent) (c : CircuitBreaker)
    : Type 0 where
  pub counted : c.consecutive_failures ≡ trailing_failures es
  pub threshold_kept : c.failure_threshold ≡ threshold
  pub cooldown_kept : c.cooldown ≡ cooldown
  pub closed_below : trailing_failures es < threshold → is_closed c ≡ true
  pub open_above : threshold ≤ trailing_failures es → is_closed c ≡ false

trailing-length : (es : List CircuitEvent) → trailing_failures es ≤ length es
unfolding trailing_failures
trailing-length [] = omega arith
trailing-length (CircuitEvent.asked now ∷ es) = omega (arith, trailing-length es)
trailing-length (CircuitEvent.failed now ∷ es) = omega (arith, trailing-length es)
trailing-length (CircuitEvent.succeeded ∷ es) = omega arith

-- The breaker is closed exactly while the failures since the last success are fewer than the
-- threshold, whatever was asked in between: it opens at the threshold, and only a success closes it.
-- The threshold is above 0, and the history shorter than 2 ^ 32, so that the counter does not wrap.
pub run_circuit-Reflects :
    (threshold cooldown : ℕ) (es : List CircuitEvent)
    → 0 < threshold
    → length es < 4294967296
    → Reflects threshold cooldown es (run_circuit (new_circuit threshold cooldown) es)
unfolding run_circuit new_circuit trailing_failures after_event is_available record_failure
    record_success
run_circuit-Reflects threshold cooldown [] pos short = record {
  counted = refl;
  threshold_kept = refl;
  cooldown_kept = refl;
  closed_below = λ h. refl;
  open_above = λ h. absurd (omega arith);
}
run_circuit-Reflects threshold cooldown (CircuitEvent.asked now ∷ es) pos short =
    let before = run_circuit-Reflects threshold cooldown es pos (omega arith) in
    ground (arith, before.counted)
run_circuit-Reflects threshold cooldown (CircuitEvent.failed now ∷ es) pos short =
    let before = run_circuit-Reflects threshold cooldown es pos (omega arith) in
    ground (arith, before.counted, trailing-length es)
run_circuit-Reflects threshold cooldown (CircuitEvent.succeeded ∷ es) pos short =
    let before = run_circuit-Reflects threshold cooldown es pos (omega arith) in
    ground (arith, before.counted)

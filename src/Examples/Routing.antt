-- ===== src/Examples/Routing.antt =====
-- Circuit breakers, the choice of a backend, and the priority limits, on small states.
use Prim.Native.Nat.{compare}
use fairlead.Base.{
  false, ℕ, String, Option, none, some, List, [], ◌∷◌, ◌≡◌, refl, nat_eq, arith, string_eq,
}
use fairlead.Config.{Priority}
use fairlead.Router.Circuit.{
  CircuitBreaker, CircuitEvent, run_circuit, new_circuit, is_available, Reflects,
  run_circuit-Reflects, record_failure,
}
use fairlead.Config.Workloads.{default_proxy_workloads}
use fairlead.Router.Fallback.{BackendState, ResourceRank, select_backend_excluding_resource}
use fairlead.Router.Exhausted.{select_backend-exhausted}
use fairlead.Router.Choice.{lets_through, MayServe, select_backend-MayServe}
use fairlead.PriorityLimiter.{
  LimiterEvent, run_limiter, default_limiter, new_limiter, new_bucket, bucket, IsMetered,
  run_limiter-IsMetered,
}

abbrev history : List CircuitEvent
history =
    CircuitEvent.asked 900
    ∷ CircuitEvent.failed 500
    ∷ CircuitEvent.failed 400
    ∷ CircuitEvent.succeeded
    ∷ []

run_circuit-Reflects_example : Reflects 2 100 history (run_circuit (new_circuit 2 100) history)
run_circuit-Reflects_example = run_circuit-Reflects 2 100 history (omega arith) (omega arith)

abbrev backend : String → BackendState
backend id = record {
  id = id;
  url = "http://node-a:8000/v1/";
  node_id = some "node-a";
  pool = "local-llm";
  workloads = default_proxy_workloads;
  circuit = record {
    state = fairlead.Router.Circuit.CircuitState.closed;
    consecutive_failures = 0;
    failure_threshold = 3;
    cooldown = 100;
  };
}

abbrev backends : List BackendState
backends = backend "a" ∷ backend "b" ∷ []

abbrev ranks : List (Option (ResourceRank ℕ))
ranks = none ∷ none ∷ []

second_chosen :
    (select_backend_excluding_resource compare 7 backends
      (some 0)
      (some "node-a")
      (0 ∷ [])
      []
      ranks).1
    ≡ some 1
unfolding select_backend_excluding_resource fairlead.Router.Fallback.best_available_backend
    fairlead.Router.Fallback.ask_all fairlead.Router.Fallback.ask
    fairlead.Router.Fallback.set_circuit is_available fairlead.Router.Fallback.indexes
    fairlead.Router.Fallback.local_candidates fairlead.Router.Fallback.min_by
    fairlead.Router.Fallback.least
second_chosen = refl

select_backend-MayServe_example : MayServe 7 backends (0 ∷ []) [] 1
select_backend-MayServe_example =
    select_backend-MayServe 7 backends (0 ∷ []) [] compare ranks (some 0) (some "node-a") 1
      second_chosen

abbrev nothing_held : Priority → ℕ
nothing_held p = 0

default_limiter-IsMetered : IsMetered default_limiter nothing_held
unfolding default_limiter new_limiter new_bucket bucket
default_limiter-IsMetered = record {
  shared = λ p. ground arith;
  shown = λ p. ground arith;
  small = λ p. ground arith;
}

abbrev traffic : List LimiterEvent
traffic = LimiterEvent.acquires Priority.batch ∷ LimiterEvent.drops Priority.batch ∷ []

run_limiter-IsMetered_example :
    IsMetered
      (run_limiter (default_limiter, nothing_held) traffic).0
      (run_limiter (default_limiter, nothing_held) traffic).1
run_limiter-IsMetered_example =
    run_limiter-IsMetered traffic default_limiter nothing_held default_limiter-IsMetered

abbrev opened : CircuitBreaker
opened = record {
  state = fairlead.Router.Circuit.CircuitState.open_since 500;
  consecutive_failures = 3;
  failure_threshold = 3;
  cooldown = 100;
}

-- Both backends have opened their breakers.
abbrev broken : List BackendState
broken = record (backend "a") { circuit = opened } ∷ record (backend "b") { circuit = opened } ∷ []

none_chosen :
    (select_backend_excluding_resource compare 550 broken (some 0) (some "node-a") [] [] ranks).1
    ≡ none
unfolding select_backend_excluding_resource fairlead.Router.Fallback.best_available_backend
    fairlead.Router.Fallback.ask_all fairlead.Router.Fallback.ask
    fairlead.Router.Fallback.set_circuit is_available fairlead.Router.Fallback.indexes
    fairlead.Router.Fallback.local_candidates fairlead.Router.Fallback.min_by
    fairlead.Router.Fallback.least fairlead.Router.Fallback.try_preferred
    fairlead.Router.Fallback.walk_remaining
none_chosen = refl

select_backend-exhausted_example : lets_through 550 broken 1 ≡ false
select_backend-exhausted_example =
    select_backend-exhausted 550 broken [] [] compare ranks (some 0) (some "node-a") 1 none_chosen
      refl

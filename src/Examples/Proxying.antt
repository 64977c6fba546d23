-- ===== src/Examples/Proxying.antt =====
-- Runs of the proxy: two backends, of which the first answers with a server error.
use Prim.Native.Nat.{compare}
use fairlead.Base.{
  ℕ, zero, suc, ◌+◌, ◌<◌, ◌≤◌, Bool, true, false, String, Option, none, some, List, [], ◌∷◌, ◌==◌,
  ◌≡◌, ◌⊎◌, refl, not, nat_eq, string_eq, length, contains, get_elem?, and_then, arith,
  if◌then◌else◌,
}
use fairlead.Base.Maps.{is_some}
use fairlead.Config.{Priority, WorkloadPoolPolicy}
use fairlead.Config.Workloads.{WorkloadKind, WorkloadRoute, default_proxy_workloads, route}
use fairlead.Metrics.{counted, no_metrics}
use fairlead.PriorityLimiter.{bucket}
use fairlead.Proxy.Counts.{pool_candidate_counts-exact}
use fairlead.Proxy.Permits.{CountRule, PermitKept, forward-CountRule, forward-PermitKept}
use fairlead.Proxy.Exhausted.{select_backend_for_route-exhausted}
use fairlead.Proxy.Forward.{forward}
use fairlead.Proxy.Replies.{SentOnce, forward-SentOnce, forward-replies}
use fairlead.Proxy.Resourced.{Standing, resource_state-exact}
use fairlead.Proxy.Selection.{
  pool_candidate_counts, pool_ineligible_backends, resource_selection_state, route_allows_backend,
  route_ineligible_backends, select_backend_for_route, selection_ineligible_with_pool,
}
use fairlead.Proxy.Types.{
  Answer, HeaderMap, parse_priority, Outside, ProxyState, Reply, ResourceSelectionState, Sent,
}
use fairlead.Resources.{
  ResourceRegistry, ResourceReport, ResourceReportRequest, ResourceRoutingPolicy,
  fresh_backend_report, new_resources, report, required_vram_mb,
}
use fairlead.Resources.Filed.{after_reports}
use fairlead.Resources.Fresh.{Current, Reports, after_reports-Current, report-Reports}
use fairlead.Workers.Types.{Clock}
use fairlead.Router.Choice.{lets_through}
use fairlead.Router.Circuit.{CircuitBreaker, CircuitState}
use fairlead.Router.Fallback.{BackendState, ResourceRank, indexes, is_allowed}

abbrev outside : Outside String ℕ
outside = record { to_str = λ v. some v; from_static = λ s. s; load_cmp = compare }

abbrev opened : CircuitBreaker
opened = record {
  state = CircuitState.open_since 0;
  consecutive_failures = 3;
  failure_threshold = 3;
  cooldown = 100;
}

abbrev backend : String → BackendState
backend id = record {
  id = id;
  url = "http://node-a:8000/v1/";
  node_id = some "node-a";
  pool = "default";
  workloads = default_proxy_workloads;
  circuit = record {
    state = CircuitState.closed;
    consecutive_failures = 0;
    failure_threshold = 3;
    cooldown = 100;
  };
}

abbrev state : ProxyState String ℕ
state = record {
  backends = backend "a" ∷ backend "b" ∷ [];
  workload_pools = record { pools_by_workload = [] };
  affinity = [];
  metrics = no_metrics;
  resources = record { reports = []; stale_after = 30 };
  resource_policy = record {
    enabled = false;
    chat_completions_required_vram_mb = 1024;
    embeddings_required_vram_mb = 512;
  };
  priority_limiter = record {
    realtime_bucket = record { limit = 8; permits = 8; in_flight = 0 };
    batch_bucket = record { limit = 4; permits = 4; in_flight = 0 };
    background_bucket = record { limit = 2; permits = 2; in_flight = 0 };
  };
  sent = [];
}

abbrev headers : HeaderMap String
headers name = if name == "x-fairlead-priority" then some " Batch " else none

-- The first request fails with 500, every later one is served.
abbrev send : ℕ → Sent String → Answer String
send zero out = Answer.answered (record { status = 500; content_type = none })
send (suc n) out = Answer.answered (record { status = 200; content_type = some "application/json" })

abbrev time : ℕ → ℕ
time n = n

abbrev chat : WorkloadRoute
chat = record {
  kind = WorkloadKind.chat_completions;
  upstream_path = "chat/completions";
  backend_pool = fairlead.Config.Workloads.BackendPoolPolicy.any_pool;
  retry_server_errors = true;
}

abbrev shown : Option (ProxyState String ℕ × Reply String) → Option (ℕ × List ℕ)
shown r = and_then r (λ x. some (x.1.status, fairlead.Base.map (λ o. o.backend) x.0.sent))

-- The second backend serves the request.
retried : shown (forward outside time send chat headers state) ≡ some (200, 0 ∷ 1 ∷ [])
unfolding forward fairlead.Base.Maps.get fairlead.Router.Circuit.is_available
retried = refl

forward-replies_example :
    (s' : ProxyState String ℕ) × (reply : Reply String) × (forward outside time send chat headers
        state
      ≡ some (s', reply))
    × (length s'.sent ≤ 0 + 2)
forward-replies_example = forward-replies outside time send chat headers state

-- The state and the reply after the run.
abbrev after : ProxyState String ℕ
after = (forward-replies outside time send chat headers state).0

abbrev answer : Reply String
answer = (forward-replies outside time send chat headers state).1

run_after : forward outside time send chat headers state ≡ some (after, answer)
run_after = (forward-replies outside time send chat headers state).2

forward-SentOnce_example : SentOnce outside time send chat headers state after
forward-SentOnce_example =
    forward-SentOnce outside time send chat headers state after answer run_after

few_requests : counted state.metrics.requests + 1 < 18446744073709551616
unfolding counted
few_requests = omega arith

forward-CountRule_example :
    CountRule outside time send chat headers state after answer (parse_priority outside headers)
forward-CountRule_example =
    forward-CountRule outside time send chat headers state after answer run_after few_requests

small_buckets :
    (p : Priority) → (bucket p state.priority_limiter).in_flight + 1 < 18446744073709551616
unfolding bucket
small_buckets Priority.realtime = omega arith
small_buckets Priority.batch = omega arith
small_buckets Priority.background = omega arith

forward-PermitKept_example :
    PermitKept outside time send chat headers state after answer.body answer.held
forward-PermitKept_example =
    forward-PermitKept outside time send chat headers state after answer run_after small_buckets

-- Both breakers are open.
abbrev broken : ProxyState String ℕ
broken = record state {
  backends =
      record (backend "a") { circuit = opened } ∷ record (backend "b") { circuit = opened } ∷ [];
}

abbrev no_resources : ResourceSelectionState ℕ
no_resources = record { ineligible = []; ranks = none ∷ none ∷ [] }

none_selected :
    (select_backend_for_route outside 5 chat Priority.batch none none
      (0 ∷ [])
      (route_ineligible_backends broken.backends chat broken.workload_pools)
      no_resources
      broken).1
    ≡ none
unfolding select_backend_for_route fairlead.Base.Maps.get route_ineligible_backends
    fairlead.Router.Circuit.is_available
none_selected = refl

b_allowed :
    route_allows_backend (record (backend "b") { circuit = opened }) chat broken.workload_pools
    ≡ true
unfolding route_allows_backend fairlead.Base.Maps.get
b_allowed = refl

select_backend_for_route-exhausted_example : lets_through 5 broken.backends 1 ≡ false
select_backend_for_route-exhausted_example =
    select_backend_for_route-exhausted outside 5 chat Priority.batch none none (0 ∷ []) no_resources
      broken 1 (record (backend "b") { circuit = opened }) refl b_allowed refl refl none_selected

pool_candidate_counts-exact_example :
    (pool_candidate_counts state.backends "default" (0 ∷ []) [] []).0
    ≡ length (
        indexes
          (λ i b.
            is_allowed
              (0 ∷ [])
              (selection_ineligible_with_pool [] []
                (pool_ineligible_backends state.backends "default"))
              i)
          0
          state.backends)
pool_candidate_counts-exact_example =
    pool_candidate_counts-exact state.backends "default" (0 ∷ []) [] []

abbrev report_a : ResourceReport ℕ
report_a = record {
  node_id = "node-a";
  backend_id = some "a";
  total_vram_mb = 4096;
  reserved_vram_mb = 1024;
  available_vram_mb = 3072;
  current_load = some 0;
}

abbrev reported : ResourceRegistry ℕ
reported = record {
  reports =
      (
        record { node_id = "node-a"; backend_id = "a" },
        record { report = report_a; observed_at = 0; reported_at = 0 },
      )
      ∷ [];
  stale_after = 30;
}

abbrev by_memory : ResourceRoutingPolicy
by_memory = record {
  enabled = true;
  chat_completions_required_vram_mb = 1024;
  embeddings_required_vram_mb = 512;
}

resource_state-exact_example :
    (rank : Option (ResourceRank ℕ)) × Standing 10
      (required_vram_mb by_memory WorkloadKind.chat_completions)
      reported
      (backend "b")
      rank
    × (get_elem?
          (resource_selection_state 10 state.backends reported by_memory
            WorkloadKind.chat_completions).ranks
          1
        ≡ some rank)
    × (contains
          (resource_selection_state 10 state.backends reported by_memory
            WorkloadKind.chat_completions).ineligible
          1
        ≡ not (is_some rank))
resource_state-exact_example =
    resource_state-exact 10 state.backends reported by_memory WorkloadKind.chat_completions 1
      (backend "b") refl refl

abbrev news : List (Clock × ResourceReportRequest ℕ)
news =
    (
      record { system = 7000000; monotonic = 7 },
      record {
        node_id = " node-a";
        backend_id = some "a";
        total_vram_mb = 4096;
        reserved_vram_mb = 1024;
        current_load = some 0;
      },
    )
    ∷ []

abbrev any_load : ℕ → Bool
any_load load = true

abbrev registry_now : ResourceRegistry ℕ
registry_now = after_reports any_load (new_resources 30) news

counted_report : fresh_backend_report 20 "node-a" "a" registry_now ≡ some report_a
unfolding fresh_backend_report report new_resources
counted_report = refl

after_reports-Current_example : Current any_load news 30 20 "node-a" "a" report_a
after_reports-Current_example =
    after_reports-Current any_load news 30 20 "node-a" "a" report_a counted_report

abbrev news_clock : Clock
news_clock = record { system = 9000000; monotonic = 9 }

abbrev refused_report : ResourceReportRequest ℕ
refused_report = record {
  node_id = "node-a";
  backend_id = none;
  total_vram_mb = 10;
  reserved_vram_mb = 11;
  current_load = none;
}

report-Reports_example :
    Reports registry_now news_clock (report any_load news_clock refused_report registry_now)
report-Reports_example = report-Reports any_load registry_now news_clock refused_report

-- ===== src/Proxy/Labels.antt =====
-- src/proxy/mod.rs: what the proxy counts, and under which labels.
use fairlead.Base.{ℕ, String, Option, none, some, unwrap_or}
use fairlead.Config.{Priority, priority_str}
use fairlead.Config.Workloads.{WorkloadRoute, workload_str}
use fairlead.Metrics
use fairlead.Metrics.{RoutingMetrics}
use fairlead.Router.Fallback.{BackendState}

-- The id, node and pool of a backend, empty where there is none.
abbrev pub backend_id : Option BackendState → String
backend_id none = ""
backend_id (some b) = b.id

abbrev pub backend_node : Option BackendState → String
backend_node none = ""
backend_node (some b) = unwrap_or b.node_id ""

abbrev pub backend_pool : Option BackendState → String
backend_pool none = ""
backend_pool (some b) = b.pool

abbrev pub request_labels :
    String → Priority → Option BackendState → Option String → ℕ → String → Metrics.RequestLabels
request_labels workload priority backend origin_node status outcome = record {
  workload = workload;
  priority = priority_str priority;
  backend = backend_id backend;
  node = backend_node backend;
  pool = backend_pool backend;
  origin_node = unwrap_or origin_node "";
  status = status;
  outcome = outcome;
}

unfoldable pub record_request :
    String
    → Priority
    → Option BackendState
    → Option String
    → ℕ
    → String
    → RoutingMetrics
    → RoutingMetrics
unfolding Metrics.record_request
record_request workload priority backend origin_node status outcome m =
    Metrics.record_request (request_labels workload priority backend origin_node status outcome) m

unfoldable pub record_fallback :
    String → Priority → BackendState → Option String → String → RoutingMetrics → RoutingMetrics
unfolding Metrics.record_fallback priority_str
record_fallback workload priority backend origin_node reason m =
    Metrics.record_fallback
      (record {
        workload = workload;
        priority = priority_str priority;
        backend = backend.id;
        node = unwrap_or backend.node_id "";
        pool = backend.pool;
        origin_node = unwrap_or origin_node "";
        reason = reason;
      })
      m

unfoldable pub record_retry :
    String → Priority → BackendState → Option String → String → RoutingMetrics → RoutingMetrics
unfolding Metrics.record_retry priority_str
record_retry workload priority backend origin_node reason m =
    Metrics.record_retry
      (record {
        workload = workload;
        priority = priority_str priority;
        backend = backend.id;
        node = unwrap_or backend.node_id "";
        pool = backend.pool;
        origin_node = unwrap_or origin_node "";
        reason = reason;
      })
      m

unfoldable pub record_pool_decision :
    WorkloadRoute
    → Priority
    → String
    → Option BackendState
    → Option String
    → String
    → ℕ × ℕ
    → RoutingMetrics
    → RoutingMetrics
unfolding Metrics.record_pool_decision priority_str workload_str
record_pool_decision route priority pool backend origin_node outcome (candidates, blocked) m =
    Metrics.record_pool_decision
      (record {
        workload = workload_str route.kind;
        priority = priority_str priority;
        pool = pool;
        backend = backend_id backend;
        node = backend_node backend;
        origin_node = unwrap_or origin_node "";
        outcome = outcome;
      })
      candidates blocked m

-- ===== src/Metrics.antt =====
-- src/metrics.rs: the counters. Sums of seconds, which are floating point
-- numbers, and the text that the endpoint renders are left out.
use fairlead.Base.{
  ℕ, ◌+◌, ◌<◌, Bool, String, List, [], ◌∷◌, ◌≡◌, refl, ◌==◌, ◌&&◌, nat_eq, string_eq, u64,
  if◌then◌else◌, unwrap_or, arith,
}
use fairlead.Base.Maps.{HashMap, get, insert}
use fairlead.Jobs.Prune.{JobPruneReport, JobPruneStatusSnapshot}

pub record RequestLabels : Type 0 where
  pub workload : String
  pub priority : String
  pub backend : String
  pub node : String
  pub pool : String
  pub origin_node : String
  pub status : ℕ  -- u16
  pub outcome : String

pub record RetryLabels : Type 0 where
  pub workload : String
  pub priority : String
  pub backend : String
  pub node : String
  pub pool : String
  pub origin_node : String
  pub reason : String

pub record FallbackLabels : Type 0 where
  pub workload : String
  pub priority : String
  pub backend : String
  pub node : String
  pub pool : String
  pub origin_node : String
  pub reason : String

pub record PoolDecisionLabels : Type 0 where
  pub workload : String
  pub priority : String
  pub pool : String
  pub backend : String
  pub node : String
  pub origin_node : String
  pub outcome : String

pub record AsyncPoolDecisionLabels : Type 0 where
  pub kind : String
  pub priority : String
  pub pool : String
  pub worker : String
  pub node : String
  pub outcome : String

pub record CallbackLabels : Type 0 where
  pub kind : String
  pub status : String
  pub outcome : String
  pub http_status : ℕ  -- u16

-- All counters are u64.
pub record PoolDecisionAggregate : Type 0 where
  pub decisions : ℕ
  pub candidate_backends : ℕ
  pub resource_ineligible_backends : ℕ

pub record AsyncPoolDecisionAggregate : Type 0 where
  pub decisions : ℕ
  pub candidate_workers : ℕ
  pub no_compatible_jobs : ℕ

-- The derived `PartialEq` of the labels.
abbrev pub same_request : RequestLabels → RequestLabels → Bool
same_request a b =
    (a.workload == b.workload)
    && (a.priority == b.priority)
    && (a.backend == b.backend)
    && (a.node == b.node)
    && (a.pool == b.pool)
    && (a.origin_node == b.origin_node)
    && (a.status == b.status)
    && (a.outcome == b.outcome)

abbrev pub same_retry : RetryLabels → RetryLabels → Bool
same_retry a b =
    (a.workload == b.workload)
    && (a.priority == b.priority)
    && (a.backend == b.backend)
    && (a.node == b.node)
    && (a.pool == b.pool)
    && (a.origin_node == b.origin_node)
    && (a.reason == b.reason)

abbrev pub same_fallback : FallbackLabels → FallbackLabels → Bool
same_fallback a b =
    (a.workload == b.workload)
    && (a.priority == b.priority)
    && (a.backend == b.backend)
    && (a.node == b.node)
    && (a.pool == b.pool)
    && (a.origin_node == b.origin_node)
    && (a.reason == b.reason)

abbrev pub same_decision : PoolDecisionLabels → PoolDecisionLabels → Bool
same_decision a b =
    (a.workload == b.workload)
    && (a.priority == b.priority)
    && (a.pool == b.pool)
    && (a.backend == b.backend)
    && (a.node == b.node)
    && (a.origin_node == b.origin_node)
    && (a.outcome == b.outcome)

abbrev pub same_async_decision : AsyncPoolDecisionLabels → AsyncPoolDecisionLabels → Bool
same_async_decision a b =
    (a.kind == b.kind)
    && (a.priority == b.priority)
    && (a.pool == b.pool)
    && (a.worker == b.worker)
    && (a.node == b.node)
    && (a.outcome == b.outcome)

abbrev pub same_callback : CallbackLabels → CallbackLabels → Bool
same_callback a b =
    (a.kind == b.kind)
    && (a.status == b.status)
    && (a.outcome == b.outcome)
    && (a.http_status == b.http_status)

module _ {K V : Type 0} (same : K → K → Bool) (fresh : V) where
  -- `entry(labels).or_default()`, and an update of what is there.
  unfoldable pub update_entry : K → (V → V) → List (K × V) → List (K × V)
  update_entry k f [] = (k, f fresh) ∷ []
  update_entry k f ((j, v) ∷ m) =
      let rest = update_entry k f m in if same j k then (j, f v) ∷ m else (j, v) ∷ rest

-- The counters of a map, added up.
unfoldable pub counted {ℓ} : {K : Type ℓ} → List (K × ℕ) → ℕ
counted [] = 0
counted ((k, n) ∷ m) = n + counted m

abbrev pub count_one_more : ℕ → ℕ
count_one_more n = u64 (n + 1)

-- As long as no counter can wrap, one more is counted, under whatever label.
pub counted-update_entry :
    {K : Type 0} (same : K → K → Bool) (k : K) (m : List (K × ℕ))
    → counted m + 1 < 18446744073709551616
    → counted (update_entry same 0 k count_one_more m) ≡ counted m + 1
unfolding counted update_entry
counted-update_entry same k [] small = refl
counted-update_entry same k ((j, n) ∷ m) small = ground (arith, counted-update_entry same k m)

-- `RoutingMetrics` with what its lock guards. `JobPruneLabels` has one field, the status.
pub record RoutingMetrics : Type 0 where
  pub requests : List (RequestLabels × ℕ)
  pub retries : List (RetryLabels × ℕ)
  pub fallbacks : List (FallbackLabels × ℕ)
  pub pool_decisions : List (PoolDecisionLabels × PoolDecisionAggregate)
  pub async_pool_decisions : List (AsyncPoolDecisionLabels × AsyncPoolDecisionAggregate)
  pub callbacks : List (CallbackLabels × ℕ)
  pub job_prunes : HashMap ℕ

abbrev pub no_metrics : RoutingMetrics
no_metrics = record {
  requests = [];
  retries = [];
  fallbacks = [];
  pool_decisions = [];
  async_pool_decisions = [];
  callbacks = [];
  job_prunes = [];
}

unfoldable pub record_request : RequestLabels → RoutingMetrics → RoutingMetrics
unfolding update_entry
record_request labels m = record m {
  requests = update_entry same_request 0 labels count_one_more m.requests;
}

unfoldable pub record_retry : RetryLabels → RoutingMetrics → RoutingMetrics
unfolding update_entry
record_retry labels m = record m {
  retries = update_entry same_retry 0 labels count_one_more m.retries;
}

unfoldable pub record_fallback : FallbackLabels → RoutingMetrics → RoutingMetrics
unfolding update_entry
record_fallback labels m = record m {
  fallbacks = update_entry same_fallback 0 labels count_one_more m.fallbacks;
}

unfoldable pub record_pool_decision : PoolDecisionLabels → ℕ → ℕ → RoutingMetrics → RoutingMetrics
unfolding update_entry
record_pool_decision labels candidates ineligible m = record m {
  pool_decisions =
      update_entry same_decision
        (record { decisions = 0; candidate_backends = 0; resource_ineligible_backends = 0 }) labels
        (λ a. record {
          decisions = u64 (a.decisions + 1);
          candidate_backends = u64 (a.candidate_backends + candidates);
          resource_ineligible_backends = u64 (a.resource_ineligible_backends + ineligible);
        })
        m.pool_decisions;
}

unfoldable pub record_async_pool_decision :
    AsyncPoolDecisionLabels → ℕ → ℕ → RoutingMetrics → RoutingMetrics
unfolding update_entry
record_async_pool_decision labels candidates skipped m = record m {
  async_pool_decisions =
      update_entry same_async_decision
        (record { decisions = 0; candidate_workers = 0; no_compatible_jobs = 0 }) labels
        (λ a. record {
          decisions = u64 (a.decisions + 1);
          candidate_workers = u64 (a.candidate_workers + candidates);
          no_compatible_jobs = u64 (a.no_compatible_jobs + skipped);
        })
        m.async_pool_decisions;
}

unfoldable pub record_callback : CallbackLabels → RoutingMetrics → RoutingMetrics
unfolding update_entry
record_callback labels m = record m {
  callbacks = update_entry same_callback 0 labels count_one_more m.callbacks;
}

unfoldable pub add_prunes : List JobPruneStatusSnapshot → HashMap ℕ → HashMap ℕ
add_prunes [] prunes = prunes
add_prunes (snapshot ∷ snapshots) prunes = add_prunes snapshots (
    insert snapshot.status (u64 (unwrap_or (get snapshot.status prunes) 0 + snapshot.removed))
      prunes)

unfoldable pub record_job_prune : JobPruneReport → RoutingMetrics → RoutingMetrics
unfolding add_prunes
record_job_prune report m = record m { job_prunes = add_prunes report.by_status m.job_prunes }

-- ===== src/Proxy/Forward.antt =====
-- src/proxy/mod.rs: `forward`. `send` is what the network answers to the n-th request that the proxy
-- sends, and `time` the monotonic clock when n requests have been sent. One request is followed at a
-- time: no other request changes the state while this one waits.
use Prim.Native.String.{◌++◌ as ◌^^◌}
use fairlead.Base.{
  ℕ, zero, suc, ◌+◌, ◌/◌, Bool, String, Option, none, some, List, [], ◌∷◌, ◌++◌, ◌==◌, ◌&&◌, nat_eq,
  get_elem?, is_empty, length, and_then, ok, err, if◌then◌else◌,
}
use fairlead.Base.Text.{text_is_empty}
use Prim.Native.Char.{code}
use fairlead.Config.{Priority}
use fairlead.Config.Workloads.{WorkloadKind, WorkloadRoute, workload_str, route}
use fairlead.PriorityLimiter.{PriorityLimiter, try_acquire, drop_permit}
use fairlead.Proxy.Labels.{record_request, record_fallback, record_retry}
use fairlead.Proxy.Selection.{
  fallback_reason, resource_selection_state, route_ineligible_backends, select_backend_for_route,
  unavailable_message, unavailable_outcome,
}
use fairlead.Proxy.Types.{
  Answer, Body, HeaderMap, Outside, ProxyState, Reply, ResourceSelectionState, Sent,
  UpstreamResponse, unreachable, answered, own_reply, parse_priority, text_header,
  upstream_response, with_upstream_headers,
}
use fairlead.Router.Affinity.{record_affinity}
use fairlead.Router.Affinity
use fairlead.Router.Circuit
use fairlead.Router.Circuit.{CircuitBreaker}
use fairlead.Router.Fallback.{BackendState, set_circuit}

-- `affinity_key`
unfoldable pub affinity_key : WorkloadKind → String → String
unfolding workload_str
affinity_key workload thread_id = workload_str workload ^^ (":" ^^ thread_id)

-- `trim_end_matches('/')`
unfoldable pub trim_end_slashes : String → String
trim_end_slashes String.[] = String.[]
trim_end_slashes (String.◌∷◌ c s) =
    let rest = trim_end_slashes s in
    if text_is_empty rest && (code c == 47) then String.[] else String.◌∷◌ c rest

-- What a request brings, as the handler has read it.
pub record Request (V : Type 0) : Type 0 where
  pub route : WorkloadRoute
  pub headers : HeaderMap V
  pub priority : Priority
  pub affinity_key : Option String
  pub origin_node : Option String
  pub preferred : Option ℕ
  pub route_ineligible : List ℕ

-- Where one round of the loop leads. `out_of_range` is an index that the code would panic at.
pub data Step (V L : Type 0) : Type 0 where
  done : ProxyState V L → Reply V → Step V L
  again : ProxyState V L → List ℕ → ℕ → Step V L
  out_of_range : Step V L

-- `StatusCode::is_server_error`
abbrev pub is_server_error : ℕ → Bool
is_server_error status = status / 100 == 5

module _ {V L : Type 0} (outside : Outside V L) (time : ℕ → ℕ) (send : ℕ → Sent V → Answer V)
    (request : Request V) (resource_state : ResourceSelectionState L) where
  abbrev workload : String
  workload = workload_str request.route.kind

  -- The clock of the state: it moves when a request is sent.
  abbrev pub clock : ProxyState V L → ℕ
  clock state = time (length state.sent)

  unfoldable pub select : List ℕ → ProxyState V L → ProxyState V L × Option ℕ
  unfolding select_backend_for_route
  select attempted state =
      select_backend_for_route outside (clock state) request.route request.priority
        request.preferred request.origin_node attempted request.route_ineligible resource_state
        state

  abbrev pub breaker_of : ℕ → (CircuitBreaker → CircuitBreaker) → ProxyState V L → ProxyState V L
  breaker_of i f state = elim (get_elem? state.backends i) [
    | none ↦ state
    | some b ↦ record state { backends = set_circuit i (f b.circuit) state.backends }
  ]

  -- The limiter after the reply: the permit goes back unless a streamed body keeps it.
  abbrev pub limiter_after : Option Priority → PriorityLimiter → PriorityLimiter
  limiter_after none limiter = drop_permit request.priority limiter
  limiter_after (some p) limiter = limiter

  -- A reply, counted, with the permit given back unless a streamed body keeps it.
  unfoldable pub finish : Option BackendState → ℕ → String → Reply V → ProxyState V L → Step V L
  unfolding record_request drop_permit workload_str
  finish backend status outcome reply state =
      Step.done
        (record state {
          metrics =
              record_request workload request.priority backend request.origin_node status outcome
                state.metrics;
          priority_limiter = limiter_after reply.held state.priority_limiter;
        })
        reply

  -- No backend was found at the head of the loop.
  unfoldable pub give_up : List ℕ → ProxyState V L → Step V L
  unfolding finish unavailable_message unavailable_outcome
  give_up attempted state =
      if is_empty attempted
      then finish none 503
          (unavailable_outcome request.route_ineligible resource_state.ineligible
            (length state.backends))
          (own_reply 503 (
            Body.message (
              unavailable_message request.route_ineligible resource_state.ineligible
                (length state.backends))))
          state
      else finish none 502 "upstream_error" (own_reply 502 Body.nothing) state

  -- The backend failed: its breaker is told, and the next one is selected. Without one the loop ends.
  unfoldable pub fail_over :
      ℕ → BackendState → String → ℕ → String → Reply V → List ℕ → ProxyState V L → Step V L
  unfolding select finish set_circuit Circuit.record_failure record_retry workload_str
  fail_over i backend reason status outcome reply attempted state =
      let failed = breaker_of i (Circuit.record_failure (clock state)) state in
      let counted = record failed {
        metrics =
            record_retry workload request.priority backend request.origin_node reason
              failed.metrics;
      } in
      let attempted' = attempted ++ i ∷ [] in
      let (state', next) = select attempted' counted in
      elim next [
        | some j ↦ Step.again state' attempted' j
        | none ↦ finish (some backend) status outcome reply state'
      ]

  -- The next request of the caller with the same workload prefers this backend.
  abbrev pub remember : Option String → ℕ → ProxyState V L → ProxyState V L
  remember none i state = state
  remember (some key) i state = record state { affinity = record_affinity key i state.affinity }

  -- The backend served the request: its breaker closes, and the caller's affinity moves to it.
  unfoldable pub serve : ℕ → BackendState → UpstreamResponse V → List ℕ → ProxyState V L → Step V L
  unfolding finish set_circuit Circuit.record_success upstream_response record_affinity
  serve i backend upstream attempted state =
      let closed = breaker_of i Circuit.record_success state in
      finish (some backend) upstream.status
        (if is_empty attempted then "completed" else "retried_success")
        (upstream_response outside upstream request.priority)
        (remember request.affinity_key i closed)

  -- The request as it is sent to a backend.
  unfoldable pub outgoing : ℕ → BackendState → Sent V
  unfolding trim_end_slashes with_upstream_headers
  outgoing i backend = record {
    backend = i;
    url = trim_end_slashes backend.url ^^ ("/" ^^ request.route.upstream_path);
    headers = with_upstream_headers outside request.headers;
  }

  unfoldable pub count_fallback : ℕ → BackendState → ProxyState V L → ProxyState V L
  unfolding fallback_reason record_fallback workload_str
  count_fallback i backend state =
      elim (fallback_reason state.backends i request.preferred request.origin_node
        request.route_ineligible resource_state.ineligible) [
          | none ↦ state
          | some reason ↦ record state {
            metrics =
                record_fallback workload request.priority backend request.origin_node reason
                  state.metrics;
          }
        ]

  -- What is done with an answer: a backend that is not there or that fails makes way for the next.
  unfoldable pub hear : ℕ → BackendState → List ℕ → Answer V → ProxyState V L → Step V L
  unfolding fail_over serve upstream_response
  hear i backend attempted unreachable state =
      fail_over i backend "connection_error" 502 "upstream_error" (own_reply 502 Body.nothing)
        attempted state
  hear i backend attempted (answered upstream) state =
      if request.route.retry_server_errors && is_server_error upstream.status
      then fail_over i backend "server_error" upstream.status "upstream_5xx"
          (upstream_response outside upstream request.priority) attempted state
      else serve i backend upstream attempted state

  -- One request is sent, and its answer taken.
  unfoldable pub try_with : ℕ → List ℕ → ProxyState V L → BackendState → Step V L
  unfolding count_fallback outgoing hear
  try_with i attempted state backend =
      let counted = count_fallback i backend state in
      let out = outgoing i backend in
      hear i backend attempted (send (length counted.sent) out)
        (record counted { sent = counted.sent ++ out ∷ [] })

  unfoldable pub try_backend : ℕ → List ℕ → ProxyState V L → Step V L
  unfolding try_with
  try_backend i attempted state = elim (get_elem? state.backends i) [
    | none ↦ Step.out_of_range
    | some backend ↦ try_with i attempted state backend
  ]

  -- The body of `loop`: `next` is the backend that an earlier round has selected.
  unfoldable pub one_round : List ℕ → Option ℕ → ProxyState V L → Step V L
  unfolding select give_up try_backend
  one_round attempted (some i) state = try_backend i attempted state
  one_round attempted none state =
      let (state', chosen) = select attempted state in
      elim chosen [ none ↦ give_up attempted state' | some i ↦ try_backend i attempted state' ]

  unfoldable pub attempts :
      ℕ → List ℕ → Option ℕ → ProxyState V L → Option (ProxyState V L × Reply V)
  unfolding one_round
  attempts zero attempted next state = none
  attempts (suc fuel) attempted next state = elim (one_round attempted next state) [
    | done final reply ↦ some (final, reply)
    | again later attempted' j ↦ attempts fuel attempted' (some j) later
    | out_of_range ↦ none
  ]

module _ {V L : Type 0} (outside : Outside V L) (time : ℕ → ℕ) (send : ℕ → Sent V → Answer V) where
  -- A refusal before the loop, which gives no permit.
  unfoldable pub refuse :
      WorkloadRoute
      → Priority
      → Option String
      → ℕ
      → String
      → String
      → ProxyState V L
      → ProxyState V L × Reply V
  unfolding record_request workload_str
  refuse route priority origin_node status outcome message state = (
    record state {
      metrics =
          record_request (workload_str route.kind) priority none origin_node status outcome
            state.metrics;
    },
    own_reply status (Body.message message),
  )

  -- A round for each backend, and one more.
  unfoldable pub forward :
      WorkloadRoute → HeaderMap V → ProxyState V L → Option (ProxyState V L × Reply V)
  unfolding parse_priority text_header affinity_key refuse try_acquire attempts
      route_ineligible_backends resource_selection_state Affinity.preferred
  forward route headers state = elim (parse_priority outside headers) [
    | err message ↦ some (state, own_reply 400 (Body.message message))
    | ok priority ↦
        let thread_id = text_header outside headers "x-fairlead-thread-id" in
        let key = and_then thread_id (λ thread. some (affinity_key route.kind thread)) in
        let origin_node = text_header outside headers "x-fairlead-origin-node" in
        if is_empty state.backends
        then some
            (refuse route priority origin_node 503 "no_backends" "no backends configured" state)
        else let (limiter, given) = try_acquire priority state.priority_limiter in
          if given
          then attempts outside time send
              (record {
                route = route;
                headers = headers;
                priority = priority;
                affinity_key = key;
                origin_node = origin_node;
                preferred = and_then key (λ k. Affinity.preferred state.affinity k);
                route_ineligible =
                    route_ineligible_backends state.backends route state.workload_pools;
              })
              (resource_selection_state (time (length state.sent)) state.backends state.resources
                state.resource_policy route.kind)
              (length state.backends + 1) [] none (record state { priority_limiter = limiter })
          else some (
              refuse route priority origin_node 429 "priority_limited" "priority limit reached"
                state)
  ]

  -- The two handlers.
  unfoldable pub chat_completions : HeaderMap V → ProxyState V L → Option (ProxyState V L × Reply V)
  unfolding forward route
  chat_completions headers state = forward (route WorkloadKind.chat_completions) headers state

  unfoldable pub embeddings : HeaderMap V → ProxyState V L → Option (ProxyState V L × Reply V)
  unfolding forward route
  embeddings headers state = forward (route WorkloadKind.embeddings) headers state

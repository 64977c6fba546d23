-- ===== src/Proxy/Attempts/Failures.antt =====
-- src/proxy/mod.rs: what a round of `forward` keeps when it ends, or goes on after a failure.
use fairlead.Base.{
  ℕ, ◌<◌, String, Option, none, some, List, [], ◌∷◌, ◌++◌, ◌≡◌, refl, sym, ap, ◌∙◌, subst, map,
  nat_eq, length, get_elem?, Option-cases, inl, inr,
}
use fairlead.Config.Workloads.{workload_str}
use fairlead.Metrics
use fairlead.Metrics.{RequestLabels}
use fairlead.Proxy.Labels
use fairlead.Proxy.Attempts.{Ending, Ready, StepFits, Tried, free}
use fairlead.Proxy.Chosen.{chosen_for_route}
use fairlead.Proxy.Moved.{Moved, Moved-trans, stands_back, stays}
use fairlead.Proxy.Forward.{
  Request, Step, breaker_of, fail_over, finish, limiter_after, give_up, clock, select,
}
use fairlead.Proxy.Types.{
  Answer, Outside, ProxyState, Reply, ResourceSelectionState, Sent, own_reply,
}
use fairlead.Router.Circuit
use fairlead.Router.Circuit.{CircuitBreaker}
use fairlead.Router.Fallback.{BackendState}
use fairlead.Router.Kept.{set_circuit-Alike}

module _ {V L : Type 0} (outside : Outside V L) (time : ℕ → ℕ) (send : ℕ → Sent V → Answer V)
    (request : Request V) (resource_state : ResourceSelectionState L) (s0 : ProxyState V L) where
  pub breaker_of-Moved :
      (i : ℕ) (f : CircuitBreaker → CircuitBreaker) (s : ProxyState V L)
      → Moved s (breaker_of outside time send request resource_state i f s)
  breaker_of-Moved i f s = elim (Option-cases (get_elem? s.backends i)) [
    | inl e ↦ rw (e, breaker_of) (stays s)
    | inr (b, e) ↦
        rw (e, breaker_of)
          (record {
            alike =
                set_circuit-Alike s.backends i (f b.circuit) s.backends
                  (record { as_long = refl; same_at = λ j. refl });
            pools = refl;
            affinity = refl;
            limiter = refl;
            sent = refl;
            requests = refl;
          })
  ]

  pub finish-Finished :
      (backend : Option BackendState) (status : ℕ) (outcome : String) (reply : Reply V)
      (s : ProxyState V L) (tried : List ℕ)
      → Tried outside time send request resource_state s0 tried s
      → s.priority_limiter ≡ s0.priority_limiter
      → s.metrics.requests ≡ s0.metrics.requests
      → status ≡ reply.status
      → Ending outside time send request resource_state s0 s.sent tried reply
      → (any : List ℕ)
      → StepFits outside time send request resource_state s0 any
          (finish outside time send request resource_state backend status outcome reply s)
  unfolding finish Metrics.record_request Labels.record_request
  finish-Finished backend status outcome reply s tried trace limiter requests shown ending any =
      let label =
        Labels.request_labels (workload_str request.route.kind) request.priority backend
          request.origin_node status outcome in
      record {
        tried = tried;
        trace = record {
          alike = trace.alike;
          sent = trace.sent;
          distinct = trace.distinct;
          suitable = trace.suitable;
          measured = trace.measured;
        };
        ending = ending;
        label = label;
        shown = shown;
        counted =
            ap (λ m. Metrics.update_entry Metrics.same_request 0 label Metrics.count_one_more m)
              requests;
        permit =
            ap (λ l. limiter_after outside time send request resource_state reply.held l) limiter;
      }

  pub give_up-Finished :
      (s : ProxyState V L)
      → Ready outside time send request resource_state s0 [] s
      → StepFits outside time send request resource_state s0 []
          (give_up outside time send request resource_state [] s)
  unfolding give_up own_reply
  give_up-Finished s ready =
      finish-Finished none 503 _ _ s [] ready.so_far ready.limiter ready.requests refl
        (Ending.nobody _) []

  -- The state in which the answer to a request that was sent is looked at.
  pub record Answered (tried : List ℕ) (i : ℕ) (s : ProxyState V L) : Type 0 where
    pub trace : Tried outside time send request resource_state s0 (tried ++ i ∷ []) s
    pub limiter : s.priority_limiter ≡ s0.priority_limiter
    pub requests : s.metrics.requests ≡ s0.metrics.requests
    pub fewer : free (length s0.backends) (tried ++ i ∷ []) < free (length s0.backends) tried

  -- A move keeps what was tried.
  pub Tried-Moved :
      (tried : List ℕ) (s s' : ProxyState V L)
      → Tried outside time send request resource_state s0 tried s
      → Moved s s'
      → Tried outside time send request resource_state s0 tried s'
  Tried-Moved tried s s' t m = record {
    alike = record {
      as_long = m.alike.as_long ∙ t.alike.as_long;
      same_at = λ j. m.alike.same_at j ∙ t.alike.same_at j;
    };
    sent = ap (λ xs. map (λ x. x.backend) xs) m.sent ∙ t.sent;
    distinct = t.distinct;
    suitable = t.suitable;
    measured = t.measured;
  }

  pub fail_over-Fits :
      (i : ℕ) (backend : BackendState) (reason : String) (status : ℕ) (outcome : String)
      (reply : Reply V) (tried : List ℕ) (s : ProxyState V L)
      → Answered tried i s
      → status ≡ reply.status
      → Ending outside time send request resource_state s0 s.sent (tried ++ i ∷ []) reply
      → StepFits outside time send request resource_state s0 tried (
          fail_over outside time send request resource_state i backend reason status outcome reply
            tried s)
  unfolding fail_over select Labels.record_retry Metrics.record_retry
  fail_over-Fits i backend reason status outcome reply tried s heard shown ending =
      let failed =
        breaker_of outside time send request resource_state i
          (Circuit.record_failure (clock outside time send request resource_state s)) s in
      let counted : ProxyState V L = record failed {
        metrics =
            Labels.record_retry (workload_str request.route.kind) request.priority backend
              request.origin_node reason failed.metrics;
      } in
      let told =
        breaker_of-Moved i
          (Circuit.record_failure (clock outside time send request resource_state s)) s in
      let noted : Moved s counted = record {
        alike = told.alike;
        pools = told.pools;
        affinity = told.affinity;
        limiter = told.limiter;
        sent = told.sent;
        requests = told.requests;
      } in
      let tried' = tried ++ i ∷ [] in
      let sel = select outside time send request resource_state tried' counted in
      let (moved, chosen) =
        chosen_for_route outside (clock outside time send request resource_state counted)
          request.route request.priority request.preferred request.origin_node tried'
          request.route_ineligible resource_state counted in
      let all = Moved-trans s counted sel.0 noted moved in
      let trace = Tried-Moved tried' s sel.0 heard.trace all in
      let limiter = all.limiter ∙ heard.limiter in
      let requests = all.requests ∙ heard.requests in
      let follow = λ (next : Option ℕ). elim next as (λ x. Step V L) [
        | some j ↦ Step.again sel.0 tried' j
        | none ↦
            finish outside time send request resource_state (some backend) status outcome reply
              sel.0
      ] in
      elim (Option-cases sel.1) [
        | inr (j, e) ↦
            let next = chosen j e in
            let (b, there, same) =
              stands_back counted.backends sel.0.backends j next.backend moved.alike next.there in
            subst (λ x. StepFits outside time send request resource_state s0 tried x)
              (sym (ap follow e))
              (
                record { so_far = trace; limiter = limiter; requests = requests },
                record {
                  untried = next.untried;
                  routed = next.routed;
                  resourced = next.resourced;
                  backend = b;
                  there = there;
                },
                heard.fewer,
              )
        | inl e ↦
            subst (λ x. StepFits outside time send request resource_state s0 tried x)
              (sym (ap follow e))
              (finish-Finished (some backend) status outcome reply sel.0 tried' trace limiter
                requests shown
                (subst (λ x. Ending outside time send request resource_state s0 x tried' reply)
                  (sym all.sent) ending)
                tried)
      ]

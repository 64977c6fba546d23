-- ===== src/Proxy/Attempts/Rounds.antt =====
-- src/proxy/mod.rs: one round of the loop of `forward`.
use fairlead.Base.{
  ℕ, String, Option, none, some, List, [], ◌∷◌, ◌++◌, ◌&&◌, ◌≡◌, refl, sym, ap, ◌∙◌, subst, nat_eq,
  length, is_empty, Bool-cases, Option-cases, inl, inr, arith, if◌then◌else◌,
}
use fairlead.Metrics
use fairlead.Metrics.{RequestLabels}
use fairlead.Proxy.Labels
use fairlead.Proxy.Attempts.{
  Ending, Next, Ready, StepFits, Tried-push, free-push, following-Suitable,
}
use fairlead.Proxy.Attempts.Failures.{
  Answered, breaker_of-Moved, finish-Finished, give_up-Finished, Tried-Moved, fail_over-Fits,
}
use fairlead.Proxy.Chosen.{chosen_for_route}
use fairlead.Proxy.Moved.{Moved, stands_back, stays}
use fairlead.Proxy.Forward.{
  Request, Step, breaker_of, count_fallback, give_up, is_server_error, one_round, outgoing, clock,
  hear, try_with, remember, select, serve, try_backend,
}
use fairlead.Proxy.Types.{
  Answer, Body, Outside, ProxyState, ResourceSelectionState, Sent, UpstreamResponse, answered,
  unreachable, own_reply, upstream_response,
}
use fairlead.Proxy.Selection.{fallback_reason}
use fairlead.Router.Circuit
use fairlead.Router.Circuit.{CircuitBreaker}
use fairlead.Router.Fallback.{BackendState}

module _ {V L : Type 0} (outside : Outside V L) (time : ℕ → ℕ) (send : ℕ → Sent V → Answer V)
    (request : Request V) (resource_state : ResourceSelectionState L) (s0 : ProxyState V L) where
  Answered-remember :
      (key : Option String) (i : ℕ) (tried : List ℕ) (s : ProxyState V L)
      → Answered outside time send request resource_state s0 tried i s
      → Answered outside time send request resource_state s0 tried i
          (remember outside time send request resource_state key i s)
        × ((remember outside time send request resource_state key i s).sent ≡ s.sent)
  Answered-remember none i tried s heard = (heard, refl)
  Answered-remember (some key) i tried s heard = (
    record {
      trace = record {
        alike = heard.trace.alike;
        sent = heard.trace.sent;
        distinct = heard.trace.distinct;
        suitable = heard.trace.suitable;
        measured = heard.trace.measured;
      };
      limiter = heard.limiter;
      requests = heard.requests;
      fewer = heard.fewer;
    },
    refl,
  )

  serve-Fits :
      (i : ℕ) (backend : BackendState) (upstream : UpstreamResponse V) (tried : List ℕ)
      (s : ProxyState V L)
      → Answered outside time send request resource_state s0 tried i s
      → Ending outside time send request resource_state s0 s.sent
          (tried ++ i ∷ [])
          (upstream_response outside upstream request.priority)
      → StepFits outside time send request resource_state s0 tried
          (serve outside time send request resource_state i backend upstream tried s)
  unfolding serve upstream_response
  serve-Fits i backend upstream tried s heard ending =
      let closed = breaker_of outside time send request resource_state i Circuit.record_success s in
      let told =
        breaker_of-Moved outside time send request resource_state s0 i Circuit.record_success s in
      let tried' = tried ++ i ∷ [] in
      let final = remember outside time send request resource_state request.affinity_key i closed in
      let (heard', sent) = Answered-remember request.affinity_key i tried closed (record {
        trace =
            Tried-Moved outside time send request resource_state s0 tried' s closed heard.trace
              told;
        limiter = told.limiter ∙ heard.limiter;
        requests = told.requests ∙ heard.requests;
        fewer = heard.fewer;
      }) in
      finish-Finished outside time send request resource_state s0 (some backend) upstream.status
        (if is_empty tried then "completed" else "retried_success")
        (upstream_response outside upstream request.priority) final tried' heard'.trace
        heard'.limiter heard'.requests refl
        (subst
          (λ x.
            Ending outside time send request resource_state s0 x tried'
              (upstream_response outside upstream request.priority))
          (sym (sent ∙ told.sent)) ending)
        tried

  count_fallback-Moved :
      (i : ℕ) (backend : BackendState) (s : ProxyState V L)
      → Moved s (count_fallback outside time send request resource_state i backend s)
  unfolding count_fallback Labels.record_fallback Metrics.record_fallback
  count_fallback-Moved i backend s =
      elim (Option-cases (
        fallback_reason s.backends i request.preferred request.origin_node request.route_ineligible
          resource_state.ineligible)) [
            | inl e ↦ rw (e, count_fallback) (stays s)
            | inr (reason, e) ↦
                rw (e, count_fallback)
                  (record {
                    alike = record { as_long = refl; same_at = λ j. refl };
                    pools = refl;
                    affinity = refl;
                    limiter = refl;
                    sent = refl;
                    requests = refl;
                  })
          ]

  hear-Fits :
      (i : ℕ) (backend : BackendState) (tried : List ℕ) (answer : Answer V) (before : List (Sent V))
      (out : Sent V) (s : ProxyState V L)
      → Answered outside time send request resource_state s0 tried i s
      → s.sent ≡ before ++ out ∷ []
      → send (length before) out ≡ answer
      → StepFits outside time send request resource_state s0 tried
          (hear outside time send request resource_state i backend tried answer s)
  unfolding hear own_reply upstream_response
  hear-Fits i backend tried unreachable before out s heard sent got =
      fail_over-Fits outside time send request resource_state s0 i backend "connection_error" 502
        "upstream_error" (own_reply 502 Body.nothing) tried s heard refl
        (Ending.lost (tried ++ i ∷ []) before out sent got)
  hear-Fits i backend tried (answered upstream) before out s heard sent got =
      let ending : Ending outside time send request resource_state s0 s.sent (tried ++ i ∷ [])
          (upstream_response outside upstream request.priority) =
        Ending.relayed (tried ++ i ∷ []) before out upstream sent got in
      elim (Bool-cases (request.route.retry_server_errors && is_server_error upstream.status)) [
        | inl failed ↦
            rw (failed, hear)
              (fail_over-Fits outside time send request resource_state s0 i backend "server_error"
                upstream.status "upstream_5xx" (upstream_response outside upstream request.priority)
                tried s heard refl ending)
        | inr fine ↦ rw (fine, hear) (serve-Fits i backend upstream tried s heard ending)
      ]

  try_backend-Fits :
      (i : ℕ) (tried : List ℕ) (s : ProxyState V L)
      → Ready outside time send request resource_state s0 tried s
      → Next outside time send request resource_state s0 tried s i
      → StepFits outside time send request resource_state s0 tried
          (try_backend outside time send request resource_state i tried s)
  unfolding try_backend try_with outgoing
  try_backend-Fits i tried s ready next =
      let backend = next.backend in
      let counted = count_fallback outside time send request resource_state i backend s in
      let noted = count_fallback-Moved i backend s in
      let out = outgoing outside time send request resource_state i backend in
      let after : ProxyState V L = record counted { sent = counted.sent ++ out ∷ [] } in
      let suits =
        following-Suitable outside time send request resource_state s0 tried s i ready.so_far.alike
          next in
      let heard : Answered outside time send request resource_state s0 tried i after = record {
        trace =
            Tried-push outside time send request resource_state s0 tried s after i out ready.so_far
              next
              (record {
                as_long = noted.alike.as_long ∙ ready.so_far.alike.as_long;
                same_at = λ j. noted.alike.same_at j ∙ ready.so_far.alike.same_at j;
              })
              (ap (λ xs. xs ++ out ∷ []) noted.sent) refl;
        limiter = noted.limiter ∙ ready.limiter;
        requests = noted.requests ∙ ready.requests;
        fewer = omega (arith, free-push (length s0.backends) tried i suits.there next.untried);
      } in
      let step = try_with outside time send request resource_state i tried s in
      let found = λ (at : Option BackendState). elim at as (λ x. Step V L) [
        | none ↦ Step.out_of_range
        | some b ↦ step b
      ] in
      subst (λ x. StepFits outside time send request resource_state s0 tried x)
        (sym (ap found next.there))
        (hear-Fits i backend tried (send (length counted.sent) out) counted.sent out after heard
          refl refl)

  -- A selected backend is tried; without one the loop gives up, which happens before any attempt only.
  pub one_round-Fits :
      (tried : List ℕ) (next : Option ℕ) (s : ProxyState V L)
      → Ready outside time send request resource_state s0 tried s
      → elim next as (λ x. Type 0) [
        | none ↦ tried ≡ []
        | some i ↦ Next outside time send request resource_state s0 tried s i
      ]
      → StepFits outside time send request resource_state s0 tried
          (one_round outside time send request resource_state tried next s)
  unfolding one_round select
  one_round-Fits tried (some i) s ready next = try_backend-Fits i tried s ready next
  one_round-Fits (t ∷ ts) none s ready start = absurd (cc start)
  one_round-Fits [] none s ready start =
      let sel = select outside time send request resource_state [] s in
      let (moved, chosen) =
        chosen_for_route outside (clock outside time send request resource_state s) request.route
          request.priority request.preferred request.origin_node [] request.route_ineligible
          resource_state s in
      let ready' : Ready outside time send request resource_state s0 [] sel.0 = record {
        so_far =
            Tried-Moved outside time send request resource_state s0 [] s sel.0 ready.so_far moved;
        limiter = moved.limiter ∙ ready.limiter;
        requests = moved.requests ∙ ready.requests;
      } in
      let follow = λ (found : Option ℕ). elim found as (λ x. Step V L) [
        | none ↦ give_up outside time send request resource_state [] sel.0
        | some i ↦ try_backend outside time send request resource_state i [] sel.0
      ] in
      let Goal = λ (x : Step V L). StepFits outside time send request resource_state s0 [] x in
      elim (Option-cases sel.1) [
        | inl e ↦
            subst Goal (sym (ap follow e))
              (give_up-Finished outside time send request resource_state s0 sel.0 ready')
        | inr (i, e) ↦
            let next = chosen i e in
            let (b, there, same) =
              stands_back s.backends sel.0.backends i next.backend moved.alike next.there in
            subst Goal (sym (ap follow e)) (
              try_backend-Fits i [] sel.0 ready' (record {
                untried = next.untried;
                routed = next.routed;
                resourced = next.resourced;
                backend = b;
                there = there;
              }))
      ]

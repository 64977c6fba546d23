-- ===== src/Proxy/Answers.antt =====
-- src/proxy/mod.rs: the reply of `forward` on every branch, spelled out.
use fairlead.Config.Workloads.{workload_str}
use fairlead.Metrics.{RequestLabels}
use fairlead.Base.{String, false, ok, err}
use fairlead.Proxy.Types.{UpstreamResponse, parse_priority, text_header}
use fairlead.Base.{ℕ, true, Option, none, some, List, [], ◌∷◌, ◌++◌, ◌≡◌, refl, map, nat_eq, length}
use fairlead.Config.{Priority}
use fairlead.Config.Workloads.{WorkloadRoute}
use fairlead.Metrics
use fairlead.Metrics.{same_request, counted, counted-update_entry}
use fairlead.PriorityLimiter.{PriorityLimiter, try_acquire, drop_permit}
use fairlead.Proxy.Attempts.{Distinct, Ending}
use fairlead.Proxy.Ends.{Forwarded, forward-Forwarded, request_of, resources_of}
use fairlead.Proxy.Forward.{limiter_after, forward, refuse}
use fairlead.Proxy.Labels
use fairlead.Proxy.Types.{
  Answer, Body, HeaderMap, Outside, ProxyState, Reply, Sent, upstream_response, own_reply,
}

module _ {V L : Type 0} (outside : Outside V L) (send : ℕ → Sent V → Answer V)
    (headers : HeaderMap V) (s : ProxyState V L) (s' : ProxyState V L) (reply : Reply V) where
  -- A reply of the proxy itself, which holds no permit.
  pub record Says (status : ℕ) (body : Body) : Type 0 where
    pub shown : reply.status ≡ status
    pub text : reply.body ≡ body
    pub free_ : reply.held ≡ none

  -- The request is counted once, under the status of the reply.
  pub record CountedAs (label : RequestLabels) : Type 0 where
    pub shown : label.status ≡ reply.status
    pub requests : s'.metrics.requests ≡ (Metrics.record_request label s.metrics).requests

  -- Nothing was sent, and no permit was taken.
  pub record Untouched : Type 0 where
    pub sent : s'.sent ≡ s.sent
    pub limiter : s'.priority_limiter ≡ s.priority_limiter
    pub backends : s'.backends ≡ s.backends
    pub affinity : s'.affinity ≡ s.affinity

  -- The last request that was sent, and what the network answered to it.
  pub record LastMet (answer : Answer V) : Type 0 where
    pub before : List (Sent V)
    pub out : Sent V
    pub sent : s'.sent ≡ before ++ out ∷ []
    pub met : send (length before) out ≡ answer

  pub data Outcome (priority : Priority) (tried : List ℕ) : Type 0 where
    nobody :
        (text : String)
        → tried ≡ []
        → Says 503 (Body.message text)
        → s'.priority_limiter ≡ drop_permit priority (try_acquire priority s.priority_limiter).0
        → Outcome priority tried
    lost :
        LastMet Answer.unreachable
        → Says 502 Body.nothing
        → s'.priority_limiter ≡ drop_permit priority (try_acquire priority s.priority_limiter).0
        → Outcome priority tried
    relayed :
        (upstream : UpstreamResponse V)
        → LastMet (Answer.answered upstream)
        → reply.status ≡ upstream.status
        → reply.body ≡ Body.streamed
        → reply.held ≡ some priority
        → ((value : V)
            → upstream.content_type ≡ some value
            → (rest : List (String × V)) × (reply.headers ≡ ("content-type", value) ∷ rest))
        → s'.priority_limiter ≡ (try_acquire priority s.priority_limiter).0
        → Outcome priority tried

  pub data ForwardAnswer : Type 0 where
    malformed :
        (message : String)
        → parse_priority outside headers ≡ err message
        → s' ≡ s
        → Says 400 (Body.message message)
        → ForwardAnswer
    unconfigured :
        (priority : Priority) (label : RequestLabels)
        → parse_priority outside headers ≡ ok priority
        → s.backends ≡ []
        → Untouched
        → Says 503 (Body.message "no backends configured")
        → label.outcome ≡ "no_backends"
        → CountedAs label
        → ForwardAnswer
    limited :
        (priority : Priority) (label : RequestLabels)
        → parse_priority outside headers ≡ ok priority
        → (try_acquire priority s.priority_limiter).1 ≡ false
        → Untouched
        → Says 429 (Body.message "priority limit reached")
        → label.outcome ≡ "priority_limited"
        → CountedAs label
        → ForwardAnswer
    admitted :
        (priority : Priority) (label : RequestLabels) (tried : List ℕ)
        → parse_priority outside headers ≡ ok priority
        → (try_acquire priority s.priority_limiter).1 ≡ true
        → map (λ x. x.backend) s'.sent ≡ map (λ x. x.backend) s.sent ++ tried
        → Distinct tried
        → Outcome priority tried
        → CountedAs label
        → ForwardAnswer

module _ {V L : Type 0} (outside : Outside V L) (time : ℕ → ℕ) (send : ℕ → Sent V → Answer V)
    (route : WorkloadRoute) (headers : HeaderMap V) (s : ProxyState V L) where
  own-Says :
      (s' : ProxyState V L) (status : ℕ) (body : Body)
      → Says outside send headers s s' (own_reply status body) status body
  unfolding own_reply
  own-Says s' status body = record { shown = refl; text = refl; free_ = refl }

  abbrev after_acquire : Priority → PriorityLimiter
  after_acquire priority = (try_acquire priority s.priority_limiter).0

  Ending-Outcome :
      (priority : Priority) (tried : List ℕ) (s' : ProxyState V L) (reply : Reply V)
      → Ending outside time send
          (request_of outside time send route headers priority s)
          (resources_of outside time send route s)
          (record s { priority_limiter = after_acquire priority })
          s'.sent
          tried
          reply
      → s'.priority_limiter
        ≡ limiter_after outside time send
            (request_of outside time send route headers priority s)
            (resources_of outside time send route s)
            reply.held
            (after_acquire priority)
      → Outcome outside send headers s s' reply priority tried
  unfolding own_reply upstream_response
  Ending-Outcome priority _ s' _ (Ending.nobody text) permit =
      Outcome.nobody text refl (own-Says s' 503 (Body.message text)) permit
  Ending-Outcome priority tried s' _ (Ending.lost _ before out e got) permit =
      Outcome.lost (record { before = before; out = out; sent = e; met = got })
        (own-Says s' 502 Body.nothing) permit
  Ending-Outcome priority tried s' _ (Ending.relayed _ before out upstream e got) permit =
      Outcome.relayed upstream (record { before = before; out = out; sent = e; met = got }) refl
        refl refl (λ value h. rw h (_, refl)) permit

  refused-Untouched :
      (priority : Priority) (origin : Option String) (status : ℕ) (outcome message : String)
      → (let p = refuse outside time send route priority origin status outcome message s in
          Untouched outside send headers s p.0 p.1
          × Says outside send headers s p.0 p.1 status (Body.message message)
          × ((label : RequestLabels) × (label.outcome ≡ outcome)
              × CountedAs outside send headers s p.0 p.1 label))
  unfolding refuse Labels.record_request own_reply
  refused-Untouched priority origin status outcome message = (
    record { sent = refl; limiter = refl; backends = refl; affinity = refl },
    record { shown = refl; text = refl; free_ = refl },
    (
      Labels.request_labels (workload_str route.kind) priority none origin status outcome,
      refl,
      record { shown = refl; requests = refl },
    ),
  )

  answered_as :
      (r : Option (ProxyState V L × Reply V))
      → Forwarded outside time send route headers s r
      → (s' : ProxyState V L) × (reply : Reply V) × (r ≡ some (s', reply))
        × ForwardAnswer outside send headers s s' reply
  answered_as _ (Forwarded.malformed message e) = (
    s,
    own_reply 400 (Body.message message),
    refl,
    ForwardAnswer.malformed message e refl (own-Says s 400 (Body.message message)),
  )
  answered_as _ (Forwarded.unconfigured priority e empty) =
      let origin = text_header outside headers "x-fairlead-origin-node" in
      let (untouched, says, counted_) =
        refused-Untouched priority origin 503 "no_backends" "no backends configured" in
      (
        _,
        _,
        refl,
        ForwardAnswer.unconfigured priority counted_.0 e empty untouched says counted_.1 counted_.2,
      )
  answered_as _ (Forwarded.limited priority e full) =
      let origin = text_header outside headers "x-fairlead-origin-node" in
      let (untouched, says, counted_) =
        refused-Untouched priority origin 429 "priority_limited" "priority limit reached" in
      (
        _,
        _,
        refl,
        ForwardAnswer.limited priority counted_.0 e full untouched says counted_.1 counted_.2,
      )
  answered_as _ (Forwarded.admitted priority s1 reply1 e given finished) = (
    s1,
    reply1,
    refl,
    ForwardAnswer.admitted priority finished.label finished.tried e given finished.trace.sent
        finished.trace.distinct
        (Ending-Outcome priority finished.tried s1 reply1 finished.ending finished.permit)
        (record { shown = finished.shown; requests = finished.counted }),
  )

  pub forward-ForwardAnswer :
      (s' : ProxyState V L) × (reply : Reply V) × (forward outside time send route headers s
        ≡ some (s', reply))
      × ForwardAnswer outside send headers s s' reply
  forward-ForwardAnswer =
      answered_as (forward outside time send route headers s)
        (forward-Forwarded outside time send route headers s)

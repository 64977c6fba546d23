-- ===== src/Proxy/Permits.antt =====
-- src/proxy/mod.rs, src/priority.rs: what becomes of the permit of a request, and of its count.
use fairlead.Base.{String, Result, ok, err}
use fairlead.Metrics.{RequestLabels}
use fairlead.Proxy.Types.{parse_priority}
use fairlead.Proxy.Replies.{some_state}
use fairlead.Proxy.Types.{nothing, streamed, message}
use fairlead.Proxy.Answers.{CountedAs, ForwardAnswer, Outcome, Says, forward-ForwardAnswer}
use fairlead.Base.{
  ℕ, ◌+◌, ◌<◌, Bool, true, Option, none, some, List, ◌≡◌, sym, ap, ◌∙◌, subst, nat_eq, arith,
}
use fairlead.Config.{Priority, realtime, batch, background}
use fairlead.Config.Workloads.{WorkloadRoute}
use fairlead.Metrics
use fairlead.Metrics.{same_request, counted, counted-update_entry}
use fairlead.PriorityLimiter.{
  PriorityLimiter, try_acquire, drop_permit, bucket, set_bucket, acquire_bucket,
}
use fairlead.Proxy.Forward.{forward}
use fairlead.Proxy.Types.{Answer, Body, HeaderMap, Outside, ProxyState, Reply, Sent}

-- A permit that was taken and is given back leaves the limiter as it was.
drop-acquire :
    (p : Priority) (l : PriorityLimiter)
    → (try_acquire p l).1 ≡ true
    → (bucket p l).in_flight + 1 < 18446744073709551616
    → drop_permit p (try_acquire p l).0 ≡ l
unfolding try_acquire drop_permit bucket set_bucket acquire_bucket
drop-acquire realtime l given small = ground arith
drop-acquire batch l given small = ground arith
drop-acquire background l given small = ground arith

taken :
    (p : Priority) (x : PriorityLimiter × Bool) (l : PriorityLimiter)
    → x.1 ≡ true
    → l ≡ x.0
    → x ≡ (l, true)
taken p (l', b) l given same = cc (given, same)

module _ {V L : Type 0} (outside : Outside V L) (time : ℕ → ℕ) (send : ℕ → Sent V → Answer V)
    (route : WorkloadRoute) (headers : HeaderMap V) (s : ProxyState V L) where
  -- A streamed body holds the permit that the request took; with any other body nothing is held, and the
  -- limiter is as before.
  abbrev pub PermitKept : ProxyState V L → Body → Option Priority → Type 0
  PermitKept s' nothing held = (held ≡ none) × (s'.priority_limiter ≡ s.priority_limiter)
  PermitKept s' (message text) held = (held ≡ none) × (s'.priority_limiter ≡ s.priority_limiter)
  PermitKept s' streamed held =
      (p : Priority) × (held ≡ some p)
      × (try_acquire p s.priority_limiter ≡ (s'.priority_limiter, true))
      × (drop_permit p s'.priority_limiter ≡ s.priority_limiter)

  Says-PermitKept :
      (s' : ProxyState V L) (reply : Reply V) (status : ℕ) (text : String)
      → Says outside send headers s s' reply status (Body.message text)
      → s'.priority_limiter ≡ s.priority_limiter
      → PermitKept s' reply.body reply.held
  Says-PermitKept s' reply status text says same =
      subst (λ b. PermitKept s' b reply.held) (sym says.text) (says.free_, same)

  admitted-PermitKept :
      (s' : ProxyState V L) (reply : Reply V) (priority : Priority) (tried : List ℕ)
      → (try_acquire priority s.priority_limiter).1 ≡ true
      → (bucket priority s.priority_limiter).in_flight + 1 < 18446744073709551616
      → Outcome outside send headers s s' reply priority tried
      → PermitKept s' reply.body reply.held
  admitted-PermitKept s' reply priority tried given small (Outcome.nobody text none_ says permit) =
      let back = drop-acquire priority s.priority_limiter given small in
      Says-PermitKept s' reply 503 text says (permit ∙ back)
  admitted-PermitKept s' reply priority tried given small (Outcome.lost met says permit) =
      let back = drop-acquire priority s.priority_limiter given small in
      subst (λ b. PermitKept s' b reply.held) (sym says.text) (says.free_, permit ∙ back)
  admitted-PermitKept s' reply priority tried given small
        (Outcome.relayed upstream met shown body held content permit) =
      let back = drop-acquire priority s.priority_limiter given small in
      subst (λ b. PermitKept s' b reply.held) (sym body)
        (
          priority,
          held,
          taken priority (try_acquire priority s.priority_limiter) s'.priority_limiter given permit,
          ap (drop_permit priority) permit ∙ back,
        )

  answer-PermitKept :
      (s' : ProxyState V L) (reply : Reply V)
      → ForwardAnswer outside send headers s s' reply
      → ((p : Priority) → (bucket p s.priority_limiter).in_flight + 1 < 18446744073709551616)
      → PermitKept s' reply.body reply.held
  answer-PermitKept s' reply (ForwardAnswer.malformed text e same says) small =
      Says-PermitKept s' reply 400 text says (ap (λ x. x.priority_limiter) same)
  answer-PermitKept s' reply (ForwardAnswer.unconfigured p label e empty kept says out counted_)
        small =
      Says-PermitKept s' reply 503 "no backends configured" says kept.limiter
  answer-PermitKept s' reply (ForwardAnswer.limited p label e full kept says out counted_) small =
      Says-PermitKept s' reply 429 "priority limit reached" says kept.limiter
  answer-PermitKept s' reply
        (ForwardAnswer.admitted p label tried e given sent distinct outcome counted_) small =
      admitted-PermitKept s' reply p tried given (small p) outcome

  -- What is counted for a request whose priority header reads like this.
  abbrev pub CountRule : ProxyState V L → Reply V → Result String Priority → Type 0
  CountRule s' reply (err text) = (reply.status ≡ 400) × (s' ≡ s)
  CountRule s' reply (ok priority) =
      (label : RequestLabels) × (label.status ≡ reply.status)
      × (s'.metrics.requests ≡ (Metrics.record_request label s.metrics).requests)
      × (counted s'.metrics.requests ≡ counted s.metrics.requests + 1)

  well_formed :
      (s' : ProxyState V L) (reply : Reply V) (priority : Priority) (label : RequestLabels)
      → parse_priority outside headers ≡ ok priority
      → CountedAs outside send headers s s' reply label
      → counted s.metrics.requests + 1 < 18446744073709551616
      → CountRule s' reply (parse_priority outside headers)
  unfolding Metrics.record_request
  well_formed s' reply priority label e c small = subst (CountRule s' reply) (sym e) (
    label,
    c.shown,
    c.requests,
    ap counted c.requests ∙ counted-update_entry same_request label s.metrics.requests small,
  )

  answer-CountRule :
      (s' : ProxyState V L) (reply : Reply V)
      → ForwardAnswer outside send headers s s' reply
      → counted s.metrics.requests + 1 < 18446744073709551616
      → CountRule s' reply (parse_priority outside headers)
  answer-CountRule s' reply (ForwardAnswer.malformed text e same says) small =
      subst (CountRule s' reply) (sym e) (says.shown, same)
  answer-CountRule s' reply (ForwardAnswer.unconfigured p label e empty kept says out c) small =
      well_formed s' reply p label e c small
  answer-CountRule s' reply (ForwardAnswer.limited p label e full kept says out c) small =
      well_formed s' reply p label e c small
  answer-CountRule s' reply (ForwardAnswer.admitted p label tried e given sent distinct outcome c)
        small =
      well_formed s' reply p label e c small

  -- What `forward` was shown to return is what it returns.
  answer_of :
      (s' : ProxyState V L) (reply : Reply V)
      → forward outside time send route headers s ≡ some (s', reply)
      → ForwardAnswer outside send headers s s' reply
  answer_of s' reply h =
      let (s1, reply1, e, answer) = forward-ForwardAnswer outside time send route headers s in
      let same = some_state s1 s' reply1 reply (sym e ∙ h) in
      subst (λ x. ForwardAnswer outside send headers s x reply) same.0
        (subst (λ x. ForwardAnswer outside send headers s s1 x) same.1 answer)

  -- A request whose priority is well formed is counted once, under the status that the client gets; one
  -- whose priority is malformed gets 400 and is not counted. The counters do not wrap.
  pub forward-CountRule :
      (s' : ProxyState V L) (reply : Reply V)
      → forward outside time send route headers s ≡ some (s', reply)
      → counted s.metrics.requests + 1 < 18446744073709551616
      → CountRule s' reply (parse_priority outside headers)
  forward-CountRule s' reply h small = answer-CountRule s' reply (answer_of s' reply h) small

  -- A permit is never lost: a streamed body holds exactly the permit that the request took, which given
  -- back makes the limiter what it was; with any other reply nothing is held, and the limiter is as it was
  -- before the request. The counter of the bucket does not wrap.
  pub forward-PermitKept :
      (s' : ProxyState V L) (reply : Reply V)
      → forward outside time send route headers s ≡ some (s', reply)
      → ((p : Priority) → (bucket p s.priority_limiter).in_flight + 1 < 18446744073709551616)
      → PermitKept s' reply.body reply.held
  forward-PermitKept s' reply h small = answer-PermitKept s' reply (answer_of s' reply h) small

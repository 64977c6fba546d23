-- ===== src/Proxy/Replies.antt =====
-- src/proxy/mod.rs: what a client and a backend can rely on.
use fairlead.Base.{
  ℕ, ◌+◌, ◌<◌, ◌≤◌, zero, suc, Option, some, List, [], ◌∷◌, ◌++◌, ◌≡◌, refl, sym, ap, ◌∙◌, subst,
  map, nat_eq, length, get_elem?, All, length-append, arith,
}
use fairlead.Config.Workloads.{WorkloadRoute}
use fairlead.Proxy.Allowed.{MayServeRoute, route_eligible-MayServeRoute}
use fairlead.Proxy.Attempts.{Distinct}
use fairlead.Proxy.Ends.{append-nil, Forwarded, forward-Forwarded}
use fairlead.Proxy.Forward.{forward, refuse}
use fairlead.Proxy.Labels
use fairlead.Proxy.Types.{Answer, HeaderMap, Outside, ProxyState, Reply, Sent}
use fairlead.Router.Fallback.{BackendState}

length-map : {A B : Type 0} (f : A → B) (xs : List A) → length (map f xs) ≡ length xs
length-map f [] = refl
length-map f (x ∷ xs) = ap suc (length-map f xs)

there_below :
    {A : Type 0} (xs : List A) (i : ℕ) → i < length xs → (x : A) × (get_elem? xs i ≡ some x)
there_below [] i h = absurd (omega arith)
there_below (x ∷ xs) zero h = (x, refl)
there_below (x ∷ xs) (suc i) h = there_below xs i (omega arith)

All-map :
    {A : Type 0} (P Q : A → Type 0) → ((a : A) → P a → Q a) → (xs : List A) → All P xs → All Q xs
All-map P Q f [] h = tt
All-map P Q f (x ∷ xs) h = (f x h.0, All-map P Q f xs h.1)

pub some_state :
    {A B : Type 0} (a c : A) (b d : B)
    → ◌≡◌ {A = Option (A × B)} (some (a, b)) (some (c, d))
    → (a ≡ c) × (b ≡ d)
some_state a c b d h = (cc h, cc h)

module _ {V L : Type 0} (outside : Outside V L) (time : ℕ → ℕ) (send : ℕ → Sent V → Answer V)
    (route : WorkloadRoute) (headers : HeaderMap V) (s : ProxyState V L) where
  -- A backend that the route, the pools of the workload and its own workloads allow.
  pub record Allowed (i : ℕ) : Type 0 where
    pub backend : BackendState
    pub there : get_elem? s.backends i ≡ some backend
    pub routed : MayServeRoute backend route s.workload_pools

  -- What one run of `forward` has sent.
  pub record SentOnce (s' : ProxyState V L) : Type 0 where
    pub tried : List ℕ
    pub sent : map (λ x. x.backend) s'.sent ≡ map (λ x. x.backend) s.sent ++ tried
    pub distinct : Distinct tried
    pub allowed : All Allowed tried
    pub few : length tried ≤ length s.backends

  nothing_sent : (s' : ProxyState V L) → s'.sent ≡ s.sent → SentOnce s'
  nothing_sent s' same = record {
    tried = [];
    sent = ap (λ xs. map (λ x. x.backend) xs) same ∙ append-nil (map (λ x. x.backend) s.sent);
    distinct = tt;
    allowed = tt;
    few = omega arith;
  }

  sent_once :
      (r : Option (ProxyState V L × Reply V)) (s' : ProxyState V L) (reply : Reply V)
      → Forwarded outside time send route headers s r
      → r ≡ some (s', reply)
      → SentOnce s'
  unfolding refuse Labels.record_request
  sent_once _ s' reply (Forwarded.malformed message e) h =
      nothing_sent s' (ap (λ x. x.sent) (sym (some_state s s' _ reply h).0))
  sent_once _ s' reply (Forwarded.unconfigured priority e empty) h =
      nothing_sent s' (ap (λ x. x.sent) (sym (some_state _ s' _ reply h).0))
  sent_once _ s' reply (Forwarded.limited priority e full) h =
      nothing_sent s' (ap (λ x. x.sent) (sym (some_state _ s' _ reply h).0))
  sent_once _ s' reply (Forwarded.admitted priority s1 reply1 e given finished) h =
      let trace = finished.trace in
      subst SentOnce (some_state s1 s' reply1 reply h).0 (record {
        tried = finished.tried;
        sent = trace.sent;
        distinct = trace.distinct;
        allowed =
            All-map _ Allowed
              (λ i fits.
                let (b, at) = there_below s.backends i fits.there in
                record {
                  backend = b;
                  there = at;
                  routed =
                      route_eligible-MayServeRoute s.backends route s.workload_pools i b fits.routed
                        at;
                })
              finished.tried trace.suitable;
        few = omega (arith, trace.measured);
      })

  -- A request is sent only to backends that the route, the pools of its workload and the backend's own
  -- list of workloads allow, and to none of them twice.
  pub forward-SentOnce :
      (s' : ProxyState V L) (reply : Reply V)
      → forward outside time send route headers s ≡ some (s', reply)
      → SentOnce s'
  forward-SentOnce s' reply h =
      sent_once (forward outside time send route headers s) s' reply
        (forward-Forwarded outside time send route headers s) h

  replied :
      (r : Option (ProxyState V L × Reply V))
      → Forwarded outside time send route headers s r
      → (s' : ProxyState V L) × (reply : Reply V) × (r ≡ some (s', reply))
  replied _ (Forwarded.malformed message e) = (s, _, refl)
  replied _ (Forwarded.unconfigured priority e empty) = (_, _, refl)
  replied _ (Forwarded.limited priority e full) = (_, _, refl)
  replied _ (Forwarded.admitted priority s1 reply1 e given finished) = (s1, reply1, refl)

  -- Every request gets a reply, and before it at most one request is sent to each backend, so that no
  -- more requests are sent than there are backends. The network may answer in any way.
  pub forward-replies :
      (s' : ProxyState V L) × (reply : Reply V) × (forward outside time send route headers s
        ≡ some (s', reply))
      × (length s'.sent ≤ length s.sent + length s.backends)
  forward-replies =
      let (s', reply, e) =
        replied (forward outside time send route headers s)
          (forward-Forwarded outside time send route headers s) in
      let once = forward-SentOnce s' reply e in
      let long : length (map (λ x. x.backend) s'.sent)
          ≡ length (map (λ x. x.backend) s.sent ++ once.tried) =
        ap length once.sent in
      (
        s',
        reply,
        e,
        omega (
          arith,
          long,
          once.few,
          length-map (λ (x : Sent V). x.backend) s'.sent,
          length-map (λ (x : Sent V). x.backend) s.sent,
          length-append (map (λ x. x.backend) s.sent) once.tried,
        ),
      )

-- ===== src/Proxy/Ends.antt =====
-- src/proxy/mod.rs: `forward` always replies, and what its replies mean.
use fairlead.Base.{
  ℕ, ◌+◌, ◌<◌, zero, suc, true, false, String, Option, none, some, List, [], ◌∷◌, ◌++◌, ◌≡◌, ◌⊎◌,
  refl, ap, ◌∙◌, subst, map, nat_eq, length, is_empty, ok, err, Result-cases, and_then, Bool-cases,
  inl, inr, arith,
}
use fairlead.Config.{Priority}
use fairlead.Config.Workloads.{WorkloadRoute}
use fairlead.PriorityLimiter.{try_acquire}
use fairlead.Proxy.Attempts.{Finished, Next, Ready, StepFits, free, free-none}
use fairlead.Proxy.Attempts.Rounds.{one_round-Fits}
use fairlead.Proxy.Forward.{
  Request, Step, affinity_key, attempts, forward, one_round, refuse, done, again, out_of_range,
}
use fairlead.Proxy.Selection.{resource_selection_state, route_ineligible_backends}
use fairlead.Proxy.Types.{
  Answer, Body, HeaderMap, Outside, ProxyState, Reply, ResourceSelectionState, Sent, own_reply,
  parse_priority, text_header,
}
use fairlead.Router.Affinity.{preferred}

Step-cases :
    {V L : Type 0} (x : Step V L)
    → ((s : ProxyState V L) × (reply : Reply V) × (x ≡ Step.done s reply))
      ⊎ (((s : ProxyState V L) × (tried : List ℕ) × (i : ℕ) × (x ≡ Step.again s tried i))
          ⊎ (x ≡ Step.out_of_range))
Step-cases (done s reply) = inl (s, reply, refl)
Step-cases (again s tried i) = inr (inl (s, tried, i, refl))
Step-cases out_of_range = inr (inr refl)

pub append-nil : (xs : List ℕ) → xs ≡ xs ++ []
append-nil [] = refl
append-nil (x ∷ xs) = ap (λ ys. x ∷ ys) (append-nil xs)

module _ {V L : Type 0} (outside : Outside V L) (time : ℕ → ℕ) (send : ℕ → Sent V → Answer V) where
  module _ (request : Request V) (resource_state : ResourceSelectionState L)
      (s0 : ProxyState V L) where
    -- The loop ends with a reply when it has more fuel than there are backends left to try.
    attempts-Finished :
        (fuel : ℕ) (tried : List ℕ) (next : Option ℕ) (s : ProxyState V L)
        → free (length s0.backends) tried < fuel
        → Ready outside time send request resource_state s0 tried s
        → elim next as (λ x. Type 0) [
          | none ↦ tried ≡ []
          | some i ↦ Next outside time send request resource_state s0 tried s i
        ]
        → (s' : ProxyState V L) × (reply : Reply V) × (attempts outside time send request
              resource_state fuel tried next s
            ≡ some (s', reply))
          × Finished outside time send request resource_state s0 s' reply
    unfolding attempts
    attempts-Finished zero tried next s more ready start = absurd (omega arith)
    attempts-Finished (suc fuel) tried next s more ready start =
        let step = one_round outside time send request resource_state tried next s in
        let fits =
          one_round-Fits outside time send request resource_state s0 tried next s ready start in
        let Fits = λ (x : Step V L). StepFits outside time send request resource_state s0 tried x in
        let follow = λ (x : Step V L). elim x as (λ y. Option (ProxyState V L × Reply V)) [
          | done final reply ↦ some (final, reply)
          | again later tried' j ↦
              attempts outside time send request resource_state fuel tried' (some j) later
          | out_of_range ↦ none
        ] in
        elim (Step-cases step) [
          | inl (s', reply, e) ↦ (s', reply, ap follow e, subst Fits e fits)
          | inr (inl (later, tried', j, e)) ↦
              let (ready', next', fewer) = subst Fits e fits in
              let (s', reply, out, finished) =
                attempts-Finished fuel tried' (some j) later (omega (arith, fewer)) ready' next' in
              (s', reply, ap follow e ∙ out, finished)
          | inr (inr e) ↦ absurd (subst Fits e fits)
        ]

  -- What `forward` hands to the loop.
  abbrev pub request_of : WorkloadRoute → HeaderMap V → Priority → ProxyState V L → Request V
  request_of route headers priority state =
      let thread_id = text_header outside headers "x-fairlead-thread-id" in
      let key = and_then thread_id (λ thread. some (affinity_key route.kind thread)) in
      record {
        route = route;
        headers = headers;
        priority = priority;
        affinity_key = key;
        origin_node = text_header outside headers "x-fairlead-origin-node";
        preferred = and_then key (λ k. preferred state.affinity k);
        route_ineligible = route_ineligible_backends state.backends route state.workload_pools;
      }

  abbrev pub resources_of : WorkloadRoute → ProxyState V L → ResourceSelectionState L
  resources_of route state =
      resource_selection_state (time (length state.sent)) state.backends state.resources
        state.resource_policy route.kind

  -- How a request ends, on every branch.
  pub data Forwarded (route : WorkloadRoute) (headers : HeaderMap V) (s : ProxyState V L)
      : Option (ProxyState V L × Reply V) → Type 0 where
    malformed :
        (message : String)
        → parse_priority outside headers ≡ err message
        → Forwarded route headers s (some (s, own_reply 400 (Body.message message)))
    unconfigured :
        (priority : Priority)
        → parse_priority outside headers ≡ ok priority
        → s.backends ≡ []
        → Forwarded route headers s (
            some (
              refuse outside time send route priority
                (text_header outside headers "x-fairlead-origin-node")
                503
                "no_backends"
                "no backends configured"
                s))
    limited :
        (priority : Priority)
        → parse_priority outside headers ≡ ok priority
        → (try_acquire priority s.priority_limiter).1 ≡ false
        → Forwarded route headers s (
            some (
              refuse outside time send route priority
                (text_header outside headers "x-fairlead-origin-node")
                429
                "priority_limited"
                "priority limit reached"
                s))
    admitted :
        (priority : Priority) (s' : ProxyState V L) (reply : Reply V)
        → parse_priority outside headers ≡ ok priority
        → (try_acquire priority s.priority_limiter).1 ≡ true
        → Finished outside time send
            (request_of route headers priority s)
            (resources_of route s)
            (record s { priority_limiter = (try_acquire priority s.priority_limiter).0 })
            s'
            reply
        → Forwarded route headers s (some (s', reply))

  is_empty-nil : {A : Type 0} (xs : List A) → is_empty xs ≡ true → xs ≡ []
  is_empty-nil [] h = refl
  is_empty-nil (x ∷ xs) h = absurd (cc h)

  -- Every request gets a reply. A malformed priority, a configuration without backends and a full bucket
  -- are each refused before anything is sent. Otherwise the backends that were tried are distinct, no policy
  -- rules one of them out, the reply relays the answer to the last request or says that there was none, the
  -- request is counted once with the reply's status, and the permit goes back unless a streamed body
  -- keeps it. The network may answer in any way at any time. One request is followed at a time.
  pub forward-Forwarded :
      (route : WorkloadRoute) (headers : HeaderMap V) (s : ProxyState V L)
      → Forwarded route headers s (forward outside time send route headers s)
  unfolding forward
  forward-Forwarded route headers s =
      let Goal = Forwarded route headers s in
      elim (Result-cases (parse_priority outside headers)) [
        | inr (message, e) ↦ rw (e, forward) (Forwarded.malformed message e)
        | inl (priority, e) ↦ elim (Bool-cases (is_empty s.backends)) [
          | inl empty ↦
              rw (e, empty, forward)
                (Forwarded.unconfigured priority e (is_empty-nil s.backends empty))
          | inr some_ ↦ elim (Bool-cases (try_acquire priority s.priority_limiter).1) [
            | inr full ↦ rw (e, some_, full, forward) (Forwarded.limited priority e full)
            | inl given ↦
                let s0 : ProxyState V L = record s {
                  priority_limiter = (try_acquire priority s.priority_limiter).0;
                } in
                let (s', reply, out, finished) =
                  attempts-Finished (request_of route headers priority s) (resources_of route s) s0
                    (length s.backends + 1) [] none s0
                    (omega (arith, free-none (length s.backends)))
                    (record {
                      so_far = record {
                        alike = record { as_long = refl; same_at = λ j. refl };
                        sent = append-nil (map (λ x. x.backend) s.sent);
                        distinct = tt;
                        suitable = tt;
                        measured = omega (arith, free-none (length s.backends));
                      };
                      limiter = refl;
                      requests = refl;
                    })
                    refl in
                rw (e, some_, given, forward, out)
                  (Forwarded.admitted priority s' reply e given finished)
          ]
        ]
      ]

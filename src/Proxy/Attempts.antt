-- ===== src/Proxy/Attempts.antt =====
-- src/proxy/mod.rs: what holds between two rounds of the loop of `forward`.
pub mod Failures
pub mod Rounds
use fairlead.Base.{
  ℕ, ◌+◌, ◌<◌, ◌≤◌, zero, suc, Bool, true, false, String, Option, none, some, List, [], ◌∷◌, ◌++◌,
  ◌&&◌, ◌||◌, ◌==◌, ◌≡◌, refl, sym, ap, ◌∙◌, subst, not, map, nat_eq, nat_beq_iff, length, contains,
  is_empty, get_elem?, All, All-append, length-append, and_then, Bool-cases, Option-cases, inl, inr,
  arith, if◌then◌else◌,
}
use fairlead.Config.{Priority}
use fairlead.Metrics
use fairlead.Metrics.{RequestLabels}
use fairlead.PriorityLimiter.{PriorityLimiter}
use fairlead.Proxy.Chosen.{chosen_for_route}
use fairlead.Proxy.Moved.{Chosen, Moved, stands_too}
use fairlead.Proxy.Forward.{
  Request, Step, limiter_after, attempts, breaker_of, count_fallback, fail_over, finish, give_up,
  one_round, outgoing, select, serve, try_backend, done, again, out_of_range,
}
use fairlead.Proxy.Types.{
  Answer, Body, Outside, ProxyState, Reply, ResourceSelectionState, Sent, UpstreamResponse,
  answered, unreachable, own_reply, upstream_response,
}
use fairlead.Router.Circuit.{CircuitBreaker}
use fairlead.Router.Fallback.{set_circuit}
use fairlead.Router.Kept.{Alike, fixed_at, set_circuit-Alike}

-- How many numbers below `n` are not on a list.
abbrev pub free : ℕ → List ℕ → ℕ
free zero xs = 0
free (suc n) xs = free n xs + (if contains xs n then 0 else 1)

contains-push : (xs : List ℕ) (x i : ℕ) → contains (xs ++ x ∷ []) i ≡ (contains xs i || (x == i))
contains-push [] x i = ground arith
contains-push (y ∷ xs) x i = ground (arith, contains-push xs x i)

free-push-above : (n : ℕ) (xs : List ℕ) (i : ℕ) → n ≤ i → free n (xs ++ i ∷ []) ≡ free n xs
free-push-above zero xs i h = refl
free-push-above (suc n) xs i h =
    ground (arith, free-push-above n xs i, contains-push xs i n, nat_beq_iff i n)

pub free-push :
    (n : ℕ) (xs : List ℕ) (i : ℕ)
    → i < n
    → contains xs i ≡ false
    → free n (xs ++ i ∷ []) + 1 ≡ free n xs
free-push zero xs i h new_ = absurd (omega arith)
free-push (suc n) xs i h new_ =
    ground (arith, free-push n xs i, free-push-above n xs i, contains-push xs i n, nat_beq_iff i n)

pub free-none : (n : ℕ) → free n [] ≡ n
free-none zero = refl
free-none (suc n) = omega (arith, free-none n)

get_elem?-below {ℓ} :
    {A : Type ℓ} (xs : List A) (i : ℕ) (x : A) → get_elem? xs i ≡ some x → i < length xs
get_elem?-below [] i x h = absurd (cc)
get_elem?-below (y ∷ xs) zero x h = omega arith
get_elem?-below (y ∷ xs) (suc i) x h = omega (arith, get_elem?-below xs i x h)

map-append {ℓ κ} :
    {A : Type ℓ} {B : Type κ} (f : A → B) (xs ys : List A) → map f (xs ++ ys) ≡ map f xs ++ map f ys
map-append f [] ys = refl
map-append f (x ∷ xs) ys = ap (λ zs. f x ∷ zs) (map-append f xs ys)

append_assoc {ℓ} : {A : Type ℓ} (xs ys zs : List A) → (xs ++ ys) ++ zs ≡ xs ++ (ys ++ zs)
append_assoc [] ys zs = refl
append_assoc (x ∷ xs) ys zs = ap (λ ws. x ∷ ws) (append_assoc xs ys zs)

-- No number occurs twice.
abbrev pub Distinct : List ℕ → Type 0
Distinct [] = Unit
Distinct (x ∷ xs) = (contains xs x ≡ false) × Distinct xs

Distinct-push :
    (xs : List ℕ) (i : ℕ) → contains xs i ≡ false → Distinct xs → Distinct (xs ++ i ∷ [])
Distinct-push [] i new_ d = (refl, tt)
Distinct-push (x ∷ xs) i new_ d = (
  ground (arith, contains-push xs i x, nat_beq_iff x i, nat_beq_iff i x),
  Distinct-push xs i (ground arith) d.1,
)

module _ {V L : Type 0} (outside : Outside V L) (time : ℕ → ℕ) (send : ℕ → Sent V → Answer V)
    (request : Request V) (resource_state : ResourceSelectionState L) (s0 : ProxyState V L) where
  -- A backend of the configuration that neither the route nor the resource policy rules out.
  pub record Suitable (i : ℕ) : Type 0 where
    pub routed : contains request.route_ineligible i ≡ false
    pub resourced : contains resource_state.ineligible i ≡ false
    pub there : i < length s0.backends

  -- What was tried, and in which state that leaves the proxy.
  pub record Tried (tried : List ℕ) (s : ProxyState V L) : Type 0 where
    pub alike : Alike s0.backends s.backends
    pub sent : map (λ x. x.backend) s.sent ≡ map (λ x. x.backend) s0.sent ++ tried
    pub distinct : Distinct tried
    pub suitable : All Suitable tried
    pub measured : length tried + free (length s0.backends) tried ≡ length s0.backends

  -- Between two rounds nothing else was decided.
  pub record Ready (tried : List ℕ) (s : ProxyState V L) : Type 0 where
    pub so_far : Tried tried s
    pub limiter : s.priority_limiter ≡ s0.priority_limiter
    pub requests : s.metrics.requests ≡ s0.metrics.requests

  abbrev pub Next : List ℕ → ProxyState V L → ℕ → Type 0
  Next tried s i = Chosen tried request.route_ineligible resource_state.ineligible s.backends i

  pub following-Suitable :
      (tried : List ℕ) (s : ProxyState V L) (i : ℕ)
      → Alike s0.backends s.backends
      → Next tried s i
      → Suitable i
  following-Suitable tried s i alike next = record {
    routed = next.routed;
    resourced = next.resourced;
    there = subst (λ n. i < n) alike.as_long (get_elem?-below s.backends i next.backend next.there);
  }

  -- One more backend was tried.
  pub Tried-push :
      (tried : List ℕ) (s s' : ProxyState V L) (i : ℕ) (out : Sent V)
      → Tried tried s
      → Next tried s i
      → Alike s0.backends s'.backends
      → s'.sent ≡ s.sent ++ out ∷ []
      → out.backend ≡ i
      → Tried (tried ++ i ∷ []) s'
  Tried-push tried s s' i out t next alike sent at =
      let fits = following-Suitable tried s i t.alike next in
      record {
        alike = alike;
        sent =
            ap (λ xs. map (λ x. x.backend) xs) sent
            ∙ map-append (λ x. x.backend) s.sent (out ∷ [])
            ∙ ap (λ xs. xs ++ out.backend ∷ []) t.sent
            ∙ append_assoc (map (λ x. x.backend) s0.sent) tried (out.backend ∷ [])
            ∙ ap (λ j. map (λ x. x.backend) s0.sent ++ (tried ++ j ∷ [])) at;
        distinct = Distinct-push tried i next.untried t.distinct;
        suitable = All-append Suitable tried (i ∷ []) t.suitable (fits, tt);
        measured = omega (
          arith,
          t.measured,
          length-append tried (i ∷ []),
          free-push (length s0.backends) tried i fits.there next.untried,
        );
      }

  -- How a request ends that has got a permit: nobody could be asked, or the last request that was sent
  -- met no one, or its answer is relayed.
  pub data Ending (sent : List (Sent V)) : List ℕ → Reply V → Type 0 where
    nobody : (text : String) → Ending sent [] (own_reply 503 (Body.message text))
    lost :
        (tried : List ℕ) (before : List (Sent V)) (out : Sent V)
        → sent ≡ before ++ out ∷ []
        → send (length before) out ≡ Answer.unreachable
        → Ending sent tried (own_reply 502 Body.nothing)
    relayed :
        (tried : List ℕ) (before : List (Sent V)) (out : Sent V) (upstream : UpstreamResponse V)
        → sent ≡ before ++ out ∷ []
        → send (length before) out ≡ Answer.answered upstream
        → Ending sent tried (upstream_response outside upstream request.priority)

  pub record Finished (s : ProxyState V L) (reply : Reply V) : Type 0 where
    pub tried : List ℕ
    pub trace : Tried tried s
    pub ending : Ending s.sent tried reply
    pub label : RequestLabels
    pub shown : label.status ≡ reply.status
    pub counted : s.metrics.requests ≡ (Metrics.record_request label s0.metrics).requests
    pub permit :
        s.priority_limiter
        ≡ limiter_after outside time send request resource_state reply.held s0.priority_limiter

  -- A round ends the request, or goes on with a backend that was not tried.
  abbrev pub StepFits : List ℕ → Step V L → Type 0
  StepFits tried (done s reply) = Finished s reply
  StepFits tried (again s tried' i) =
      Ready tried' s
      × Next tried' s i
      × (free (length s0.backends) tried' < free (length s0.backends) tried)
  StepFits tried out_of_range = ⊥

-- ===== src/Proxy/Moved.antt =====
-- src/proxy/mod.rs: what a selection leaves as it was, and the backends that stay at their places.
use fairlead.Base.{
  ℕ, true, false, String, none, some, List, [], ◌∷◌, ◌++◌, ◌||◌, ◌==◌, ◌≡◌, refl, sym, ap, ◌∙◌, not,
  nat_eq, nat_beq_iff, string_eq, string_beq_iff, contains, get_elem?, Bool-cases, Option-cases,
  inl, inr, arith,
}
use fairlead.Proxy.Selection.{push_new, pool_ineligible_backends}
use fairlead.Proxy.Types.{ProxyState}
use fairlead.Router.Exhausted.{indexes-contains}
use fairlead.Router.Fallback.{BackendState, ask}
use fairlead.Router.Kept.{Alike, fixed, fixed_at}

pub contains-push :
    (xs : List ℕ) (x i : ℕ) → contains (xs ++ x ∷ []) i ≡ (contains xs i || (x == i))
contains-push [] x i = ground arith
contains-push (y ∷ xs) x i = ground (arith, contains-push xs x i)

pub contains-push_new :
    (xs ys : List ℕ) (i : ℕ) → contains (push_new xs ys) i ≡ (contains xs i || contains ys i)
unfolding push_new
contains-push_new xs [] i = ground arith
contains-push_new xs (y ∷ ys) i = ground (
  arith,
  contains-push_new xs ys i,
  contains-push_new (xs ++ y ∷ []) ys i,
  contains-push xs y i,
  nat_beq_iff y i,
)

pub there_if_through :
    (now i : ℕ) (bs : List BackendState)
    → (ask now i bs).1 ≡ true
    → (b : BackendState) × (get_elem? bs i ≡ some b)
unfolding ask
there_if_through now i bs h = elim (Option-cases (get_elem? bs i)) [
  | inl e ↦ let out : (ask now i bs).1 ≡ false = rw (e, ask) refl in absurd (cc (out, h))
  | inr there ↦ there
]

-- A backend outside a pool is on the list of those that the pool rules out.
pub pool_kept :
    (bs : List BackendState) (pool : String) (i : ℕ) (b : BackendState)
    → contains (pool_ineligible_backends bs pool) i ≡ false
    → get_elem? bs i ≡ some b
    → b.pool ≡ pool
unfolding pool_ineligible_backends
pool_kept bs pool i b free at = elim (Bool-cases (b.pool == pool)) [
  | inl same ↦ (string_beq_iff b.pool pool).0 same
  | inr other ↦ absurd (
      cc (
        free,
        indexes-contains 0 bs (λ j x. not (x.pool == pool)) bs 0 i i b (omega arith) at
            (ap not other),
      ))
]

-- What a selection leaves as it was.
pub record Moved {V L : Type 0} (s s' : ProxyState V L) : Type 0 where
  pub alike : Alike s.backends s'.backends
  pub pools : s'.workload_pools ≡ s.workload_pools
  pub affinity : s'.affinity ≡ s.affinity
  pub limiter : s'.priority_limiter ≡ s.priority_limiter
  pub sent : s'.sent ≡ s.sent
  pub requests : s'.metrics.requests ≡ s.metrics.requests

pub Moved-trans : {V L : Type 0} (r s t : ProxyState V L) → Moved r s → Moved s t → Moved r t
Moved-trans r s t a b = record {
  alike = record {
    as_long = b.alike.as_long ∙ a.alike.as_long;
    same_at = λ j. b.alike.same_at j ∙ a.alike.same_at j;
  };
  pools = b.pools ∙ a.pools;
  affinity = b.affinity ∙ a.affinity;
  limiter = b.limiter ∙ a.limiter;
  sent = b.sent ∙ a.sent;
  requests = b.requests ∙ a.requests;
}

-- What holds of a selected index: it was not tried, no policy rules it out, and a backend is there.
pub record Chosen (attempted route_ineligible resource_ineligible : List ℕ) (bs : List BackendState)
    (i : ℕ) : Type 0 where
  pub untried : contains attempted i ≡ false
  pub routed : contains route_ineligible i ≡ false
  pub resourced : contains resource_ineligible i ≡ false
  pub backend : BackendState
  pub there : get_elem? bs i ≡ some backend

pub some_inj : (i j : ℕ) → some i ≡ some j → i ≡ j
some_inj i j h = cc h

pub stays : {V L : Type 0} (s : ProxyState V L) → Moved s s
stays s = record {
  alike = record { as_long = refl; same_at = λ j. refl };
  pools = refl;
  affinity = refl;
  limiter = refl;
  sent = refl;
  requests = refl;
}

-- What stands at an index stands there in a list that is alike.
pub stands_too :
    (bs bs' : List BackendState) (i : ℕ) (b' : BackendState)
    → Alike bs bs'
    → get_elem? bs' i ≡ some b'
    → (b : BackendState) × (get_elem? bs i ≡ some b) × (fixed b ≡ fixed b')
stands_too bs bs' i b' alike at = elim (Option-cases (get_elem? bs i)) [
  | inl e ↦
      let gone : fixed_at bs i ≡ none = rw e refl in
      let found : fixed_at bs' i ≡ some (fixed b') = rw at refl in
      absurd (cc (gone, found, alike.same_at i))
  | inr (b, e) ↦
      let here : fixed_at bs i ≡ some (fixed b) = rw e refl in
      let found : fixed_at bs' i ≡ some (fixed b') = rw at refl in
      (b, e, cc (here, found, alike.same_at i))
]

pub stands_back :
    (bs bs' : List BackendState) (i : ℕ) (b : BackendState)
    → Alike bs bs'
    → get_elem? bs i ≡ some b
    → (b' : BackendState) × (get_elem? bs' i ≡ some b') × (fixed b' ≡ fixed b)
stands_back bs bs' i b alike at =
    stands_too bs' bs i b
      (record { as_long = sym alike.as_long; same_at = λ j. sym (alike.same_at j) }) at

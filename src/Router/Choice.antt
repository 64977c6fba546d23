-- ===== src/Router/Choice.antt =====
-- src/router/fallback.rs: the backend that is chosen may be used.
use Prim.Native.Nat.{Ordering, lt, eq, gt}
use fairlead.Base.{
  ℕ, ◌+◌, zero, suc, Bool, true, String, Option, none, some, List, [], ◌∷◌, ◌++◌, ◌==◌, ◌&&◌, ◌≡◌,
  ◌∙◌, refl, sym, ap, subst, not, nat_eq, string_eq, option_eq, contains, get_elem?, All,
  All-append, Bool-cases, Option-cases, inl, inr, arith,
}
use fairlead.Router.Circuit.{is_available}
use fairlead.Router.Fallback.{
  BackendState, ResourceRank, set_circuit, ask, ask_all, indexes, least, min_by,
  best_available_backend, is_allowed, walk_remaining, try_preferred, local_candidates,
  select_backend_excluding_resource, compare_resource_rank,
}

-- The breaker of the backend at an index lets a request through.
abbrev pub lets_through : ℕ → List BackendState → ℕ → Bool
lets_through now backends i = (ask now i backends).1

-- Asking one breaker does not change what the others answer, nor what it answers itself.
pub ask_again :
    (now : ℕ) (i j : ℕ) (bs : List BackendState)
    → lets_through now (ask now i bs).0 j ≡ lets_through now bs j
unfolding ask set_circuit is_available
ask_again now i j [] = refl
ask_again now zero zero (b ∷ bs) = ground arith
ask_again now zero (suc j) (b ∷ bs) = ground arith
ask_again now (suc i) zero (b ∷ bs) = ground arith
ask_again now (suc i) (suc j) (b ∷ bs) = ground (arith, ask_again now i j bs)

and_right : (a b : Bool) → (a && b) ≡ true → b ≡ true
and_right a b h = ground arith

and_left : (a b : Bool) → (a && b) ≡ true → a ≡ true
and_left a b h = ground arith

-- The breakers answer as they did.
abbrev pub Same : ℕ → List BackendState → List BackendState → Type 0
Same now bs bs' = (j : ℕ) → lets_through now bs' j ≡ lets_through now bs j

module _ (now : ℕ) (bs : List BackendState) (excluded ineligible : List ℕ) where
  -- What may be chosen: not ruled out, and with a breaker that lets a request through.
  pub record MayServe (i : ℕ) : Type 0 where
    pub allowed : is_allowed excluded ineligible i ≡ true
    pub through : lets_through now bs i ≡ true

  abbrev Allowed : ℕ → Type 0
  Allowed i = is_allowed excluded ineligible i ≡ true

  ask_all-MayServe :
      (is : List ℕ) (bs' : List BackendState) (available : List ℕ)
      → Same now bs bs'
      → All Allowed is
      → All MayServe available
      → All MayServe (ask_all now is bs' available).1 × Same now bs (ask_all now is bs' available).0
  unfolding ask_all
  ask_all-MayServe [] bs' available same fine good = (good, same)
  ask_all-MayServe (i ∷ is) bs' available same fine good =
      let same' = λ (j : ℕ). ask_again now i j bs' ∙ same j in
      elim (Bool-cases (lets_through now bs' i)) [
        | inl opens ↦
            rw (opens, ask_all)
              (ask_all-MayServe is (ask now i bs').0 (available ++ i ∷ []) same' fine.1 (
                All-append MayServe available (i ∷ []) good
                  (record { allowed = fine.0; through = sym (same i) ∙ opens }, tt)))
        | inr shut ↦
            rw (shut, ask_all) (ask_all-MayServe is (ask now i bs').0 available same' fine.1 good)
      ]

  indexes-All :
      (P : ℕ → Type 0) (test : ℕ → BackendState → Bool)
      → ((i : ℕ) (b : BackendState) → test i b ≡ true → P i)
      → (k : ℕ) (xs : List BackendState) → All P (indexes test k xs)
  unfolding indexes
  indexes-All P test good k [] = tt
  indexes-All P test good k (b ∷ xs) = elim (Bool-cases (test k b)) [
    | inl yes_ ↦ rw yes_ (good k b yes_, indexes-All P test good (k + 1) xs)
    | inr no_ ↦ rw no_ (indexes-All P test good (k + 1) xs)
  ]

  module _ {L : Type 0} (load_cmp : L → L → Ordering) (ranks : List (Option (ResourceRank L))) where
    pick-MayServe :
        (o : Ordering) (x y : ℕ)
        → MayServe x
        → MayServe y
        → MayServe (elim o [ lt ↦ x | eq ↦ x | gt ↦ y ])
    pick-MayServe Ordering.lt x y p q = p
    pick-MayServe Ordering.eq x y p q = p
    pick-MayServe Ordering.gt x y p q = q

    least-MayServe :
        (best : ℕ) (is : List ℕ)
        → MayServe best
        → All MayServe is
        → MayServe (least load_cmp ranks best is)
    unfolding least
    least-MayServe best [] good all = good
    least-MayServe best (i ∷ is) good all =
        least-MayServe
          (elim (compare_resource_rank load_cmp best i ranks) [ lt ↦ best | eq ↦ best | gt ↦ i ]) is
          (pick-MayServe (compare_resource_rank load_cmp best i ranks) best i good all.0) all.1

    min_by-MayServe :
        (is : List ℕ) (i : ℕ) → All MayServe is → min_by load_cmp ranks is ≡ some i → MayServe i
    unfolding min_by
    min_by-MayServe [] i all h = absurd (cc)
    min_by-MayServe (j ∷ is) i all h =
        subst (λ k. MayServe k) (cc h) (least-MayServe j is all.0 all.1)

    -- The best of a list of allowed candidates.
    best-MayServe :
        (bs' : List BackendState) (is : List ℕ)
        → Same now bs bs'
        → All Allowed is
        → ((i : ℕ) → (best_available_backend load_cmp now bs' is ranks).1 ≡ some i → MayServe i)
          × Same now bs (best_available_backend load_cmp now bs' is ranks).0
    unfolding best_available_backend
    best-MayServe bs' is same fine =
        let (good, same') = ask_all-MayServe is bs' [] same fine tt in
        ((λ i h. min_by-MayServe _ i good h), same')

    walk-MayServe :
        (bs' : List BackendState) (checked : List ℕ) (i : ℕ)
        → Same now bs bs'
        → (walk_remaining load_cmp now bs' checked excluded ineligible ranks).1 ≡ some i
        → MayServe i
    unfolding walk_remaining
    walk-MayServe bs' checked i same h =
        let test = λ (j : ℕ) (b : BackendState).
          not (contains checked j) && is_allowed excluded ineligible j in
        (best-MayServe bs' (indexes test 0 bs') same (
            indexes-All Allowed test
              (λ j b t. and_right (not (contains checked j)) (is_allowed excluded ineligible j) t) 0
              bs')).0
          i h

    preferred-MayServe :
        (bs' : List BackendState) (preferred : Option ℕ) (checked : List ℕ) (i : ℕ)
        → Same now bs bs'
        → (try_preferred load_cmp now bs' preferred checked excluded ineligible ranks).1 ≡ some i
        → MayServe i
    unfolding try_preferred
    preferred-MayServe bs' none checked i same h = walk-MayServe bs' checked i same h
    preferred-MayServe bs' (some p) checked i same h =
        elim (Bool-cases (not (contains checked p) && is_allowed excluded ineligible p)) [
          | inr no_ ↦
              let out : try_preferred load_cmp now bs' (some p) checked excluded ineligible ranks
                  ≡ walk_remaining load_cmp now bs' checked excluded ineligible ranks =
                rw (no_, try_preferred) refl in
              walk-MayServe bs' checked i same (ap (λ x. x.1) (sym out) ∙ h)
          | inl yes_ ↦ elim (Option-cases (get_elem? bs' p)) [
            | inl e ↦
                let out : try_preferred load_cmp now bs' (some p) checked excluded ineligible ranks
                    ≡ walk_remaining load_cmp now bs' checked excluded ineligible ranks =
                  rw (yes_, e, try_preferred) refl in
                walk-MayServe bs' checked i same (ap (λ x. x.1) (sym out) ∙ h)
            | inr (b, e) ↦ elim (Bool-cases (lets_through now bs' p)) [
              | inl opens ↦
                  let out : try_preferred load_cmp now bs' (some p) checked excluded ineligible
                        ranks
                      ≡ ((ask now p bs').0, some p) =
                    rw (yes_, e, opens, try_preferred) refl in
                  subst (λ k. MayServe k) (cc (out, h))
                    (record {
                      allowed =
                          and_right (not (contains checked p)) (is_allowed excluded ineligible p)
                            yes_;
                      through = sym (same p) ∙ opens;
                    })
              | inr shut ↦
                  let out : try_preferred load_cmp now bs' (some p) checked excluded ineligible
                        ranks
                      ≡ walk_remaining load_cmp now (ask now p bs').0 (checked ++ p ∷ []) excluded
                          ineligible ranks =
                    rw (yes_, e, shut, try_preferred) refl in
                  walk-MayServe (ask now p bs').0 (checked ++ p ∷ []) i
                    (λ j. ask_again now p j bs' ∙ same j) (ap (λ x. x.1) (sym out) ∙ h)
            ]
          ]
        ]

    -- A backend that is selected was not tried before for this request, is not ruled out by the
    -- resource policy, and has a circuit breaker that lets a request through now, whichever way it was
    -- found (on the node of the caller, by affinity, by rank). The order of loads can be any.
    pub select_backend-MayServe :
        (preferred : Option ℕ) (origin_node : Option String) (i : ℕ)
        → (select_backend_excluding_resource load_cmp now bs preferred origin_node excluded
            ineligible ranks).1
          ≡ some i
        → MayServe i
    unfolding select_backend_excluding_resource local_candidates
    select_backend-MayServe preferred none i h = preferred-MayServe bs preferred [] i (λ j. refl) h
    select_backend-MayServe preferred (some origin) i h =
        let near = local_candidates origin excluded ineligible bs in
        let test = λ (j : ℕ) (b : BackendState).
          is_allowed excluded ineligible j && (b.node_id == some origin) in
        let (good, same) =
          best-MayServe bs near (λ j. refl)
            (indexes-All Allowed test
              (λ j b t. and_left (is_allowed excluded ineligible j) (b.node_id == some origin) t) 0
              bs) in
        let best = best_available_backend load_cmp now bs near ranks in
        elim (Option-cases best.1) [
          | inr (j, e) ↦
              let out : select_backend_excluding_resource load_cmp now bs preferred (some origin)
                    excluded ineligible ranks
                  ≡ (best.0, some j) =
                rw (e, select_backend_excluding_resource) refl in
              good i (e ∙ (ap (λ x. x.1) (sym out) ∙ h))
          | inl e ↦
              let out : select_backend_excluding_resource load_cmp now bs preferred (some origin)
                    excluded ineligible ranks
                  ≡ try_preferred load_cmp now best.0 preferred near excluded ineligible ranks =
                rw (e, select_backend_excluding_resource) refl in
              preferred-MayServe best.0 preferred near i same (ap (λ x. x.1) (sym out) ∙ h)
        ]

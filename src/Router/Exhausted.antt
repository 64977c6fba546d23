-- ===== src/Router/Exhausted.antt =====
-- src/router/fallback.rs: no backend is chosen only if none can be.
use Prim.Native.Nat.{Ordering}
use fairlead.Base.{
  ℕ, ◌+◌, zero, suc, Bool, true, false, String, Option, none, some, List, [], ◌∷◌, ◌++◌, ◌==◌, ◌&&◌,
  ◌||◌, ◌≡◌, ◌∙◌, refl, sym, ap, subst, not, nat_eq, nat_beq_iff, string_eq, option_eq, contains,
  get_elem?, Bool-cases, Option-cases, inl, inr, arith,
}
use fairlead.Router.Fallback.{
  BackendState, ResourceRank, ask, ask_all, indexes, min_by, best_available_backend, is_allowed,
  walk_remaining, try_preferred, local_candidates, select_backend_excluding_resource,
}
use fairlead.Router.Choice.{lets_through, Same, ask_again}

-- The list of available candidates only grows.
grown :
    (now : ℕ) (is : List ℕ) (bs : List BackendState) (x : ℕ) (xs : List ℕ)
    → (y : ℕ) × (ys : List ℕ) × ((ask_all now is bs (x ∷ xs)).1 ≡ y ∷ ys)
unfolding ask_all
grown now [] bs x xs = (x, xs, refl)
grown now (i ∷ is) bs x xs = elim (Bool-cases (lets_through now bs i)) [
  | inl opens ↦ rw (opens, ask_all) (grown now is (ask now i bs).0 x (xs ++ i ∷ []))
  | inr shut ↦ rw (shut, ask_all) (grown now is (ask now i bs).0 x xs)
]

module _ (now : ℕ) (bs : List BackendState) where
  ask_all-Same :
      (is : List ℕ) (bs' : List BackendState) (available : List ℕ)
      → Same now bs bs'
      → Same now bs (ask_all now is bs' available).0
  unfolding ask_all
  ask_all-Same [] bs' available same = same
  ask_all-Same (i ∷ is) bs' available same =
      ask_all-Same is (ask now i bs').0 _ (λ j. ask_again now i j bs' ∙ same j)

  -- If no candidate is available, each of them was asked and refused.
  ask_all-none :
      (is : List ℕ) (bs' : List BackendState) (j : ℕ)
      → Same now bs bs'
      → (ask_all now is bs' []).1 ≡ []
      → contains is j ≡ true
      → lets_through now bs j ≡ false
  unfolding ask_all
  ask_all-none [] bs' j same h there = absurd (cc)
  ask_all-none (i ∷ is) bs' j same h there = elim (Bool-cases (lets_through now bs' i)) [
    | inl opens ↦
        let out : (ask_all now (i ∷ is) bs' []).1 ≡ (ask_all now is (ask now i bs').0 (i ∷ [])).1 =
          rw (opens, ask_all) refl in
        let (y, ys, more) = grown now is (ask now i bs').0 i [] in absurd (cc (out, more, h))
    | inr shut ↦
        let out : (ask_all now (i ∷ is) bs' []).1 ≡ (ask_all now is (ask now i bs').0 []).1 =
          rw (shut, ask_all) refl in
        let rest =
          ask_all-none is (ask now i bs').0 j (λ k. ask_again now i k bs' ∙ same k) (sym out ∙ h) in
        elim (Bool-cases (i == j)) [
          | inl here ↦
              subst (λ k. lets_through now bs k ≡ false) ((nat_beq_iff i j).0 here)
                (sym (same i) ∙ shut)
          | inr later ↦ rest (ground arith)
        ]
  ]

  pub indexes-contains :
      (test : ℕ → BackendState → Bool) (xs : List BackendState) (k j n : ℕ) (b : BackendState)
      → n ≡ k + j
      → get_elem? xs j ≡ some b
      → test n b ≡ true
      → contains (indexes test k xs) n ≡ true
  unfolding indexes
  indexes-contains test [] k j n b e at fits = absurd (cc)
  indexes-contains test (x ∷ xs) k zero n b e at fits =
      let first : n ≡ k = omega (arith, e) in
      let same : x ≡ b = cc at in
      let fits' : test k x ≡ true =
        subst (λ y. test k y ≡ true) (sym same) (subst (λ m. test m b ≡ true) first fits) in
      rw fits' (ground (arith, nat_beq_iff k n))
  indexes-contains test (x ∷ xs) k (suc j) n b e at fits =
      let rest = indexes-contains test xs (k + 1) j n b (omega (arith, e)) at fits in
      ground (arith, rest)

  -- What may serve but is not in a list of candidates with no available one is ruled out.
  min_by-none :
      {L : Type 0} (load_cmp : L → L → Ordering) (ranks : List (Option (ResourceRank L)))
      (is : List ℕ)
      → min_by load_cmp ranks is ≡ none
      → is ≡ []
  unfolding min_by
  min_by-none load_cmp ranks [] h = refl
  min_by-none load_cmp ranks (i ∷ is) h = absurd (cc)

  -- A backend that is not there lets nothing through.
  absent : (j : ℕ) → get_elem? bs j ≡ none → lets_through now bs j ≡ false
  unfolding ask
  absent j e = ground arith

contains-end : (xs : List ℕ) (p j : ℕ) → contains (xs ++ p ∷ []) j ≡ (contains xs j || (p == j))
contains-end [] p j = ground arith
contains-end (x ∷ xs) p j = ground (arith, contains-end xs p j)

module _ (now : ℕ) (bs : List BackendState) (excluded ineligible : List ℕ) {L : Type 0}
    (load_cmp : L → L → Ordering) (ranks : List (Option (ResourceRank L))) where
  -- The breaker at an index lets nothing through.
  abbrev Shut : ℕ → Type 0
  Shut j = lets_through now bs j ≡ false

  best-none :
      (bs' : List BackendState) (is : List ℕ) (j : ℕ)
      → Same now bs bs'
      → (best_available_backend load_cmp now bs' is ranks).1 ≡ none
      → contains is j ≡ true
      → Shut j
  unfolding best_available_backend
  best-none bs' is j same h there =
      ask_all-none now bs is bs' j same (min_by-none now bs load_cmp ranks _ h) there

  best-Same :
      (bs' : List BackendState) (is : List ℕ)
      → Same now bs bs'
      → Same now bs (best_available_backend load_cmp now bs' is ranks).0
  unfolding best_available_backend
  best-Same bs' is same = ask_all-Same now bs is bs' [] same

  walk-none :
      (bs' : List BackendState) (checked : List ℕ) (j : ℕ)
      → Same now bs bs'
      → (walk_remaining load_cmp now bs' checked excluded ineligible ranks).1 ≡ none
      → is_allowed excluded ineligible j ≡ true
      → contains checked j ≡ false
      → Shut j
  unfolding walk_remaining
  walk-none bs' checked j same h fine new_ =
      let test = λ (i : ℕ) (b : BackendState).
        not (contains checked i) && is_allowed excluded ineligible i in
      elim (Option-cases (get_elem? bs' j)) [
        | inl e ↦ sym (same j) ∙ absent now bs' j e
        | inr (b, e) ↦
            best-none bs' (indexes test 0 bs') j same h
              (indexes-contains now bs' test bs' 0 j j b (omega arith) e (rw (new_, fine) refl))
      ]

  preferred-none :
      (bs' : List BackendState) (preferred : Option ℕ) (checked : List ℕ) (j : ℕ)
      → Same now bs bs'
      → (try_preferred load_cmp now bs' preferred checked excluded ineligible ranks).1 ≡ none
      → is_allowed excluded ineligible j ≡ true
      → contains checked j ≡ false
      → Shut j
  unfolding try_preferred
  preferred-none bs' none checked j same h fine new_ = walk-none bs' checked j same h fine new_
  preferred-none bs' (some p) checked j same h fine new_ =
      elim (Bool-cases (not (contains checked p) && is_allowed excluded ineligible p)) [
        | inr no_ ↦
            let out : try_preferred load_cmp now bs' (some p) checked excluded ineligible ranks
                ≡ walk_remaining load_cmp now bs' checked excluded ineligible ranks =
              rw (no_, try_preferred) refl in
            walk-none bs' checked j same (ap (λ x. x.1) (sym out) ∙ h) fine new_
        | inl yes_ ↦ elim (Option-cases (get_elem? bs' p)) [
          | inl e ↦
              let out : try_preferred load_cmp now bs' (some p) checked excluded ineligible ranks
                  ≡ walk_remaining load_cmp now bs' checked excluded ineligible ranks =
                rw (yes_, e, try_preferred) refl in
              walk-none bs' checked j same (ap (λ x. x.1) (sym out) ∙ h) fine new_
          | inr (b, e) ↦ elim (Bool-cases (lets_through now bs' p)) [
            | inl opens ↦
                let out : try_preferred load_cmp now bs' (some p) checked excluded ineligible ranks
                    ≡ ((ask now p bs').0, some p) =
                  rw (yes_, e, opens, try_preferred) refl in
                absurd (cc (out, h))
            | inr shut ↦
                let out : try_preferred load_cmp now bs' (some p) checked excluded ineligible ranks
                    ≡ walk_remaining load_cmp now (ask now p bs').0 (checked ++ p ∷ []) excluded
                        ineligible ranks =
                  rw (yes_, e, shut, try_preferred) refl in
                elim (Bool-cases (p == j)) [
                  | inl here ↦ subst (λ k. Shut k) ((nat_beq_iff p j).0 here) (sym (same p) ∙ shut)
                  | inr other ↦
                      walk-none (ask now p bs').0 (checked ++ p ∷ []) j
                        (λ k. ask_again now p k bs' ∙ same k) (ap (λ x. x.1) (sym out) ∙ h) fine
                        (rw (contains-end checked p j, new_, other) refl)
                ]
          ]
        ]
      ]

  -- If no backend is selected, then every backend that was not tried before and that the resource
  -- policy does not rule out has a circuit breaker that lets nothing through now.
  pub select_backend-exhausted :
      (preferred : Option ℕ) (origin_node : Option String) (j : ℕ)
      → (select_backend_excluding_resource load_cmp now bs preferred origin_node excluded ineligible
          ranks).1
        ≡ none
      → is_allowed excluded ineligible j ≡ true
      → lets_through now bs j ≡ false
  unfolding select_backend_excluding_resource
  select_backend-exhausted preferred none j h fine =
      preferred-none bs preferred [] j (λ k. refl) h fine refl
  select_backend-exhausted preferred (some origin) j h fine =
      let near = local_candidates origin excluded ineligible bs in
      let best = best_available_backend load_cmp now bs near ranks in
      elim (Option-cases best.1) [
        | inr (i, e) ↦
            let out : select_backend_excluding_resource load_cmp now bs preferred (some origin)
                  excluded ineligible ranks
                ≡ (best.0, some i) =
              rw (e, select_backend_excluding_resource) refl in
            absurd (cc (out, h))
        | inl e ↦
            let out : select_backend_excluding_resource load_cmp now bs preferred (some origin)
                  excluded ineligible ranks
                ≡ try_preferred load_cmp now best.0 preferred near excluded ineligible ranks =
              rw (e, select_backend_excluding_resource) refl in
            elim (Bool-cases (contains near j)) [
              | inl local ↦ best-none bs near j (λ k. refl) e local
              | inr far ↦
                  preferred-none best.0 preferred near j (best-Same bs near (λ k. refl))
                    (ap (λ x. x.1) (sym out) ∙ h) fine far
            ]
      ]

-- ===== src/Config/Pools/Sound.antt =====
-- src/config.rs: what an accepted workload policy guarantees.
use Prim.Native.String.{◌++◌ as ◌^^◌}
use fairlead.Base.{
  Bool, true, false, String, some, List, [], ◌∷◌, ◌++◌, ◌≡◌, ◌⊎◌, ◌==◌, ◌||◌, ◌∙◌, refl, sym, ap,
  subst, filter, contains, string_eq, string_beq_iff, not, is_empty, Result, ok, err, Result-cases,
  ◌>>=◌, All, All-append, Bool-cases, inl, inr, if◌then◌else◌, arith,
}
use fairlead.Base.Maps.{HashMap, contains_key, get, get-insert, insert}
use fairlead.Base.Text.{trim}
use fairlead.Config.Pools.{
  PoolConfig, bad_policy, check_policy, check_refs, join, known_pool_workloads, pool_id_set,
  validate_workload_pools,
}

abbrev pub NoRepeat : List String → Type 0
NoRepeat [] = Unit
NoRepeat (x ∷ xs) = (contains xs x ≡ false) × NoRepeat xs

contains-push :
    (xs : List String) (y x : String) → contains (xs ++ y ∷ []) x ≡ (contains xs x || (y == x))
contains-push [] y x = ground arith
contains-push (z ∷ xs) y x = ground (arith, contains-push xs y x)

NoRepeat-push :
    (xs : List String) (y : String) → contains xs y ≡ false → NoRepeat xs → NoRepeat (xs ++ y ∷ [])
NoRepeat-push [] y new_ d = (refl, tt)
NoRepeat-push (x ∷ xs) y new_ d = (
  ground (arith, contains-push xs y x, string_beq_iff x y, string_beq_iff y x),
  NoRepeat-push xs y (ground arith) d.1,
)

not_empty : (xs : List String) (y : String) → is_empty (xs ++ y ∷ []) ≡ false
not_empty [] y = refl
not_empty (x ∷ xs) y = refl

err-ok : {A : Type 0} (m : String) (a : A) → ◌≡◌ {A = Result String A} (err m) (ok a) → ⊥
err-ok m a h = absurd (cc h)

module _ (pool_ids : List String) where
  -- The pools of a workload: some, all configured, none twice.
  pub record PolicyFits (workload : String) (pools : List String) : Type 0 where
    pub known : contains known_pool_workloads workload ≡ true
    pub targeted : is_empty pools ≡ false
    pub configured : All (λ p. contains pool_ids p ≡ true) pools
    pub once : NoRepeat pools

  check_refs-PolicyFits :
      (workload : String) (done ps out : List String)
      → contains known_pool_workloads workload ≡ true
      → (is_empty ps ≡ false) ⊎ (is_empty done ≡ false)
      → All (λ p. contains pool_ids p ≡ true) done
      → NoRepeat done
      → check_refs pool_ids workload done ps ≡ ok out
      → PolicyFits workload out
  unfolding check_refs
  check_refs-PolicyFits workload done [] out known some_ all once h =
      let same : done ≡ out = cc h in
      subst (PolicyFits workload) same (record {
        known = known;
        targeted = elim some_ [ inl x ↦ absurd (cc x) | inr x ↦ x ];
        configured = all;
        once = once;
      })
  check_refs-PolicyFits workload done (p ∷ ps) out known some_ all once h =
      let pool = trim p in
      elim (Bool-cases (contains pool_ids pool)) [
        | inr e ↦ absurd (ground arith)
        | inl e ↦ elim (Bool-cases (contains done pool)) [
          | inl f ↦ absurd (ground arith)
          | inr f ↦
              check_refs-PolicyFits workload (done ++ pool ∷ []) ps out known
                (inr (not_empty done pool)) (All-append _ done (pool ∷ []) all (e, tt))
                (NoRepeat-push done pool f once) (ground arith)
        ]
      ]

  abbrev Sound : HashMap (List String) → Type 0
  Sound policy = (w : String) (ps : List String) → get w policy ≡ some ps → PolicyFits w ps

  check_policy-Sound :
      (parsed : List (String × List String)) (normalized out : HashMap (List String))
      → Sound normalized
      → check_policy pool_ids normalized parsed ≡ ok out
      → Sound out
  unfolding check_policy
  check_policy-Sound [] normalized out sound h =
      let same : normalized ≡ out = cc h in subst Sound same sound
  check_policy-Sound ((w, pools) ∷ parsed) normalized out sound h =
      let workload = trim w in
      let next = λ (r : Result String (List String)).
        r >>= (λ accepted. check_policy pool_ids (insert workload accepted normalized) parsed) in
      elim (Bool-cases (contains known_pool_workloads workload)) [
        | inr e ↦ absurd (ground arith)
        | inl e ↦ elim (Bool-cases (is_empty pools)) [
          | inl f ↦ absurd (ground arith)
          | inr f ↦
              let on : next (check_refs pool_ids workload [] pools) ≡ ok out = ground arith in
              elim (Result-cases (check_refs pool_ids workload [] pools)) [
                | inr (m, g) ↦ absurd (err-ok m out (sym (ap next g) ∙ on))
                | inl (accepted, g) ↦
                    let fits = check_refs-PolicyFits workload [] pools accepted e (inl f) tt tt g in
                    check_policy-Sound parsed (insert workload accepted normalized) out
                      (λ v ps at. elim (Bool-cases (workload == v)) [
                        | inl same ↦
                            let named : workload ≡ v = (string_beq_iff workload v).0 same in
                            let is : accepted ≡ ps =
                              ground (arith, get-insert workload v accepted normalized) in
                            subst (λ x. PolicyFits x ps) named (subst (PolicyFits workload) is fits)
                        | inr other ↦
                            sound v ps (ground (arith, get-insert workload v accepted normalized))
                      ])
                      (sym (ap next g) ∙ on)
              ]
        ]
      ]

known_or_missing :
    (policy : HashMap (List String)) (ws : List String) (w : String)
    → is_empty (filter (λ x. not (contains_key policy x)) ws) ≡ true
    → contains ws w ≡ true
    → contains_key policy w ≡ true
known_or_missing policy [] w none_missing there = absurd (cc there)
known_or_missing policy (x ∷ ws) w none_missing there = elim (Bool-cases (contains_key policy x)) [
  | inr e ↦ absurd (ground arith)
  | inl e ↦ elim (Bool-cases (x == w)) [
    | inl f ↦ subst (λ y. contains_key policy y ≡ true) ((string_beq_iff x w).0 f) e
    | inr f ↦ known_or_missing policy ws w (ground arith) (ground arith)
  ]
]

-- The last test leaves the policy as it is.
finished :
    (normalized policy : HashMap (List String)) (strict : Bool)
    → (if strict
        then (if is_empty (filter (λ w. not (contains_key normalized w)) known_pool_workloads)
            then ok normalized
            else bad_policy (
                "STRICT_WORKLOAD_POOLS=true missing workload policy for "
                ^^ join (filter (λ w. not (contains_key normalized w)) known_pool_workloads)))
        else ok normalized)
      ≡ ok policy
    → (normalized ≡ policy)
      × (strict ≡ true
          → is_empty (filter (λ w. not (contains_key normalized w)) known_pool_workloads) ≡ true)
finished normalized policy strict h =
    elim (Bool-cases
      (is_empty (filter (λ w. not (contains_key normalized w)) known_pool_workloads))) [
        | inl e ↦ (ground arith, λ on. e)
        | inr e ↦ (ground arith, λ on. ground arith)
      ]

-- In a policy that is accepted, each workload is a known one and has at least one pool, all of its pools
-- are configured, and none is named twice. With the strict switch every known workload has an entry.
pub validate_workload_pools-Sound :
    (parsed : List (String × List String)) (pools : List PoolConfig) (strict : Bool)
    (policy : HashMap (List String))
    → validate_workload_pools parsed pools strict ≡ ok policy
    → ((w : String) (ps : List String)
        → get w policy ≡ some ps
        → PolicyFits (pool_id_set pools) w ps)
      × (strict ≡ true
          → (w : String) → contains known_pool_workloads w ≡ true
          → contains_key policy w ≡ true)
unfolding validate_workload_pools get
validate_workload_pools-Sound parsed pools strict policy h =
    let finish = λ (normalized : HashMap (List String)).
      if strict
      then (if is_empty (filter (λ w. not (contains_key normalized w)) known_pool_workloads)
          then ok normalized
          else bad_policy (
              "STRICT_WORKLOAD_POOLS=true missing workload policy for "
              ^^ join (filter (λ w. not (contains_key normalized w)) known_pool_workloads)))
      else ok normalized in
    let next = λ (r : Result String (HashMap (List String))). r >>= finish in
    let on : next (check_policy (pool_id_set pools) [] parsed) ≡ ok policy =
      elim (Bool-cases (is_empty parsed)) [
        | inl e ↦ absurd (ground arith)
        | inr e ↦ ground arith
      ] in
    elim (Result-cases (check_policy (pool_id_set pools) [] parsed)) [
      | inr (m, e) ↦ absurd (err-ok m policy (sym (ap next e) ∙ on))
      | inl (normalized, e) ↦
          let last : finish normalized ≡ ok policy = sym (ap next e) ∙ on in
          let (same, all) = finished normalized policy strict last in
          (
            subst (Sound (pool_id_set pools)) same (
                check_policy-Sound (pool_id_set pools) parsed [] normalized
                  (λ w ps at. absurd (cc at)) e),
            λ on_ w there.
                known_or_missing policy known_pool_workloads w
                  (subst
                    (λ n.
                      is_empty (filter (λ x. not (contains_key n x)) known_pool_workloads) ≡ true)
                    same (all on_))
                  there,
          )
    ]

-- ===== src/Router/Kept.antt =====
-- src/router/fallback.rs: the choice of a backend writes breakers and nothing else.
use Prim.Native.Nat.{Ordering}
use fairlead.Base.{
  ℕ, zero, suc, String, Option, none, some, List, [], ◌∷◌, ◌++◌, ◌&&◌, ◌≡◌, refl, ap, ◌∙◌, not,
  nat_eq, contains, get_elem?, length, and_then, Bool-cases, Option-cases, inl, inr,
}
use fairlead.Router.Circuit.{CircuitBreaker, is_available}
use fairlead.Router.Fallback.{
  BackendState, ResourceRank, set_circuit, ask, ask_all, best_available_backend, indexes,
  is_allowed, walk_remaining, try_preferred, local_candidates, select_backend_excluding_resource,
}

-- What no question to a breaker changes.
module _ (P : List BackendState → Type 0) (now : ℕ)
    (asked : (i : ℕ) (bs : List BackendState) → P bs → P (ask now i bs).0) where
  ask_all-keeps :
      (is : List ℕ) (bs : List BackendState) (available : List ℕ)
      → P bs
      → P (ask_all now is bs available).0
  unfolding ask_all
  ask_all-keeps [] bs available p = p
  ask_all-keeps (i ∷ is) bs available p = ask_all-keeps is (ask now i bs).0 _ (asked i bs p)

  module _ {L : Type 0} (load_cmp : L → L → Ordering) (excluded ineligible : List ℕ)
      (ranks : List (Option (ResourceRank L))) where
    best-keeps :
        (bs : List BackendState) (is : List ℕ)
        → P bs
        → P (best_available_backend load_cmp now bs is ranks).0
    unfolding best_available_backend
    best-keeps bs is p = ask_all-keeps is bs [] p

    walk-keeps :
        (bs : List BackendState) (checked : List ℕ)
        → P bs
        → P (walk_remaining load_cmp now bs checked excluded ineligible ranks).0
    unfolding walk_remaining
    walk-keeps bs checked p =
        best-keeps bs
          (indexes (λ i b. not (contains checked i) && is_allowed excluded ineligible i) 0 bs) p

    preferred-keeps :
        (bs : List BackendState) (preferred : Option ℕ) (checked : List ℕ)
        → P bs
        → P (try_preferred load_cmp now bs preferred checked excluded ineligible ranks).0
    unfolding try_preferred
    preferred-keeps bs none checked p = walk-keeps bs checked p
    preferred-keeps bs (some i) checked p =
        elim (Bool-cases (not (contains checked i) && is_allowed excluded ineligible i)) [
          | inr no_ ↦ rw (no_, try_preferred) (walk-keeps bs checked p)
          | inl yes_ ↦ elim (Option-cases (get_elem? bs i)) [
            | inl e ↦ rw (yes_, e, try_preferred) (walk-keeps bs checked p)
            | inr (b, e) ↦ elim (Bool-cases (ask now i bs).1) [
              | inl opens ↦ rw (yes_, e, opens, try_preferred) (asked i bs p)
              | inr shut ↦
                  rw (yes_, e, shut, try_preferred)
                    (walk-keeps (ask now i bs).0 (checked ++ i ∷ []) (asked i bs p))
            ]
          ]
        ]

    pub select-keeps :
        (bs : List BackendState) (preferred : Option ℕ) (origin_node : Option String)
        → P bs
        → P
            (select_backend_excluding_resource load_cmp now bs preferred origin_node excluded
              ineligible ranks).0
    unfolding select_backend_excluding_resource
    select-keeps bs preferred none p = preferred-keeps bs preferred [] p
    select-keeps bs preferred (some origin) p =
        let near = local_candidates origin excluded ineligible bs in
        let best = best_available_backend load_cmp now bs near ranks in
        elim (Option-cases best.1) [
          | inr (j, e) ↦ rw (e, select_backend_excluding_resource) (best-keeps bs near p)
          | inl e ↦
              rw (e, select_backend_excluding_resource)
                (preferred-keeps best.0 preferred near (best-keeps bs near p))
        ]

-- A backend without its breaker.
pub record Fixed : Type 0 where
  pub id : String
  pub url : String
  pub node_id : Option String
  pub pool : String

abbrev pub fixed : BackendState → Fixed
fixed b = record { id = b.id; url = b.url; node_id = b.node_id; pool = b.pool }

abbrev pub fixed_at : List BackendState → ℕ → Option Fixed
fixed_at bs i = and_then (get_elem? bs i) (λ b. some (fixed b))

pub fixed_at-set_circuit :
    (i : ℕ) (c : CircuitBreaker) (bs : List BackendState) (j : ℕ)
    → fixed_at (set_circuit i c bs) j ≡ fixed_at bs j
unfolding set_circuit
fixed_at-set_circuit i c [] j = refl
fixed_at-set_circuit zero c (b ∷ bs) zero = refl
fixed_at-set_circuit zero c (b ∷ bs) (suc j) = refl
fixed_at-set_circuit (suc i) c (b ∷ bs) zero = refl
fixed_at-set_circuit (suc i) c (b ∷ bs) (suc j) = fixed_at-set_circuit i c bs j

pub length-set_circuit :
    (i : ℕ) (c : CircuitBreaker) (bs : List BackendState) → length (set_circuit i c bs) ≡ length bs
unfolding set_circuit
length-set_circuit i c [] = refl
length-set_circuit zero c (b ∷ bs) = refl
length-set_circuit (suc i) c (b ∷ bs) = ap suc (length-set_circuit i c bs)

-- The same backends, whatever their breakers.
pub record Alike (bs bs' : List BackendState) : Type 0 where
  pub as_long : length bs' ≡ length bs
  pub same_at : (j : ℕ) → fixed_at bs' j ≡ fixed_at bs j

pub set_circuit-Alike :
    (bs0 : List BackendState) (i : ℕ) (c : CircuitBreaker) (bs : List BackendState)
    → Alike bs0 bs
    → Alike bs0 (set_circuit i c bs)
set_circuit-Alike bs0 i c bs a = record {
  as_long = length-set_circuit i c bs ∙ a.as_long;
  same_at = λ j. fixed_at-set_circuit i c bs j ∙ a.same_at j;
}

-- What no write to a breaker changes, no question changes.
pub ask-keeps :
    (P : List BackendState → Type 0)
    → ((i : ℕ) (c : CircuitBreaker) (bs : List BackendState) → P bs → P (set_circuit i c bs))
    → (now i : ℕ) (bs : List BackendState) → P bs
    → P (ask now i bs).0
unfolding ask
ask-keeps P kept now i bs p = elim (Option-cases (get_elem? bs i)) [
  | inl e ↦ rw (e, ask) p
  | inr (b, e) ↦ rw (e, ask) (kept i (is_available now b.circuit).0 bs p)
]

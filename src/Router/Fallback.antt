-- ===== src/Router/Fallback.antt =====
-- src/router/fallback.rs: which backend serves a request. `L` is the type of a load (`f64`) and `load_cmp`
-- its `partial_cmp`, with an unordered pair taken as equal, as the code does.
use Prim.Native.Nat.{Ordering, compare, lt, eq, gt}
use fairlead.Base.{
  ℕ, ◌+◌, zero, suc, Bool, false, String, Option, none, some, List, [], ◌∷◌, ◌++◌, ◌==◌, ◌&&◌, not,
  nat_eq, string_eq, option_eq, contains, get_elem?, if◌then◌else◌, and_then,
}
use fairlead.Config.Workloads.{WorkloadKind}
use fairlead.Router.Circuit.{CircuitBreaker, is_available}

-- `BackendState` of src/router/backend.rs, less the address of the health probe.
pub record BackendState : Type 0 where
  pub id : String
  pub url : String
  pub node_id : Option String
  pub pool : String
  pub workloads : List WorkloadKind
  pub circuit : CircuitBreaker

pub record ResourceRank (L : Type 0) : Type 0 where
  pub current_load : Option L
  pub available_vram_mb : ℕ

abbrev pub then_with : Ordering → Ordering → Ordering
then_with Ordering.eq o = o
then_with Ordering.lt o = Ordering.lt
then_with Ordering.gt o = Ordering.gt

-- Writes the breaker of the backend at an index.
unfoldable pub set_circuit : ℕ → CircuitBreaker → List BackendState → List BackendState
set_circuit i c [] = []
set_circuit zero c (b ∷ bs) = record b { circuit = c } ∷ bs
set_circuit (suc i) c (b ∷ bs) = b ∷ set_circuit i c bs

-- `backend.circuit.write().await.is_available()` for the backend at an index, if there is one.
unfoldable pub ask : ℕ → ℕ → List BackendState → List BackendState × Bool
unfolding set_circuit
ask now i backends = elim (get_elem? backends i) [
  | none ↦ (backends, false)
  | some b ↦
      let (c, available) = is_available now b.circuit in (set_circuit i c backends, available)
]

-- The loop of `best_available_backend`: every candidate is asked.
unfoldable pub ask_all : ℕ → List ℕ → List BackendState → List ℕ → List BackendState × List ℕ
unfolding ask
ask_all now [] backends available = (backends, available)
ask_all now (i ∷ is) backends available =
    let (backends', yes_) = ask now i backends in
    ask_all now is backends' (if yes_ then available ++ i ∷ [] else available)

-- The indexes of the backends, from `i` on, that pass a test.
unfoldable pub indexes : (ℕ → BackendState → Bool) → ℕ → List BackendState → List ℕ
indexes test i [] = []
indexes test i (b ∷ bs) = let rest = indexes test (i + 1) bs in if test i b then i ∷ rest else rest

-- An index that no earlier attempt and no policy rules out.
abbrev pub is_allowed : List ℕ → List ℕ → ℕ → Bool
is_allowed excluded ineligible i = not (contains excluded i) && not (contains ineligible i)

-- The backends on the node of the caller.
unfoldable pub local_candidates : String → List ℕ → List ℕ → List BackendState → List ℕ
unfolding indexes
local_candidates origin excluded ineligible backends =
    indexes (λ i b. is_allowed excluded ineligible i && (b.node_id == some origin)) 0 backends

module _ {L : Type 0} (load_cmp : L → L → Ordering) where
  unfoldable pub compare_optional_load : Option L → Option L → Ordering
  compare_optional_load (some a) (some b) = load_cmp a b
  compare_optional_load (some a) none = Ordering.lt
  compare_optional_load none (some b) = Ordering.gt
  compare_optional_load none none = Ordering.eq

  -- More headroom comes first.
  unfoldable pub compare_rank_values : ResourceRank L → ResourceRank L → Ordering
  unfolding compare_optional_load
  compare_rank_values a b =
      then_with (compare_optional_load a.current_load b.current_load)
        (compare b.available_vram_mb a.available_vram_mb)

  unfoldable pub compare_ranked :
      ℕ → ℕ → Option (ResourceRank L) → Option (ResourceRank L) → Ordering
  unfolding compare_rank_values
  compare_ranked a b (some x) (some y) = then_with (compare_rank_values x y) (compare a b)
  compare_ranked a b (some x) none = Ordering.lt
  compare_ranked a b none (some y) = Ordering.gt
  compare_ranked a b none none = compare a b

  abbrev pub rank_at : List (Option (ResourceRank L)) → ℕ → Option (ResourceRank L)
  rank_at ranks i = and_then (get_elem? ranks i) (λ rank. rank)

  unfoldable pub compare_resource_rank : ℕ → ℕ → List (Option (ResourceRank L)) → Ordering
  unfolding compare_ranked
  compare_resource_rank a b ranks = compare_ranked a b (rank_at ranks a) (rank_at ranks b)

  -- `min_by`: the first of the least.
  unfoldable pub least : List (Option (ResourceRank L)) → ℕ → List ℕ → ℕ
  unfolding compare_resource_rank
  least ranks best [] = best
  least ranks best (i ∷ is) =
      least ranks (elim (compare_resource_rank best i ranks) [ lt ↦ best | eq ↦ best | gt ↦ i ]) is

  unfoldable pub min_by : List (Option (ResourceRank L)) → List ℕ → Option ℕ
  unfolding least
  min_by ranks [] = none
  min_by ranks (i ∷ is) = some (least ranks i is)

  unfoldable pub best_available_backend :
      ℕ → List BackendState → List ℕ → List (Option (ResourceRank L)) → List BackendState × Option ℕ
  unfolding ask_all min_by
  best_available_backend now backends candidates ranks =
      let (backends', available) = ask_all now candidates backends [] in
      (backends', min_by ranks available)

  -- The last resort: all that was not looked at yet.
  unfoldable pub walk_remaining :
      ℕ
      → List BackendState
      → List ℕ
      → List ℕ
      → List ℕ
      → List (Option (ResourceRank L))
      → List BackendState × Option ℕ
  unfolding best_available_backend indexes
  walk_remaining now backends checked excluded ineligible ranks =
      best_available_backend now backends
        (indexes (λ i b. not (contains checked i) && is_allowed excluded ineligible i) 0 backends)
        ranks

  -- The preferred backend, if it is there and was not looked at yet, and then the rest.
  unfoldable pub try_preferred :
      ℕ
      → List BackendState
      → Option ℕ
      → List ℕ
      → List ℕ
      → List ℕ
      → List (Option (ResourceRank L))
      → List BackendState × Option ℕ
  unfolding walk_remaining
  try_preferred now backends none checked excluded ineligible ranks =
      walk_remaining now backends checked excluded ineligible ranks
  try_preferred now backends (some i) checked excluded ineligible ranks =
      if not (contains checked i) && is_allowed excluded ineligible i
      then elim (get_elem? backends i) [
        | none ↦ walk_remaining now backends checked excluded ineligible ranks
        | some b ↦
            let (backends', available) = ask now i backends in
            if available
            then (backends', some i)
            else walk_remaining now backends' (checked ++ i ∷ []) excluded ineligible ranks
      ]
      else walk_remaining now backends checked excluded ineligible ranks

  unfoldable pub select_backend_excluding_resource :
      ℕ
      → List BackendState
      → Option ℕ
      → Option String
      → List ℕ
      → List ℕ
      → List (Option (ResourceRank L))
      → List BackendState × Option ℕ
  unfolding try_preferred local_candidates
  select_backend_excluding_resource now backends preferred none excluded ineligible ranks =
      try_preferred now backends preferred [] excluded ineligible ranks
  select_backend_excluding_resource now backends preferred (some origin) excluded ineligible ranks =
      let candidates = local_candidates origin excluded ineligible backends in
      let (backends', best) = best_available_backend now backends candidates ranks in
      elim best [
        | some i ↦ (backends', some i)
        | none ↦ try_preferred now backends' preferred candidates excluded ineligible ranks
      ]

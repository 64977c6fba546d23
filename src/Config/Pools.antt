-- ===== src/Config/Pools.antt =====
-- src/config.rs: the pools, and which of them serve a workload. A set or map of the code, which iterates
-- in the order of its keys, is a list without repetitions here; only messages show that order.
pub mod Sound
use Prim.Native.String.{◌++◌ as ◌^^◌}
use fairlead.Base.{
  Bool, true, false, String, Option, none, some, List, [], ◌∷◌, ◌++◌, ◌≡◌, ◌==◌, ◌∙◌, refl, sym, ap,
  subst, map, filter, contains, string_eq, string_beq_iff, not, is_empty, Result, ok, err,
  Result-cases, ◌>>=◌, All, any, Bool-cases, inl, inr, if◌then◌else◌, arith,
}
use fairlead.Base.Maps.{HashMap, contains_key, get, insert}
use fairlead.Base.Text.{text_is_empty, trim}
use fairlead.Config.Backends.{BackendConfig}

pub record PoolConfig : Type 0 where
  pub id : String

abbrev pub known_pool_workloads : List String
known_pool_workloads =
    "chat_completions" ∷ "embeddings" ∷ "vision_analysis" ∷ "embed_batch" ∷ "index_build"
    ∷ "cluster" ∷ []

abbrev pub bad_policy : {A : Type 0} → String → Result String A
bad_policy text = err ("invalid WORKLOAD_POOLS_JSON: " ^^ text)

unfoldable pub pool_id_set : List PoolConfig → List String
unfolding trim
pool_id_set pools = map (λ pool. trim pool.id) pools

unfoldable pub normalize_pools : List PoolConfig → List PoolConfig
unfolding trim
normalize_pools pools = map (λ pool. record { id = trim pool.id }) pools

unfoldable pub check_pool_ids : List String → List PoolConfig → Result String Unit
unfolding trim
check_pool_ids seen [] = ok tt
check_pool_ids seen (pool ∷ pools) =
    let id = trim pool.id in
    let rest = check_pool_ids (id ∷ seen) pools in
    if text_is_empty id
    then err "invalid POOLS_JSON: pool id cannot be empty"
    else if contains seen id
    then err ("invalid POOLS_JSON: duplicate pool id '" ^^ (id ^^ "'"))
    else rest

unfoldable pub validate_pools : List PoolConfig → Result String Unit
unfolding check_pool_ids
validate_pools pools =
    if is_empty pools
    then err "invalid POOLS_JSON: at least one pool is required"
    else check_pool_ids [] pools

unfoldable pub validate_backend_pool_refs :
    List BackendConfig → List PoolConfig → Result String Unit
unfolding pool_id_set trim
validate_backend_pool_refs [] pools = ok tt
validate_backend_pool_refs (b ∷ bs) pools =
    let rest = validate_backend_pool_refs bs pools in
    if not (contains (pool_id_set pools) (trim b.pool))
    then err (
        "invalid BACKENDS_JSON: backend '"
        ^^ (b.id ^^ ("' references unknown pool '" ^^ (b.pool ^^ "'"))))
    else rest

unfoldable pub default_workload_pools : List PoolConfig → HashMap (List String)
default_workload_pools pools =
    map (λ workload. (workload, map (λ pool. pool.id) pools)) known_pool_workloads

-- The inner loop: the pools of one workload, `done` those that were accepted.
unfoldable pub check_refs :
    List String → String → List String → List String → Result String (List String)
unfolding trim
check_refs pool_ids workload done [] = ok done
check_refs pool_ids workload done (p ∷ ps) =
    let pool = trim p in
    let rest = check_refs pool_ids workload (done ++ pool ∷ []) ps in
    if text_is_empty pool
    then bad_policy ("workload '" ^^ (workload ^^ "' has an empty pool reference"))
    else if not (contains pool_ids pool)
    then bad_policy ("workload '" ^^ (workload ^^ ("' references unknown pool '" ^^ (pool ^^ "'"))))
    else if contains done pool
    then bad_policy
        ("workload '" ^^ (workload ^^ ("' references pool '" ^^ (pool ^^ "' more than once"))))
    else rest

unfoldable pub check_policy :
    List String
    → HashMap (List String)
    → List (String × List String)
    → Result String (HashMap (List String))
unfolding check_refs trim
check_policy pool_ids normalized [] = ok normalized
check_policy pool_ids normalized ((w, pools) ∷ parsed) =
    let workload = trim w in
    if not (contains known_pool_workloads workload)
    then bad_policy ("unknown workload '" ^^ (workload ^^ "'"))
    else if is_empty pools
    then bad_policy ("workload '" ^^ (workload ^^ "' must target at least one pool"))
    else check_refs pool_ids workload [] pools
      >>= (λ accepted. check_policy pool_ids (insert workload accepted normalized) parsed)

abbrev join : List String → String
join [] = ""
join (w ∷ []) = w
join (w ∷ v ∷ ws) = w ^^ (", " ^^ join (v ∷ ws))

unfoldable pub validate_workload_pools :
    List (String × List String) → List PoolConfig → Bool → Result String (HashMap (List String))
unfolding check_policy pool_id_set contains_key
validate_workload_pools parsed pools strict =
    if is_empty parsed
    then bad_policy "at least one workload policy is required"
    else check_policy (pool_id_set pools) [] parsed >>= (λ normalized.
      let missing = filter (λ w. not (contains_key normalized w)) known_pool_workloads in
      if strict
      then (if is_empty missing
          then ok normalized
          else bad_policy
              ("STRICT_WORKLOAD_POOLS=true missing workload policy for " ^^ join missing))
      else ok normalized)

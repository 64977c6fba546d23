-- ===== src/Config/Backends.antt =====
-- src/config.rs: the backends, and what makes their configuration valid.
use Prim.Native.String.{◌++◌ as ◌^^◌}
use fairlead.Base.{
  ℕ, Bool, false, String, Option, none, some, List, [], ◌∷◌, ◌≡◌, ◌↔◌, ◌==◌, ◌∙◌, refl, sym, ap,
  any, string_eq, is_empty, Result, ok, err, Result-cases, ◌>>=◌, All, Bool-cases, inl, inr,
  if◌then◌else◌, arith,
}
use fairlead.Base.Text.{text_is_empty, to_decimal, trim}
use fairlead.Config.Workloads.{WorkloadKind, default_proxy_workloads}

pub record BackendConfig : Type 0 where
  pub id : String
  pub url : String
  pub node_id : Option String
  pub pool : String
  pub workloads : List WorkloadKind
  pub health_path : Option String

unfoldable pub from_legacy_url : ℕ → String → BackendConfig
unfolding to_decimal
from_legacy_url index url = record {
  id = "backend-" ^^ to_decimal index;
  url = url;
  node_id = none;
  pool = "default";
  workloads = default_proxy_workloads;
  health_path = none;
}

abbrev quoted : String → String → Result String Unit
quoted id text = err ("invalid BACKENDS_JSON: backend '" ^^ (id ^^ ("' " ^^ text)))

abbrev pub blank : String → Bool
blank text = text_is_empty (trim text)

abbrev pub blank_path : Option String → Bool
blank_path none = false
blank_path (some path) = blank path

-- The body of the first loop.
unfoldable pub validate_backend : BackendConfig → Result String Unit
unfolding trim
validate_backend b =
    if blank b.id
    then err "invalid BACKENDS_JSON: backend id cannot be empty"
    else if blank b.url
    then quoted b.id "url cannot be empty"
    else if blank b.pool
    then quoted b.id "pool cannot be empty"
    else if is_empty b.workloads
    then quoted b.id "must support at least one workload"
    else if blank_path b.health_path
    then quoted b.id "health_path cannot be empty"
    else ok tt

unfoldable pub validate_each : List BackendConfig → Result String Unit
unfolding validate_backend
validate_each [] = ok tt
validate_each (b ∷ bs) = validate_backend b >>= (λ _. validate_each bs)

-- The second loop: `any` is the inner one.
unfoldable pub validate_ids : List BackendConfig → Result String Unit
validate_ids [] = ok tt
validate_ids (b ∷ bs) =
    let rest = validate_ids bs in
    if any (λ other. b.id == other.id) bs
    then err ("invalid BACKENDS_JSON: duplicate backend id '" ^^ (b.id ^^ "'"))
    else rest

unfoldable pub validate_backends : List BackendConfig → Result String Unit
unfolding validate_each validate_ids
validate_backends backends = validate_each backends >>= (λ _. validate_ids backends)

-- A backend with everything that it needs.
pub record BackendFits (b : BackendConfig) : Type 0 where
  pub named : blank b.id ≡ false
  pub addressed : blank b.url ≡ false
  pub pooled : blank b.pool ≡ false
  pub working : is_empty b.workloads ≡ false
  pub probed : blank_path b.health_path ≡ false

-- No two backends have the same id.
abbrev pub DistinctBackends : List BackendConfig → Type 0
DistinctBackends [] = Unit
DistinctBackends (b ∷ bs) = (any (λ other. b.id == other.id) bs ≡ false) × DistinctBackends bs

validate_backend-exact : (b : BackendConfig) → (validate_backend b ≡ ok tt) ↔ BackendFits b
unfolding validate_backend
validate_backend-exact b = (
  (λ h. record {
    named = ground arith;
    addressed = ground arith;
    pooled = ground arith;
    working = ground arith;
    probed = ground arith;
  }),
  (λ f. ground (arith, f.named, f.addressed, f.pooled, f.working, f.probed)),
)

err-ok : (m : String) → ◌≡◌ {A = Result String Unit} (err m) (ok tt) → ⊥
err-ok m h = absurd (cc h)

validate_each-exact : (bs : List BackendConfig) → (validate_each bs ≡ ok tt) ↔ All BackendFits bs
unfolding validate_each
validate_each-exact [] = ((λ h. tt), (λ h. refl))
validate_each-exact (b ∷ bs) =
    let here = validate_backend-exact b in
    let rest = validate_each-exact bs in
    elim (Result-cases (validate_backend b)) [
      | inl (u, e) ↦ (
        (λ h. (here.0 e, rest.0 (sym (ap (λ r. r >>= (λ _. validate_each bs)) e) ∙ h))),
        (λ h. ap (λ r. r >>= (λ _. validate_each bs)) e ∙ rest.1 h.1),
      )
      | inr (m, e) ↦ (
        (λ h. absurd (err-ok m (sym (ap (λ r. r >>= (λ _. validate_each bs)) e) ∙ h))),
        (λ h. absurd (err-ok m (sym e ∙ here.1 h.0))),
      )
    ]

validate_ids-exact : (bs : List BackendConfig) → (validate_ids bs ≡ ok tt) ↔ DistinctBackends bs
unfolding validate_ids
validate_ids-exact [] = ((λ h. tt), (λ h. refl))
validate_ids-exact (b ∷ bs) =
    let rest = validate_ids-exact bs in
    elim (Bool-cases (any (λ other. b.id == other.id) bs)) [
      | inl e ↦ ((λ h. ground arith), (λ h. ground arith))
      | inr e ↦ ((λ h. (e, rest.0 (ground arith))), (λ h. ground (arith, rest.1 h.1)))
    ]

-- A list of backends is accepted exactly if each has an id, a URL, a pool and a workload, none has an
-- empty health path, spaces not counted, and no two have the same id.
pub validate_backends-exact :
    (backends : List BackendConfig)
    → (validate_backends backends ≡ ok tt) ↔ (All BackendFits backends × DistinctBackends backends)
unfolding validate_backends
validate_backends-exact backends =
    let each = validate_each-exact backends in
    let ids = validate_ids-exact backends in
    let next = λ (r : Result String Unit). r >>= (λ _. validate_ids backends) in
    elim (Result-cases (validate_each backends)) [
      | inl (u, e) ↦ ((λ h. (each.0 e, ids.0 (sym (ap next e) ∙ h))), (λ h. ap next e ∙ ids.1 h.1))
      | inr (m, e) ↦ (
        (λ h. absurd (err-ok m (sym (ap next e) ∙ h))),
        (λ h. absurd (err-ok m (sym e ∙ each.1 h.0))),
      )
    ]

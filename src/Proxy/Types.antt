-- ===== src/Proxy/Types.antt =====
-- src/proxy/mod.rs: what the proxy reads and writes. `V` is the type of a header's value and `L` that of
-- a load (`f64`).
use Prim.Native.Nat.{Ordering}
use fairlead.Base.{
  ℕ, String, Option, List, none, some, [], ◌∷◌, string_eq, Bool, ◌++◌, and_then, unwrap_or,
  if◌then◌else◌,
}
use fairlead.Base.Text.{starts_with, text_is_empty}
use fairlead.Config.{Priority, WorkloadPoolPolicy}
use fairlead.Config.Workloads.{parse_priority_name}
use fairlead.Base.{Result, ok, err}
use fairlead.Metrics.{RoutingMetrics}
use fairlead.PriorityLimiter.{PriorityLimiter}
use fairlead.Resources.{ResourceRegistry, ResourceRoutingPolicy}
use fairlead.Router.Affinity.{SessionAffinity}
use fairlead.Router.Fallback.{BackendState, ResourceRank}

-- `HeaderMap`: the first value of each name.
abbrev pub HeaderMap : Type 0 → Type 0
HeaderMap V = String → Option V

-- What the proxy takes from other crates: `HeaderValue::to_str` and `from_static`, and the order of loads.
pub record Outside (V L : Type 0) : Type 0 where
  pub to_str : V → Option String
  pub from_static : String → V
  pub load_cmp : L → L → Ordering

-- A request as it is sent to a backend. Its body is the client's, and is left out.
pub record Sent (V : Type 0) : Type 0 where
  pub backend : ℕ
  pub url : String
  pub headers : List (String × V)

-- The part of a backend's response that the proxy reads.
pub record UpstreamResponse (V : Type 0) : Type 0 where
  pub status : ℕ
  pub content_type : Option V

pub data Answer (V : Type 0) : Type 0 where
  unreachable : Answer V
  answered : UpstreamResponse V → Answer V

pub data Body : Type 0 where
  nothing streamed : Body
  message : String → Body

-- The reply to the client. `held` is the permit that a streamed body keeps until it ends.
pub record Reply (V : Type 0) : Type 0 where
  pub status : ℕ
  pub headers : List (String × V)
  pub body : Body
  pub held : Option Priority

-- The fields of `AppState` that the proxy uses, and what its client has sent.
pub record ProxyState (V L : Type 0) : Type 0 where
  pub backends : List BackendState
  pub workload_pools : WorkloadPoolPolicy
  pub affinity : SessionAffinity
  pub metrics : RoutingMetrics
  pub resources : ResourceRegistry L
  pub resource_policy : ResourceRoutingPolicy
  pub priority_limiter : PriorityLimiter
  pub sent : List (Sent V)

pub record ResourceSelectionState (L : Type 0) : Type 0 where
  pub ineligible : List ℕ
  pub ranks : List (Option (ResourceRank L))

unfoldable pub str_contains : String → String → Bool
unfolding starts_with
str_contains String.[] pattern = text_is_empty pattern
str_contains (String.◌∷◌ c s) pattern =
    let rest = str_contains s pattern in
    if starts_with pattern (String.◌∷◌ c s) then Bool.true else rest

module _ {V L : Type 0} (outside : Outside V L) where
  unfoldable pub parse_priority : HeaderMap V → Result String Priority
  unfolding parse_priority_name
  parse_priority headers = elim (headers "x-fairlead-priority") [
    | none ↦ ok Priority.realtime
    | some value ↦ elim (outside.to_str value) [
      | none ↦ err "invalid X-Fairlead-Priority header"
      | some name ↦ elim (parse_priority_name name) [
        | none ↦ err "invalid X-Fairlead-Priority: expected realtime, batch, or background"
        | some priority ↦ ok priority
      ]
    ]
  ]

  -- `headers.get(name).and_then(|v| v.to_str().ok())`
  unfoldable pub text_header : HeaderMap V → String → Option String
  text_header headers name = and_then (headers name) outside.to_str

  unfoldable forwarded_upstream_headers : List String
  forwarded_upstream_headers =
      "openai-organization" ∷ "openai-project" ∷ "anthropic-version" ∷ "anthropic-beta"
      ∷ "x-goog-api-key" ∷ []

  -- A header that is copied if the client sent it.
  unfoldable copied : HeaderMap V → String → List (String × V)
  copied headers name = elim (headers name) [ none ↦ [] | some value ↦ (name, value) ∷ [] ]

  unfoldable all_copied : HeaderMap V → List String → List (String × V)
  unfolding copied
  all_copied headers [] = []
  all_copied headers (name ∷ names) = copied headers name ++ all_copied headers names

  unfoldable pub with_upstream_headers : HeaderMap V → List (String × V)
  unfolding copied all_copied forwarded_upstream_headers
  with_upstream_headers headers =
      ("content-type", unwrap_or (headers "content-type") (outside.from_static "application/json"))
      ∷ (copied headers "authorization" ++ all_copied headers forwarded_upstream_headers)

  unfoldable pub is_sse : Option V → Bool
  unfolding str_contains
  is_sse content_type = elim (and_then content_type outside.to_str) [
    | none ↦ Bool.false
    | some text ↦ str_contains text "text/event-stream"
  ]

  unfoldable pub upstream_response : UpstreamResponse V → Priority → Reply V
  unfolding is_sse
  upstream_response upstream priority = record {
    status = upstream.status;
    headers =
        elim upstream.content_type [ none ↦ [] | some value ↦ ("content-type", value) ∷ [] ]
        ++ (if is_sse upstream.content_type
            then ("cache-control", outside.from_static "no-cache")
              ∷ ("x-accel-buffering", outside.from_static "no")
              ∷ []
            else []);
    body = Body.streamed;
    held = some priority;
  }

-- A reply of the proxy itself, which holds no permit.
unfoldable pub own_reply : {V : Type 0} → ℕ → Body → Reply V
own_reply status body = record { status = status; headers = []; body = body; held = none }

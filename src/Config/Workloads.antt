-- ===== src/Config/Workloads.antt =====
-- src/config.rs: the workloads of the proxy, their routes, and the priorities that clients name.
use Prim.Native.Char.{Char, code}
use fairlead.Base.{
  Bool, true, false, ℕ, ◌-◌, String, Option, none, some, List, [], ◌∷◌, Eq, ◌==◌, string_eq, ◌≡◌,
  ◌↔◌, ◌&&◌, ltb, leb, get_elem?, arith, nat_beq, unwrap_or, if◌then◌else◌,
}
use fairlead.Base.Maps.{get}
use fairlead.Base.Text.{trim}
use fairlead.Config.{Priority, WorkloadPoolPolicy}

pub data WorkloadKind : Type 0 where
  chat_completions embeddings : WorkloadKind

abbrev pub workload_index : WorkloadKind → ℕ
workload_index chat_completions = 0
workload_index embeddings = 1

pub workload_beq_iff :
    (a b : WorkloadKind) → (nat_beq (workload_index a) (workload_index b) ≡ true) ↔ (a ≡ b)
workload_beq_iff a b = ground arith

-- The derived `PartialEq` compares discriminants.
instance abbrev pub workload_eq : Eq WorkloadKind
workload_eq = record {
  beq = λ a b. nat_beq (workload_index a) (workload_index b);
  beq_iff = workload_beq_iff;
}

-- `WorkloadKind::as_str`
unfoldable pub workload_str : WorkloadKind → String
workload_str chat_completions = "chat_completions"
workload_str embeddings = "embeddings"

abbrev pub default_proxy_workloads : List WorkloadKind
default_proxy_workloads = WorkloadKind.chat_completions ∷ WorkloadKind.embeddings ∷ []

pub data BackendPoolPolicy : Type 0 where
  any_pool : BackendPoolPolicy
  named : String → BackendPoolPolicy

-- `BackendPoolPolicy::allows`
unfoldable pub pool_policy_allows : BackendPoolPolicy → String → Bool
pool_policy_allows any_pool pool = true
pool_policy_allows (named expected) pool = pool == expected

pub record WorkloadRoute : Type 0 where
  pub kind : WorkloadKind
  pub upstream_path : String
  pub backend_pool : BackendPoolPolicy
  pub retry_server_errors : Bool

unfoldable pub route : WorkloadKind → WorkloadRoute
route chat_completions = record {
  kind = WorkloadKind.chat_completions;
  upstream_path = "chat/completions";
  backend_pool = BackendPoolPolicy.any_pool;
  retry_server_errors = true;
}
route embeddings = record {
  kind = WorkloadKind.embeddings;
  upstream_path = "embeddings";
  backend_pool = BackendPoolPolicy.any_pool;
  retry_server_errors = true;
}

unfoldable pub pools_for : WorkloadPoolPolicy → String → Option (List String)
pools_for policy workload = get workload policy.pools_by_workload

abbrev lower_letters : List Char
lower_letters =
    "a" ∷ "b" ∷ "c" ∷ "d" ∷ "e" ∷ "f" ∷ "g" ∷ "h" ∷ "i" ∷ "j" ∷ "k" ∷ "l" ∷ "m" ∷ "n" ∷ "o" ∷ "p"
    ∷ "q" ∷ "r" ∷ "s" ∷ "t" ∷ "u" ∷ "v" ∷ "w" ∷ "x" ∷ "y" ∷ "z" ∷ []

-- `to_lowercase` on the characters a header value can show, which are ASCII.
unfoldable pub to_lowercase : String → String
to_lowercase String.[] = String.[]
to_lowercase (String.◌∷◌ c s) =
    let rest = to_lowercase s in
    if leb 65 (code c) && leb (code c) 90
    then String.◌∷◌ (unwrap_or (get_elem? lower_letters (code c - 65)) c) rest
    else String.◌∷◌ c rest

-- `Priority::parse`
unfoldable pub parse_priority_name : String → Option Priority
unfolding to_lowercase trim
parse_priority_name value =
    let name = to_lowercase (trim value) in
    if name == "realtime"
    then some Priority.realtime
    else if name == "batch"
    then some Priority.batch
    else if name == "background"
    then some Priority.background
    else none

spelled : parse_priority_name " BaTch " ≡ some Priority.batch
unfolding parse_priority_name
spelled = fairlead.Base.refl

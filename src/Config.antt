-- ===== src/Config.antt =====
-- src/config.rs: the shared vocabulary of the configuration, and the policy that ties workloads to pools.
pub mod Workloads
pub mod Numbers
pub mod Backends
pub mod Pools
pub mod InPools
use fairlead.Base.{
  Bool, true, ℕ, String, none, some, List, Eq, ◌==◌, string_eq, any, ◌≡◌, ◌↔◌, arith, nat_beq,
}
use fairlead.Base.Maps.{HashMap, get}

pub data Priority : Type 0 where
  realtime batch background : Priority

-- `Priority::as_str`
unfoldable pub priority_str : Priority → String
priority_str realtime = "realtime"
priority_str batch = "batch"
priority_str background = "background"

-- The derived `PartialEq` compares discriminants.
abbrev pub priority_index : Priority → ℕ
priority_index realtime = 0
priority_index batch = 1
priority_index background = 2

pub priority_beq_iff :
    (a b : Priority) → (nat_beq (priority_index a) (priority_index b) ≡ true) ↔ (a ≡ b)
priority_beq_iff a b = ground arith

instance abbrev pub priority_eq : Eq Priority
priority_eq = record {
  beq = λ a b. nat_beq (priority_index a) (priority_index b);
  beq_iff = priority_beq_iff;
}

pub record WorkloadPoolPolicy : Type 0 where
  pub pools_by_workload : HashMap (List String)

-- A workload with no entry may run in any pool.
unfoldable pub allows : WorkloadPoolPolicy → String → String → Bool
allows policy workload pool = elim (get workload policy.pools_by_workload) [
  | none ↦ true
  | some pools ↦ any (λ allowed. allowed == pool) pools
]

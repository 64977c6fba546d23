-- ===== src/Router/Affinity.antt =====
-- src/router/affinity.rs: the last backend of each caller.
use fairlead.Base.{ℕ, String, Option, [], string_eq}
use fairlead.Base.Maps.{HashMap, get, insert}

abbrev pub SessionAffinity : Type 0
SessionAffinity = HashMap ℕ

unfoldable pub new_affinity : SessionAffinity
new_affinity = []

unfoldable pub preferred : SessionAffinity → String → Option ℕ
preferred affinity thread_id = get thread_id affinity

unfoldable pub record_affinity : String → ℕ → SessionAffinity → SessionAffinity
record_affinity thread_id backend_index affinity = insert thread_id backend_index affinity

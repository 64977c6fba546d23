-- ===== src/Config/Numbers.antt =====
-- src/config.rs: how numbers and switches are read from the environment. A variable that is not set and one that is
-- not Unicode are both an error of the lookup, which the code treats alike. The reasons that the
-- standard library gives for a number that it refuses are left out of the messages.
use Prim.Native.String.{◌++◌ as ◌^^◌}
use fairlead.Base.{
  ℕ, ◌<◌, Bool, false, String, Option, none, some, ◌≡◌, ◌==◌, nat_eq, string_eq, ltb, Result, ok,
  err, unwrap_or, Option-cases, inl, inr, if◌then◌else◌, arith, ◌>>=◌,
}
use fairlead.Base.Text.{parse_u64, text_is_empty, to_decimal, trim}
use fairlead.Config.Workloads.{to_lowercase}

abbrev pub Lookup : Type 0
Lookup = String → Option String

abbrev pub invalid : {A : Type 0} → String → Result String A
invalid key = err ("invalid " ^^ key)

-- `get(key).unwrap_or_else(default).parse()` at a type below `bound`.
unfoldable pub parse_below : ℕ → String → ℕ → Lookup → Result String ℕ
unfolding parse_u64 to_decimal
parse_below bound key default get = elim (parse_u64 (unwrap_or (get key) (to_decimal default))) [
  | none ↦ invalid key
  | some n ↦ if ltb n bound then ok n else invalid key
]

unfoldable pub parse_nonzero : ℕ → String → ℕ → Lookup → Result String ℕ
unfolding parse_below
parse_nonzero bound key default get = parse_below bound key default get >>= (λ value.
    if value == 0
    then err ("invalid " ^^ (key ^^ ": value must be greater than zero"))
    else ok value)

unfoldable pub parse_optional_nonzero : String → Lookup → Result String (Option ℕ)
unfolding parse_u64
parse_optional_nonzero key get = elim (get key) [
  | none ↦ ok none
  | some raw ↦ elim (parse_u64 raw) [
    | none ↦ invalid key
    | some value ↦
        if value == 0
        then err ("invalid " ^^ (key ^^ ": value must be greater than zero"))
        else ok (some value)
  ]
]

pub data JobStoreConfig : Type 0 where
  memory : JobStoreConfig
  sqlite : String → JobStoreConfig

unfoldable pub parse_job_store : Lookup → Result String JobStoreConfig
unfolding to_lowercase trim
parse_job_store get =
    let name = to_lowercase (trim (unwrap_or (get "JOB_STORE") "memory")) in
    let path = trim (unwrap_or (get "JOB_DB_PATH") "fairlead_jobs.sqlite3") in
    if name == "memory"
    then ok JobStoreConfig.memory
    else if name == "sqlite"
    then (if text_is_empty path
        then err "invalid JOB_DB_PATH: path cannot be empty"
        else ok (JobStoreConfig.sqlite path))
    else err ("invalid JOB_STORE: expected 'memory' or 'sqlite', got '" ^^ (name ^^ "'"))

-- `get(key).map(|v| v.trim().eq_ignore_ascii_case("true")).unwrap_or(false)`
unfoldable pub switched_on : String → Lookup → Bool
unfolding to_lowercase trim
switched_on key get = elim (get key) [ none ↦ false | some v ↦ to_lowercase (trim v) == "true" ]

parse_nonzero-positive :
    (bound : ℕ) (key : String) (default : ℕ) (get : Lookup) (n : ℕ)
    → parse_nonzero bound key default get ≡ ok n
    → (0 < n) × (n < bound)
unfolding parse_nonzero parse_below
parse_nonzero-positive bound key default get n h =
    elim (Option-cases (parse_u64 (unwrap_or (get key) (to_decimal default)))) [
      | inl e ↦ ground arith
      | inr (m, e) ↦ (ground arith, ground arith)
    ]

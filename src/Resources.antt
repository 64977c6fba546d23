-- ===== src/Resources.antt =====
-- src/resources.rs: the reports of model servers about their memory and load, and how long they count.
-- `L` is the type of a load (`f64`), `in_unit` the test `(0.0..=1.0).contains`.
pub mod Filed
pub mod Fresh
use fairlead.Base.{
  ℕ, ◌-◌, Bool, String, Option, none, some, List, [], ◌∷◌, ◌==◌, ◌&&◌, not, string_eq, ltb, map,
  sort_by, Result, ok, err, and_then, unwrap_or, if◌then◌else◌,
}
use fairlead.Base.Text.{trim, text_is_empty, text_le}
use fairlead.Config.Workloads.{WorkloadKind, chat_completions, embeddings}
use fairlead.Workers.Types.{Clock, unix_ms}

pub record ResourceRoutingPolicy : Type 0 where
  pub enabled : Bool
  pub chat_completions_required_vram_mb : ℕ  -- u64, as all sizes
  pub embeddings_required_vram_mb : ℕ

unfoldable pub default_resource_policy : ResourceRoutingPolicy
default_resource_policy = record {
  enabled = Bool.false;
  chat_completions_required_vram_mb = 1024;
  embeddings_required_vram_mb = 512;
}

unfoldable pub required_vram_mb : ResourceRoutingPolicy → WorkloadKind → ℕ
required_vram_mb policy chat_completions = policy.chat_completions_required_vram_mb
required_vram_mb policy embeddings = policy.embeddings_required_vram_mb

pub record ResourceKey : Type 0 where
  pub node_id : String
  pub backend_id : String

-- The derived `PartialEq`.
abbrev pub same_key : ResourceKey → ResourceKey → Bool
same_key a b = (a.node_id == b.node_id) && (a.backend_id == b.backend_id)

module _ (L : Type 0) where
  pub record ResourceReportRequest : Type 0 where
    pub node_id : String
    pub backend_id : Option String
    pub total_vram_mb : ℕ
    pub reserved_vram_mb : ℕ
    pub current_load : Option L

  pub record ResourceReport : Type 0 where
    pub node_id : String
    pub backend_id : Option String
    pub total_vram_mb : ℕ
    pub reserved_vram_mb : ℕ
    pub available_vram_mb : ℕ
    pub current_load : Option L

  -- Nanoseconds of the two clocks.
  pub record ResourceEntry : Type 0 where
    pub report : ResourceReport
    pub observed_at : ℕ
    pub reported_at : ℕ

  -- `age` is in nanoseconds; the code shows it as `age_seconds`, a floating point number.
  pub record ResourceSnapshot : Type 0 where
    pub report : ResourceReport
    pub reported_at_unix_ms : ℕ
    pub age : ℕ
    pub stale : Bool

  -- `ResourceRegistry` with what its lock guards.
  pub record ResourceRegistry : Type 0 where
    pub reports : List (ResourceKey × ResourceEntry)
    pub stale_after : ℕ

-- `.map(trim).filter(|value| !value.is_empty())`
unfoldable pub trimmed_id : Option String → Option String
unfolding trim
trimmed_id value = and_then value (λ v. if text_is_empty (trim v) then none else some (trim v))

-- `report.backend_id.cmp` on `Option<String>`: no backend comes first.
abbrev pub option_text_le : Option String → Option String → Bool
option_text_le none b = Bool.true
option_text_le (some a) none = Bool.false
option_text_le (some a) (some b) = text_le a b

module _ {L : Type 0} where
  unfoldable pub new_resources : ℕ → ResourceRegistry L
  new_resources stale_after = record { reports = []; stale_after = stale_after }

  unfoldable pub default_resources : ResourceRegistry L
  unfolding new_resources
  default_resources = new_resources 30000000000

  -- `HashMap::get` and `HashMap::insert`.
  unfoldable pub get_entry :
      ResourceKey → List (ResourceKey × ResourceEntry L) → Option (ResourceEntry L)
  get_entry k [] = none
  get_entry k ((j, entry) ∷ m) =
      let rest = get_entry k m in if same_key j k then some entry else rest

  unfoldable pub insert_entry :
      ResourceKey
      → ResourceEntry L
      → List (ResourceKey × ResourceEntry L)
      → List (ResourceKey × ResourceEntry L)
  insert_entry k entry [] = (k, entry) ∷ []
  insert_entry k entry ((j, old) ∷ m) =
      let rest = insert_entry k entry m in if same_key j k then (j, entry) ∷ m else (j, old) ∷ rest

  unfoldable pub snapshot_from_entry : Clock → ResourceEntry L → ℕ → ResourceSnapshot L
  unfolding unix_ms
  snapshot_from_entry clock entry stale_after =
      let age = clock.monotonic - entry.observed_at in
      record {
        report = entry.report;
        reported_at_unix_ms = unix_ms entry.reported_at;
        age = age;
        stale = ltb stale_after age;
      }

  abbrev pub report_le : ResourceSnapshot L → ResourceSnapshot L → Bool
  report_le a b =
      if a.report.node_id == b.report.node_id
      then option_text_le a.report.backend_id b.report.backend_id
      else text_le a.report.node_id b.report.node_id

  unfoldable pub snapshots : Clock → ResourceRegistry L → List (ResourceSnapshot L)
  unfolding snapshot_from_entry
  snapshots clock r =
      sort_by report_le (map (λ e. snapshot_from_entry clock e.1 r.stale_after) r.reports)

  unfoldable pub fresh_report :
      ℕ → String → Option String → ResourceRegistry L → Option (ResourceReport L)
  unfolding get_entry
  fresh_report now node_id backend_id r =
      and_then
        (get_entry (record { node_id = node_id; backend_id = unwrap_or backend_id "" }) r.reports)
        (λ entry. if ltb r.stale_after (now - entry.observed_at) then none else some entry.report)

  -- The report of the backend, or else that of its node.
  unfoldable pub fresh_backend_report :
      ℕ → String → String → ResourceRegistry L → Option (ResourceReport L)
  unfolding fresh_report
  fresh_backend_report now node_id backend_id r =
      elim (fresh_report now node_id (some backend_id) r) [
        | some report ↦ some report
        | none ↦ fresh_report now node_id none r
      ]

  abbrev pub key_of : ResourceReport L → ResourceKey
  key_of report = record { node_id = report.node_id; backend_id = unwrap_or report.backend_id "" }

  abbrev pub entry_of : Clock → ResourceReport L → ResourceEntry L
  entry_of clock report = record {
    report = report;
    observed_at = clock.monotonic;
    reported_at = clock.system;
  }

  module _ (in_unit : L → Bool) where
    abbrev load_fits : Option L → Bool
    load_fits none = Bool.true
    load_fits (some load) = in_unit load

    unfoldable pub validate_report : ResourceReportRequest L → Result String (ResourceReport L)
    unfolding trimmed_id trim
    validate_report request =
        let node_id = trim request.node_id in
        if text_is_empty node_id
        then err "node_id cannot be empty"
        else if ltb request.total_vram_mb request.reserved_vram_mb
        then err "reserved_vram_mb cannot exceed total_vram_mb"
        else if not (load_fits request.current_load)
        then err "current_load must be between 0.0 and 1.0"
        else ok (record {
          node_id = node_id;
          backend_id = trimmed_id request.backend_id;
          total_vram_mb = request.total_vram_mb;
          reserved_vram_mb = request.reserved_vram_mb;
          available_vram_mb = request.total_vram_mb - request.reserved_vram_mb;
          current_load = request.current_load;
        })

    -- `ResourceRegistry::report`
    unfoldable pub report :
        Clock
        → ResourceReportRequest L
        → ResourceRegistry L
        → ResourceRegistry L × Result String (ResourceSnapshot L)
    unfolding validate_report snapshot_from_entry insert_entry
    report clock request r = elim (validate_report request) [
      | err message ↦ (r, err message)
      | ok found ↦ (
        record r { reports = insert_entry (key_of found) (entry_of clock found) r.reports },
        ok (snapshot_from_entry clock (entry_of clock found) r.stale_after),
      )
    ]

    -- `report_resources`: the status and what the body says.
    unfoldable pub report_resources :
        Clock
        → ResourceReportRequest L
        → ResourceRegistry L
        → ResourceRegistry L × (ℕ × Result String (ResourceSnapshot L))
    unfolding report
    report_resources clock request r =
        let (r', answer) = report clock request r in
        (r', elim answer [ ok snapshot ↦ (200, ok snapshot) | err message ↦ (400, err message) ])

-- ===== src/Resources/Filed.antt =====
-- src/resources.rs: how reports are filed, and what holds of one that is found.
use fairlead.Base.{
  ℕ, ◌+◌, ◌-◌, ◌≤◌, Bool, false, String, Option, none, some, List, [], ◌∷◌, ◌≡◌, ◌⊎◌, inl, inr,
  refl, ap, sym, ◌∙◌, subst, string_eq, ltb, if◌then◌else◌, ok, unwrap_or, Bool-cases, Option-cases,
  Result-cases, string_beq_iff, arith,
}
use fairlead.Base.Text.{text_is_empty}
use fairlead.Workers.Types.{Clock}
use fairlead.Resources.{
  ResourceKey, ResourceEntry, ResourceReport, ResourceReportRequest, ResourceRegistry, same_key,
  get_entry, insert_entry, fresh_report, fresh_backend_report, validate_report, report, key_of,
  entry_of,
}

pub get-insert_entry :
    {L : Type 0} (k j : ResourceKey) (e : ResourceEntry L)
    (m : List (ResourceKey × ResourceEntry L))
    → get_entry j (insert_entry k e m) ≡ (if same_key k j then some e else get_entry j m)
unfolding get_entry insert_entry
get-insert_entry k j e [] = ground arith
get-insert_entry k j e ((i, old) ∷ m) = ground (
  arith,
  get-insert_entry k j e m,
  string_beq_iff i.node_id k.node_id,
  string_beq_iff i.backend_id k.backend_id,
  string_beq_iff i.node_id j.node_id,
  string_beq_iff i.backend_id j.backend_id,
  string_beq_iff k.node_id j.node_id,
  string_beq_iff k.backend_id j.backend_id,
)

module _ {L : Type 0} where
  -- What holds of a report that was accepted.
  pub record IsSound (r : ResourceReport L) : Type 0 where
    pub named : text_is_empty r.node_id ≡ false
    pub shared : r.available_vram_mb + r.reserved_vram_mb ≡ r.total_vram_mb

  validate_report-IsSound :
      (in_unit : L → Bool) (request : ResourceReportRequest L) (r : ResourceReport L)
      → validate_report in_unit request ≡ ok r
      → IsSound r
  unfolding validate_report
  validate_report-IsSound in_unit request r h = ground arith

  -- A report stands under its own name, and is sound.
  abbrev pub Filed : ResourceKey × ResourceEntry L → Type 0
  Filed (k, e) = (key_of e.report ≡ k) × IsSound e.report

  abbrev pub AllFiled : List (ResourceKey × ResourceEntry L) → Type 0
  AllFiled [] = Unit
  AllFiled (p ∷ m) = Filed p × AllFiled m

  insert_entry-AllFiled :
      (k : ResourceKey) (e : ResourceEntry L) (m : List (ResourceKey × ResourceEntry L))
      → Filed (k, e)
      → AllFiled m
      → AllFiled (insert_entry k e m)
  unfolding insert_entry
  insert_entry-AllFiled k e [] fits filed = (fits, tt)
  insert_entry-AllFiled k e ((j, old) ∷ m) fits filed = ground (
    arith,
    insert_entry-AllFiled k e m fits filed.1,
    string_beq_iff j.node_id k.node_id,
    string_beq_iff j.backend_id k.backend_id,
  )

  get_entry-Filed :
      (k : ResourceKey) (m : List (ResourceKey × ResourceEntry L)) (e : ResourceEntry L)
      → AllFiled m
      → get_entry k m ≡ some e
      → Filed (k, e)
  unfolding get_entry
  get_entry-Filed k [] e filed h = absurd (cc)
  get_entry-Filed k ((j, old) ∷ m) e filed h = ground (
    arith,
    get_entry-Filed k m e filed.1,
    string_beq_iff j.node_id k.node_id,
    string_beq_iff j.backend_id k.backend_id,
  )

  module _ (in_unit : L → Bool) where
    -- A registry after a history of reports, the latest first.
    abbrev pub after_reports :
        ResourceRegistry L → List (Clock × ResourceReportRequest L) → ResourceRegistry L
    after_reports r [] = r
    after_reports r ((clock, request) ∷ es) = (report in_unit clock request (after_reports r es)).0

    report-AllFiled :
        (clock : Clock) (request : ResourceReportRequest L) (r : ResourceRegistry L)
        → AllFiled r.reports
        → AllFiled (report in_unit clock request r).0.reports
    unfolding report
    report-AllFiled clock request r filed = elim (Result-cases (validate_report in_unit request)) [
      | inl (found, e) ↦
          rw (e, report)
            (insert_entry-AllFiled (key_of found) (entry_of clock found) r.reports
              (refl, validate_report-IsSound in_unit request found e) filed)
      | inr (message, e) ↦ rw (e, report) filed
    ]

    pub after_reports-AllFiled :
        (es : List (Clock × ResourceReportRequest L)) (r : ResourceRegistry L)
        → AllFiled r.reports
        → AllFiled (after_reports r es).reports
    after_reports-AllFiled [] r filed = filed
    after_reports-AllFiled ((clock, request) ∷ es) r filed =
        report-AllFiled clock request (after_reports r es) (after_reports-AllFiled es r filed)

    pub report-stale_after :
        (clock : Clock) (request : ResourceReportRequest L) (r : ResourceRegistry L)
        → (report in_unit clock request r).0.stale_after ≡ r.stale_after
    unfolding report
    report-stale_after clock request r = ground arith

  -- What is known of a report that counts for a backend.
  pub record Counts (r : ResourceRegistry L) (now : ℕ) (node_id backend_id : String)
      (found : ResourceReport L) : Type 0 where
    pub node : found.node_id ≡ node_id
    pub backend :
        (unwrap_or found.backend_id "" ≡ backend_id) ⊎ (unwrap_or found.backend_id "" ≡ "")
    pub entry : ResourceEntry L
    pub kept :
        (backend_id' : String) × (get_entry
            (record { node_id = node_id; backend_id = backend_id' })
            r.reports
          ≡ some entry)
    pub recent : now - entry.observed_at ≤ r.stale_after
    pub reported : entry.report ≡ found
    pub sound : found.available_vram_mb + found.reserved_vram_mb ≡ found.total_vram_mb

  fresh_report-Counts :
      (r : ResourceRegistry L) (now : ℕ) (node_id : String) (b : Option String)
      (found : ResourceReport L)
      → AllFiled r.reports
      → fresh_report now node_id b r ≡ some found
      → Counts r now node_id (unwrap_or b "") found
  unfolding fresh_report
  fresh_report-Counts r now node_id b found filed h =
      let k : ResourceKey = record { node_id = node_id; backend_id = unwrap_or b "" } in
      elim (Option-cases (get_entry k r.reports)) [
        | inl e ↦
            let out : fresh_report now node_id b r ≡ none = rw (e, fresh_report) refl in
            absurd (cc (out, h))
        | inr (entry, e) ↦ elim (Bool-cases (ltb r.stale_after (now - entry.observed_at))) [
          | inl old ↦
              let out : fresh_report now node_id b r ≡ none = rw (e, old, fresh_report) refl in
              absurd (cc (out, h))
          | inr new_ ↦
              let out : fresh_report now node_id b r ≡ some entry.report =
                rw (e, new_, fresh_report) refl in
              let same : entry.report ≡ found = cc (out, h) in
              let (key, sound) = get_entry-Filed k r.reports entry filed e in
              record {
                node = ap (λ x. x.node_id) (sym same) ∙ ap (λ x. x.node_id) key;
                backend =
                    inl
                      (ap (λ x. unwrap_or x.backend_id "") (sym same) ∙ ap (λ x. x.backend_id) key);
                entry = entry;
                kept = (unwrap_or b "", e);
                recent = ground arith;
                reported = same;
                sound =
                    subst (λ x. x.available_vram_mb + x.reserved_vram_mb ≡ x.total_vram_mb) same
                      sound.shared;
              }
        ]
      ]

  pub fresh_backend_report-Counts :
      (r : ResourceRegistry L) (now : ℕ) (node_id backend_id : String) (found : ResourceReport L)
      → AllFiled r.reports
      → fresh_backend_report now node_id backend_id r ≡ some found
      → Counts r now node_id backend_id found
  unfolding fresh_backend_report
  fresh_backend_report-Counts r now node_id backend_id found filed h =
      elim (Option-cases (fresh_report now node_id (some backend_id) r)) [
        | inr (own, e) ↦
            let out : fresh_backend_report now node_id backend_id r ≡ some own =
              rw (e, fresh_backend_report) refl in
            fresh_report-Counts r now node_id (some backend_id) found filed (e ∙ (sym out ∙ h))
        | inl e ↦
            let out : fresh_backend_report now node_id backend_id r
                ≡ fresh_report now node_id none r =
              rw (e, fresh_backend_report) refl in
            let shared = fresh_report-Counts r now node_id none found filed (sym out ∙ h) in
            record {
              node = shared.node;
              backend = elim shared.backend [ inl b ↦ inr b | inr b ↦ inr b ];
              entry = shared.entry;
              kept = shared.kept;
              recent = shared.recent;
              reported = shared.reported;
              sound = shared.sound;
            }
      ]

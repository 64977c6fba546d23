-- ===== src/Resources/Fresh.antt =====
-- src/resources.rs: which reports count, and what is in them.
use fairlead.Base.{
  ℕ, ◌+◌, ◌-◌, ◌≤◌, Bool, String, Option, none, some, List, [], ◌∷◌, ◌≡◌, ◌⊎◌, inl, inr, refl, ap,
  sym, ◌∙◌, subst, string_eq, ltb, if◌then◌else◌, Result, ok, err, unwrap_or, Bool-cases,
  Result-cases, arith,
}
use fairlead.Workers.Types.{Clock}
use fairlead.Resources.{
  ResourceKey, ResourceEntry, ResourceReport, ResourceReportRequest, ResourceRegistry, same_key,
  get_entry, insert_entry, fresh_report, fresh_backend_report, validate_report, report, key_of,
  entry_of, new_resources, ResourceSnapshot, snapshot_from_entry,
}
use fairlead.Resources.Filed.{
  get-insert_entry, after_reports, after_reports-AllFiled, report-stale_after,
  fresh_backend_report-Counts,
}

module _ {L : Type 0} where
  module _ (in_unit : L → Bool) where
    -- The report was made and accepted at this time.
    abbrev pub Reported : List (Clock × ResourceReportRequest L) → ResourceReport L → ℕ → Type 0
    Reported [] found observed_at = ⊥
    Reported ((clock, request) ∷ es) found observed_at =
        ((validate_report in_unit request ≡ ok found) × (clock.monotonic ≡ observed_at))
        ⊎ Reported es found observed_at

    after_reports-Reported :
        (es : List (Clock × ResourceReportRequest L)) (stale_after : ℕ) (k : ResourceKey)
        (entry : ResourceEntry L)
        → get_entry k (after_reports in_unit (new_resources stale_after) es).reports ≡ some entry
        → Reported es entry.report entry.observed_at
    unfolding report get_entry new_resources
    after_reports-Reported [] stale_after k entry h = absurd (cc h)
    after_reports-Reported ((clock, request) ∷ es) stale_after k entry h =
        let before = after_reports in_unit (new_resources stale_after) es in
        elim (Result-cases (validate_report in_unit request)) [
          | inr (message, e) ↦
              let same : (report in_unit clock request before).0.reports ≡ before.reports =
                rw (e, report) refl in
              inr (after_reports-Reported es stale_after k entry (ap (get_entry k) (sym same) ∙ h))
          | inl (found, e) ↦
              let added : (report in_unit clock request before).0.reports
                  ≡ insert_entry (key_of found) (entry_of clock found) before.reports =
                rw (e, report) refl in
              let look = get-insert_entry (key_of found) k (entry_of clock found) before.reports in
              let h' = sym look ∙ (ap (get_entry k) (sym added) ∙ h) in
              elim (Bool-cases (same_key (key_of found) k)) [
                | inl y ↦
                    let mine : entry_of clock found ≡ entry = ground (arith, h', y) in
                    inl (e ∙ ap ok (ap (λ x. x.report) mine), ap (λ x. x.observed_at) mine)
                | inr n ↦
                    inr (after_reports-Reported es stale_after k entry (ground (arith, h', n)))
              ]
        ]

    after_reports-stale_after :
        (es : List (Clock × ResourceReportRequest L)) (r : ResourceRegistry L)
        → (after_reports in_unit r es).stale_after ≡ r.stale_after
    after_reports-stale_after [] r = refl
    after_reports-stale_after ((clock, request) ∷ es) r =
        report-stale_after in_unit clock request (after_reports in_unit r es)
        ∙ after_reports-stale_after es r

    -- A report that counts at `now`, after these reports.
    pub record Current (es : List (Clock × ResourceReportRequest L)) (stale_after now : ℕ)
        (node_id backend_id : String) (found : ResourceReport L) : Type 0 where
      pub node : found.node_id ≡ node_id
      pub backend :
          (unwrap_or found.backend_id "" ≡ backend_id) ⊎ (unwrap_or found.backend_id "" ≡ "")
      pub observed_at : ℕ
      pub reported : Reported es found observed_at
      pub recent : now - observed_at ≤ stale_after
      pub sound : found.available_vram_mb + found.reserved_vram_mb ≡ found.total_vram_mb

  -- Whatever was reported to a new registry, with refused reports among it: a report that counts for a
  -- backend on a node is one of the accepted ones, was made no longer ago than `stale_after`, names that
  -- node, names that backend or none, and its available and reserved memory make up the total. The test of
  -- a load can be any.
  pub after_reports-Current :
      (in_unit : L → Bool) (es : List (Clock × ResourceReportRequest L)) (stale_after now : ℕ)
      (node_id backend_id : String) (found : ResourceReport L)
      → fresh_backend_report now node_id backend_id
          (after_reports in_unit (new_resources stale_after) es)
        ≡ some found
      → Current in_unit es stale_after now node_id backend_id found
  unfolding new_resources
  after_reports-Current in_unit es stale_after now node_id backend_id found h =
      let c =
        fresh_backend_report-Counts (after_reports in_unit (new_resources stale_after) es) now
          node_id backend_id found
          (after_reports-AllFiled in_unit es (new_resources stale_after) tt) h in
      let made =
        after_reports-Reported in_unit es stale_after
          (record { node_id = node_id; backend_id = c.kept.0 }) c.entry c.kept.1 in
      record {
        node = c.node;
        backend = c.backend;
        observed_at = c.entry.observed_at;
        reported = subst (λ x. Reported in_unit es x c.entry.observed_at) c.reported made;
        recent =
            omega
              (arith, c.recent, after_reports-stale_after in_unit es (new_resources stale_after));
        sound = c.sound;
      }

  -- What a report does: refused with a reason it changes nothing; accepted, it is what the registry
  -- answers for its node and backend until it is stale, and no other answer changes.
  pub data Reports (r : ResourceRegistry L) (clock : Clock)
      : ResourceRegistry L × Result String (ResourceSnapshot L) → Type 0 where
    refused : (message : String) → Reports r clock (r, err message)
    accepted :
        (r' : ResourceRegistry L) (snapshot : ResourceSnapshot L)
        → ((now : ℕ) (node_id : String) (b : Option String)
            → fresh_report now node_id b r' ≡ (
                if same_key
                  (key_of snapshot.report)
                  (record { node_id = node_id; backend_id = unwrap_or b "" })
                then (if ltb r.stale_after (now - clock.monotonic)
                    then none
                    else some snapshot.report)
                else fresh_report now node_id b r))
        → Reports r clock (r', ok snapshot)

  -- A report that is refused changes nothing. One that is accepted is the answer for its node and
  -- backend as long as it is not stale, in place of any earlier one, and every other answer stays.
  pub report-Reports :
      (in_unit : L → Bool) (r : ResourceRegistry L) (clock : Clock)
      (request : ResourceReportRequest L)
      → Reports r clock (report in_unit clock request r)
  unfolding report snapshot_from_entry fresh_report
  report-Reports in_unit r clock request = elim (Result-cases (validate_report in_unit request)) [
    | inr (message, e) ↦ rw (e, report) (Reports.refused message)
    | inl (found, e) ↦
        rw (e, report)
          (Reports.accepted _ _ (λ now node_id b.
            let k : ResourceKey = record { node_id = node_id; backend_id = unwrap_or b "" } in
            ground (arith, get-insert_entry (key_of found) k (entry_of clock found) r.reports)))
  ]

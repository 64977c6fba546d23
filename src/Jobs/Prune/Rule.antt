-- ===== src/Jobs/Prune/Rule.antt =====
-- One rule for the loop that chooses what to prune.
use fairlead.Base.{
  true, false, ℕ, ◌+◌, ◌<◌, String, some, List, [], ◌∷◌, ◌++◌, ◌≡◌, inl, inr, Bool-cases,
  Option-cases, leb, length, arith,
}
use fairlead.Base.Maps.{get}
use fairlead.Jobs.Types.{JobRecord, JobRegistryInner, JobRetentionPolicy}
use fairlead.Jobs.Callbacks.{has_pending_callback}
use fairlead.Jobs.Prune.{Removal, removal, is_due, select}

module _ {ℓ} {V : Type 0} (now : ℕ) (policy : JobRetentionPolicy) (s : JobRegistryInner V)
    (P : List Removal → Type ℓ)
    (choose : (id : String) (job : JobRecord V)
      → get id s.jobs ≡ some job
      → is_due now policy job ≡ true
      → has_pending_callback job ≡ false
      → (chosen : List Removal) → length chosen < policy.max_pruned_jobs
      → P chosen
      → P (chosen ++ removal job ∷ [])) where
  -- What each choice keeps holds of the choice as a whole.
  pub select-rule :
      (ids : List String) (chosen : List Removal) (waiting : ℕ)
      → P chosen
      → P (select now policy s ids chosen waiting).0
  unfolding select
  select-rule [] chosen waiting h = h
  select-rule (id ∷ ids) chosen waiting h =
      elim (Bool-cases (leb policy.max_pruned_jobs (length chosen))) [
        | inl full ↦ rw full h
        | inr room ↦ elim (Option-cases (get id s.jobs)) [
          | inl e ↦ rw (room, e, select) (select-rule ids chosen waiting h)
          | inr (job, at) ↦ elim (Bool-cases (is_due now policy job)) [
            | inr early ↦ rw (room, at, early, select) (select-rule ids chosen waiting h)
            | inl due ↦ elim (Bool-cases (has_pending_callback job)) [
              | inl waits ↦
                  rw (room, at, due, waits, select) (select-rule ids chosen (waiting + 1) h)
              | inr free ↦
                  rw (room, at, due, free, select)
                    (select-rule ids (chosen ++ removal job ∷ []) waiting
                      (choose id job at due free chosen (ground arith) h))
            ]
          ]
        ]
      ]

-- ===== src/Storage/Load/Records.antt =====
-- src/storage.rs: the jobs and keys that a load rebuilds from the rows of a save.
use fairlead.Base.{
  ℕ, ◌+◌, ◌<◌, Bool, true, false, String, none, some, List, [], ◌∷◌, ◌==◌, ◌≡◌, ◌∙◌, refl, sym, ap,
  subst, any, contains, All, string_eq, string_beq_iff, option_eq, option_beq_iff, Bool-cases,
  Option-cases, inl, inr, if◌then◌else◌, arith,
}
use fairlead.Base.Maps.{HashMap, Unique, get, insert, insert-Unique, get-insert, is_some, values}
use fairlead.Jobs.Types.{JobRecord, JobRegistryInner}
use fairlead.Jobs.Valid.{IsValid}
use fairlead.Storage.{JobRow}
use fairlead.Storage.Load.{job_of, loaded_jobs, loaded_keys}
use fairlead.Storage.Load.Rows.{Present, row_for, rows_from}

module _ {V : Type 0} (s : JobRegistryInner V) where
  -- The times of the jobs fit the columns.
  abbrev pub TimesFit : Type 0
  TimesFit =
      (id : String) (job : JobRecord V)
      → get id s.jobs ≡ some job
      → (job.created_at_unix_ms < 9223372036854775808)
        × (job.updated_at_unix_ms < 9223372036854775808)

  module _ (v : IsValid s) (fits : TimesFit) where
    job_of_row :
        (id : String) (job : JobRecord V) (n : ℕ)
        → get id s.jobs ≡ some job
        → job_of (row_for s job n) ≡ job
    job_of_row id job n at =
        let times = fits id job at in
        let valid = v.valid id job at in ground (arith, times.0, times.1, valid.limit, valid.used)

    pub get-loaded_jobs :
        (k : String) (ids : List String) (present : Present s ids) (n : ℕ)
        (m : HashMap (JobRecord V))
        → get k (loaded_jobs (rows_from s ids present n) m)
          ≡ (if contains ids k then get k s.jobs else get k m)
    unfolding loaded_jobs
    get-loaded_jobs k [] present n m = refl
    get-loaded_jobs k (id ∷ ids) present n m =
        let (job, at, same) = present.0 in
        let row = row_for s job n in
        let rest = get-loaded_jobs k ids present.1 (n + 1) (insert row.job.id (job_of row) m) in
        let here = get-insert job.id k (job_of row) m in
        let back = job_of_row id job n at in
        elim (Bool-cases (contains ids k)) [
          | inl there ↦ rest ∙ ground (arith, there)
          | inr gone ↦ elim (Bool-cases (id == k)) [
            | inl e ↦
                let same_k : id ≡ k = (string_beq_iff id k).0 e in
                let at_k : get k s.jobs ≡ some job =
                  subst (λ x. get x s.jobs ≡ some job) same_k at in
                let named : (job.id == k) ≡ true = (string_beq_iff job.id k).1 (same ∙ same_k) in
                rest ∙ rw (gone, e) (here ∙ rw named (ap some back ∙ sym at_k))
            | inr e ↦
                let named : (job.id == k) ≡ false = subst (λ x. (x == k) ≡ false) (sym same) e in
                rest ∙ rw (gone, e) (here ∙ rw named refl)
          ]
        ]

  pub loaded_jobs-Unique :
      (rows : List (JobRow V)) (m : HashMap (JobRecord V)) → Unique m → Unique (loaded_jobs rows m)
  unfolding loaded_jobs
  loaded_jobs-Unique [] m u = u
  loaded_jobs-Unique (row ∷ rows) m u =
      loaded_jobs-Unique rows (insert row.job.id (job_of row) m)
        (insert-Unique row.job.id (job_of row) m u)

values-All :
    {A : Type 0} (P : A → Type 0) (m : HashMap A)
    → Unique m
    → ((id : String) (a : A) → get id m ≡ some a → P a)
    → All P (values m)
unfolding get values
values-All P [] u all = tt
values-All P ((k, a) ∷ m) u all =
    let here : (k == k) ≡ true = (string_beq_iff k k).1 refl in
    (
      all k a (rw here refl),
      values-All P m u.1 (λ id b at. elim (Bool-cases (k == id)) [
        | inl e ↦
            let gone : get id m ≡ none =
              subst (λ x. get x m ≡ none) ((string_beq_iff k id).0 e) u.0 in
            absurd (cc (gone, at))
        | inr e ↦ all id b (rw e at)
      ]),
    )

values-any :
    {A : Type 0} (test : A → Bool) (m : HashMap A) (id : String) (a : A)
    → get id m ≡ some a
    → test a ≡ true
    → any test (values m) ≡ true
unfolding get values
values-any test [] id a at h = absurd (cc at)
values-any test ((k, b) ∷ m) id a at h = ground (arith, values-any test m id a)

module _ {V : Type 0} (s : JobRegistryInner V) (v : IsValid s) where
  -- Every key of the map is the registry's.
  abbrev Agrees : HashMap String → Type 0
  Agrees keys = (k id : String) → get k keys ≡ some id → get k s.idempotency_keys ≡ some id

  abbrev Known : JobRecord V → Type 0
  Known job = get job.id s.jobs ≡ some job

  abbrev next_keys : JobRecord V → HashMap String → HashMap String
  next_keys job keys = elim job.idempotency_key [ none ↦ keys | some key ↦ insert key job.id keys ]

  next_keys-Agrees :
      (job : JobRecord V) (keys : HashMap String)
      → Known job
      → Agrees keys
      → Agrees (next_keys job keys)
  next_keys-Agrees job keys known agrees k id h = elim (Option-cases job.idempotency_key) [
    | inl e ↦
        let out : next_keys job keys ≡ keys = rw e refl in agrees k id (ap (get k) (sym out) ∙ h)
    | inr (key, e) ↦
        let out : next_keys job keys ≡ insert key job.id keys = rw e refl in
        let at = ap (get k) (sym out) ∙ h in
        let owned = v.keys_known key job.id job known e in
        ground (arith, get-insert key k job.id keys, at, owned, agrees k id, string_beq_iff key k)
  ]

  loaded_keys-Agrees :
      (js : List (JobRecord V)) (keys : HashMap String)
      → All Known js
      → Agrees keys
      → Agrees (loaded_keys js keys)
  unfolding loaded_keys
  loaded_keys-Agrees [] keys known agrees = agrees
  loaded_keys-Agrees (job ∷ js) keys known agrees =
      loaded_keys-Agrees js (next_keys job keys) known.1 (next_keys-Agrees job keys known.0 agrees)

  -- A key once entered stays.
  next_keys-keeps :
      (job : JobRecord V) (keys : HashMap String) (k : String)
      → is_some (get k keys) ≡ true
      → is_some (get k (next_keys job keys)) ≡ true
  next_keys-keeps job keys k h = elim (Option-cases job.idempotency_key) [
    | inl e ↦ rw e h
    | inr (key, e) ↦ rw e (ground (arith, get-insert key k job.id keys))
  ]

  loaded_keys-keeps :
      (js : List (JobRecord V)) (keys : HashMap String) (k : String)
      → is_some (get k keys) ≡ true
      → is_some (get k (loaded_keys js keys)) ≡ true
  unfolding loaded_keys
  loaded_keys-keeps [] keys k h = h
  loaded_keys-keeps (job ∷ js) keys k h =
      loaded_keys-keeps js (next_keys job keys) k (next_keys-keeps job keys k h)

  loaded_keys-enters :
      (js : List (JobRecord V)) (keys : HashMap String) (k : String)
      → any (λ job. job.idempotency_key == some k) js ≡ true
      → is_some (get k (loaded_keys js keys)) ≡ true
  unfolding loaded_keys
  loaded_keys-enters [] keys k h = absurd (cc h)
  loaded_keys-enters (job ∷ js) keys k h = elim (Bool-cases (job.idempotency_key == some k)) [
    | inl e ↦
        let key = (option_beq_iff job.idempotency_key (some k)).0 e in
        let out : next_keys job keys ≡ insert k job.id keys = rw key refl in
        let entered : is_some (get k (next_keys job keys)) ≡ true =
          ap (λ x. is_some (get k x)) out
          ∙ ground (arith, get-insert k k job.id keys, string_beq_iff k k) in
        loaded_keys-keeps js (next_keys job keys) k entered
    | inr e ↦ loaded_keys-enters js (next_keys job keys) k (ground arith)
  ]

  -- The keys of the jobs are the keys of the registry.
  pub keys_again :
      (jobs : HashMap (JobRecord V))
      → Unique jobs
      → ((id : String) → get id jobs ≡ get id s.jobs)
      → (k : String) → get k (loaded_keys (values jobs) []) ≡ get k s.idempotency_keys
  unfolding get
  keys_again jobs unique same k =
      let known = values-All Known jobs unique (λ id job at.
        let there = sym (same id) ∙ at in
        subst (λ x. get x s.jobs ≡ some job) (sym (v.named id job there)) there) in
      let agrees = loaded_keys-Agrees (values jobs) [] known (λ k id h. absurd (cc h)) in
      elim (Option-cases (get k (loaded_keys (values jobs) []))) [
        | inr (id, e) ↦ e ∙ sym (agrees k id e)
        | inl e ↦ elim (Option-cases (get k s.idempotency_keys)) [
          | inl f ↦ e ∙ sym f
          | inr (id, f) ↦
              let (job, at, key) = v.keyed k id f in
              let entered = loaded_keys-enters (values jobs) [] k (
                values-any (λ j. j.idempotency_key == some k) jobs id job (same id ∙ at)
                  ((option_beq_iff job.idempotency_key (some k)).1 key)) in
              absurd (cc (e, entered))
        ]
      ]

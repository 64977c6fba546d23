-- ===== src/Storage/Load/Positions.antt =====
-- src/storage.rs: the queues that a load rebuilds from the saved positions.
use fairlead.Base.{
  ℕ, ◌+◌, ◌<◌, true, false, String, some, List, [], ◌∷◌, ◌++◌, ◌==◌, ◌≡◌, ◌⊎◌, ◌∙◌, refl, sym, ap,
  subst, contains, All, string_eq, string_beq_iff, Bool-cases, inl, inr, arith,
}
use fairlead.Base.Maps.{HashMap, get, insert, get-insert}
use fairlead.Config.{Priority, realtime, batch, background}
use fairlead.Jobs.Queues.{for_priority, push_back, set_priority}
use fairlead.Jobs.Types.{JobQueues}
use fairlead.Storage.{positions_from, queue_positions}
use fairlead.Storage.Load.{QueuedEntry, entry_le, fill_queues, stored_priority_rank}
use fairlead.Storage.Load.Sorted.{Before, Listed, Ordered}
use fairlead.Storage.Load.Rows.{DistinctIds}

abbrev pub entry_name : QueuedEntry → String
entry_name e = e.id

abbrev pub entry : Priority → ℕ → String → QueuedEntry
entry p n id = record { priority = p; position = n; id = id }

-- The entries of one queue, from a position on.
abbrev pub entries : Priority → ℕ → List String → List QueuedEntry
entries p n [] = []
entries p n (id ∷ ids) = entry p n id ∷ entries p (n + 1) ids

-- All queued entries in the order of service.
abbrev pub all_entries : JobQueues → List QueuedEntry
all_entries q =
    entries realtime 0 q.realtime ++ (entries batch 0 q.batch ++ entries background 0 q.background)

Before-entries :
    (p r : Priority) (m n : ℕ) (id : String) (ids : List String)
    → ((stored_priority_rank p < stored_priority_rank r) ⊎ ((p ≡ r) × (m < n)))
    → contains ids id ≡ false
    → All (Before entry_le entry_name (entry p m id)) (entries r n ids)
unfolding entry_le
Before-entries p r m n id [] less new_ = tt
Before-entries p r m n id (k ∷ ids) less new_ = (
  record {
    first = elim less [
      | inl x ↦ ground arith
      | inr x ↦ ground (arith, ap stored_priority_rank x.0)
    ];
    not_after = elim less [
      | inl x ↦ ground arith
      | inr x ↦ ground (arith, ap stored_priority_rank x.0)
    ];
    other = ground (arith, string_beq_iff id k, string_beq_iff k id);
  },
  Before-entries p r m (n + 1) id ids
      (elim less [ inl x ↦ inl x | inr x ↦ inr (x.0, omega (arith, x.1)) ]) (ground arith),
)

entries-Ordered :
    (p : Priority) (n : ℕ) (ids : List String)
    → DistinctIds ids
    → Ordered entry_le entry_name (entries p n ids)
entries-Ordered p n [] distinct = tt
entries-Ordered p n (id ∷ ids) distinct = (
  Before-entries p p n (n + 1) id ids (inr (refl, omega arith)) distinct.0,
  entries-Ordered p (n + 1) ids distinct.1,
)

-- No id of the first list is on the second.
abbrev pub Apart : List String → List String → Type 0
Apart [] ys = Unit
Apart (x ∷ xs) ys = (contains ys x ≡ false) × Apart xs ys

pub All-join :
    {A : Type 0} (P : A → Type 0) (xs ys : List A) → All P xs → All P ys → All P (xs ++ ys)
All-join P [] ys hx hy = hy
All-join P (x ∷ xs) ys hx hy = (hx.0, All-join P xs ys hx.1 hy)

entries-join :
    (p : Priority) (n : ℕ) (ids : List String) (ts : List QueuedEntry)
    → DistinctIds ids
    → Ordered entry_le entry_name ts
    → All (λ id. (m : ℕ) → All (Before entry_le entry_name (entry p m id)) ts) ids
    → Ordered entry_le entry_name (entries p n ids ++ ts)
entries-join p n [] ts distinct ordered cross = ordered
entries-join p n (id ∷ ids) ts distinct ordered cross = (
  All-join (Before entry_le entry_name (entry p n id)) (entries p (n + 1) ids) ts
      (Before-entries p p n (n + 1) id ids (inr (refl, omega arith)) distinct.0) (cross.0 n),
  entries-join p (n + 1) ids ts distinct.1 ordered cross.1,
)

cross_one :
    (p r : Priority) (ids ks : List String)
    → stored_priority_rank p < stored_priority_rank r
    → Apart ids ks
    → All (λ id. (m : ℕ) → All (Before entry_le entry_name (entry p m id)) (entries r 0 ks)) ids
cross_one p r [] ks less apart = tt
cross_one p r (id ∷ ids) ks less apart =
    ((λ m. Before-entries p r m 0 id ks (inl less) apart.0), cross_one p r ids ks less apart.1)

All-both :
    {A : Type 0} (P Q R : A → Type 0)
    → ((a : A) → P a → Q a → R a)
    → (xs : List A) → All P xs
    → All Q xs
    → All R xs
All-both P Q R f [] p q = tt
All-both P Q R f (x ∷ xs) p q = (f x p.0 q.0, All-both P Q R f xs p.1 q.1)

-- What the queues of a valid registry satisfy.
pub record Separate (q : JobQueues) : Type 0 where
  pub in_realtime : DistinctIds q.realtime
  pub in_batch : DistinctIds q.batch
  pub in_background : DistinctIds q.background
  pub realtime_batch : Apart q.realtime q.batch
  pub realtime_background : Apart q.realtime q.background
  pub batch_background : Apart q.batch q.background

pub all_entries-Ordered : (q : JobQueues) → Separate q → Ordered entry_le entry_name (all_entries q)
unfolding stored_priority_rank
all_entries-Ordered q apart =
    entries-join realtime 0 q.realtime
      (entries batch 0 q.batch ++ entries background 0 q.background) apart.in_realtime
      (entries-join batch 0 q.batch (entries background 0 q.background) apart.in_batch
        (entries-Ordered background 0 q.background apart.in_background)
        (cross_one batch background q.batch q.background (omega arith) apart.batch_background))
      (All-both _ _ _
        (λ id x y m.
          All-join (Before entry_le entry_name (entry realtime m id)) (entries batch 0 q.batch)
            (entries background 0 q.background) (x m) (y m))
        q.realtime (cross_one realtime batch q.realtime q.batch (omega arith) apart.realtime_batch)
        (cross_one realtime background q.realtime q.background (omega arith)
          apart.realtime_background))

abbrev Found : QueuedEntry → List QueuedEntry → Type 0
Found e ts = Listed entry_le entry_name e ts

positions_out :
    (ids : List String) (n : ℕ) (m : HashMap ℕ) (id : String)
    → contains ids id ≡ false
    → get id (positions_from n ids m) ≡ get id m
unfolding positions_from
positions_out [] n m id out = refl
positions_out (k ∷ ids) n m id out =
    positions_out ids (n + 1) (insert k n m) id (ground arith) ∙ ground (arith, get-insert k id n m)

positions_in :
    (p : Priority) (ids : List String) (n : ℕ) (m : HashMap ℕ) (id : String)
    → DistinctIds ids
    → contains ids id ≡ true
    → (k : ℕ) × (get id (positions_from n ids m) ≡ some k) × Found (entry p k id) (entries p n ids)
unfolding positions_from
positions_in p [] n m id distinct there = absurd (cc there)
positions_in p (x ∷ ids) n m id distinct there = elim (Bool-cases (x == id)) [
  | inl e ↦
      let same : x ≡ id = (string_beq_iff x id).0 e in
      let out : contains ids id ≡ false = subst (λ y. contains ids y ≡ false) same distinct.0 in
      (
        n,
        positions_out ids (n + 1) (insert x n m) id out ∙ ground (arith, get-insert x id n m),
        inl (ap (entry p n) same),
      )
  | inr e ↦
      let (k, at, found) = positions_in p ids (n + 1) (insert x n m) id distinct.1 (ground arith) in
      (k, at, inr found)
]

Found-left : (e : QueuedEntry) (xs ys : List QueuedEntry) → Found e xs → Found e (xs ++ ys)
Found-left e [] ys h = absurd h
Found-left e (x ∷ xs) ys (inl same) = inl same
Found-left e (x ∷ xs) ys (inr h) = inr (Found-left e xs ys h)

Found-right : (e : QueuedEntry) (xs ys : List QueuedEntry) → Found e ys → Found e (xs ++ ys)
Found-right e [] ys h = h
Found-right e (x ∷ xs) ys h = inr (Found-right e xs ys h)

Apart-out :
    (xs ys : List String) (id : String)
    → Apart xs ys
    → contains xs id ≡ true
    → contains ys id ≡ false
Apart-out [] ys id apart there = absurd (cc there)
Apart-out (x ∷ xs) ys id apart there = elim (Bool-cases (x == id)) [
  | inl e ↦ subst (λ y. contains ys y ≡ false) ((string_beq_iff x id).0 e) apart.0
  | inr e ↦ Apart-out xs ys id apart.1 (ground arith)
]

-- A queued id is found at the position that is saved for it.
pub queue_positions-Found :
    (p : Priority) (q : JobQueues) (id : String)
    → Separate q
    → contains (for_priority p q) id ≡ true
    → (k : ℕ) × (get id (queue_positions q) ≡ some k) × Found (entry p k id) (all_entries q)
unfolding queue_positions for_priority
queue_positions-Found background q id apart there =
    let (k, at, found) =
      positions_in background q.background 0
        (positions_from 0 q.batch (positions_from 0 q.realtime [])) id apart.in_background there in
    (
      k,
      at,
      Found-right (entry background k id) (entries realtime 0 q.realtime)
          (entries batch 0 q.batch ++ entries background 0 q.background)
          (Found-right (entry background k id) (entries batch 0 q.batch)
            (entries background 0 q.background) found),
    )
queue_positions-Found batch q id apart there =
    let (k, at, found) =
      positions_in batch q.batch 0 (positions_from 0 q.realtime []) id apart.in_batch there in
    (
      k,
      positions_out q.background 0 (positions_from 0 q.batch (positions_from 0 q.realtime [])) id
            (Apart-out q.batch q.background id apart.batch_background there)
          ∙ at,
      Found-right (entry batch k id) (entries realtime 0 q.realtime)
          (entries batch 0 q.batch ++ entries background 0 q.background)
          (Found-left (entry batch k id) (entries batch 0 q.batch)
            (entries background 0 q.background) found),
    )
queue_positions-Found realtime q id apart there =
    let (k, at, found) = positions_in realtime q.realtime 0 [] id apart.in_realtime there in
    (
      k,
      positions_out q.background 0 (positions_from 0 q.batch (positions_from 0 q.realtime [])) id
            (Apart-out q.realtime q.background id apart.realtime_background there)
          ∙ positions_out q.batch 0 (positions_from 0 q.realtime []) id
              (Apart-out q.realtime q.batch id apart.realtime_batch there)
          ∙ at,
      Found-left (entry realtime k id) (entries realtime 0 q.realtime)
          (entries batch 0 q.batch ++ entries background 0 q.background) found,
    )

append_one :
    (xs : List String) (y : String) (ys : List String) → (xs ++ y ∷ []) ++ ys ≡ xs ++ y ∷ ys
append_one [] y ys = refl
append_one (x ∷ xs) y ys = ap (λ zs. x ∷ zs) (append_one xs y ys)

append_nothing : (xs : List String) → xs ++ [] ≡ xs
append_nothing [] = refl
append_nothing (x ∷ xs) = ap (λ zs. x ∷ zs) (append_nothing xs)

set_same : (p : Priority) (q : JobQueues) → set_priority p (for_priority p q ++ []) q ≡ q
unfolding set_priority for_priority
set_same realtime q = ap (λ ids. record q { realtime = ids }) (append_nothing q.realtime)
set_same batch q = ap (λ ids. record q { batch = ids }) (append_nothing q.batch)
set_same background q = ap (λ ids. record q { background = ids }) (append_nothing q.background)

push_then :
    (p : Priority) (id : String) (ids : List String) (q : JobQueues)
    → set_priority p (for_priority p (push_back p id q) ++ ids) (push_back p id q)
      ≡ set_priority p (for_priority p q ++ id ∷ ids) q
unfolding set_priority for_priority push_back
push_then realtime id ids q = ap (λ xs. record q { realtime = xs }) (append_one q.realtime id ids)
push_then batch id ids q = ap (λ xs. record q { batch = xs }) (append_one q.batch id ids)
push_then background id ids q =
    ap (λ xs. record q { background = xs }) (append_one q.background id ids)

fill_one :
    (p : Priority) (ids : List String) (n : ℕ) (ts : List QueuedEntry) (q : JobQueues)
    → fill_queues (entries p n ids ++ ts) q
      ≡ fill_queues ts (set_priority p (for_priority p q ++ ids) q)
unfolding fill_queues
fill_one p [] n ts q = ap (fill_queues ts) (sym (set_same p q))
fill_one p (id ∷ ids) n ts q =
    fill_one p ids (n + 1) ts (push_back p id q) ∙ ap (fill_queues ts) (push_then p id ids q)

append_nil_entries : (ts : List QueuedEntry) → ts ≡ ts ++ []
append_nil_entries [] = refl
append_nil_entries (t ∷ ts) = ap (λ us. t ∷ us) (append_nil_entries ts)

-- Filled in the order of service, the queues are as they were.
pub fill-all_entries :
    (q : JobQueues)
    → fill_queues (all_entries q) (record { realtime = []; batch = []; background = [] }) ≡ q
unfolding fill_queues set_priority for_priority
fill-all_entries q =
    let start : JobQueues = record { realtime = []; batch = []; background = [] } in
    let one : JobQueues = record start { realtime = q.realtime } in
    let two : JobQueues = record one { batch = q.batch } in
    fill_one realtime q.realtime 0 (entries batch 0 q.batch ++ entries background 0 q.background)
      start
    ∙ fill_one batch q.batch 0 (entries background 0 q.background) one
    ∙ ap (λ ts. fill_queues ts two) (append_nil_entries (entries background 0 q.background))
    ∙ fill_one background q.background 0 [] two

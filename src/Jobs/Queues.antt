-- ===== src/Jobs/Queues.antt =====
-- src/jobs.rs, `JobQueues`: one FIFO queue of job ids for each priority.
use fairlead.Base.{
  ◌+◌, String, List, [], ◌∷◌, ◌++◌, ◌==◌, ◌≡◌, ◌&&◌, string_eq, erase, count, contains,
  count-append, count-erase, if◌then◌else◌, arith,
}
use fairlead.Config.{Priority, realtime, batch, background, priority_eq}
use fairlead.Jobs.Types.{JobQueues}

-- `for_priority_mut`, read.
unfoldable pub for_priority : Priority → JobQueues → List String
for_priority realtime q = q.realtime
for_priority batch q = q.batch
for_priority background q = q.background

-- `for_priority_mut`, written.
unfoldable pub set_priority : Priority → List String → JobQueues → JobQueues
set_priority realtime ids q = record q { realtime = ids }
set_priority batch ids q = record q { batch = ids }
set_priority background ids q = record q { background = ids }

-- The queues in the order in which they are served.
unfoldable pub iter : JobQueues → List (Priority × List String)
iter q = (realtime, q.realtime) ∷ (batch, q.batch) ∷ (background, q.background) ∷ []

unfoldable pub push_back : Priority → String → JobQueues → JobQueues
unfolding for_priority set_priority
push_back p id q = set_priority p (for_priority p q ++ id ∷ []) q

-- Only the first position that holds the id is taken out.
unfoldable pub remove : Priority → String → JobQueues → JobQueues
unfolding for_priority set_priority
remove p id q = set_priority p (erase id (for_priority p q)) q

pub count-push_back :
    (p r : Priority) (id k : String) (q : JobQueues)
    → count k (for_priority r (push_back p id q))
      ≡ count k (for_priority r q) + (if (p == r) && (id == k) then 1 else 0)
unfolding push_back
count-push_back p r id k q = ground (arith, count-append k (for_priority p q) (id ∷ []))

pub count-remove :
    (p r : Priority) (id k : String) (q : JobQueues)
    → count k (for_priority r (remove p id q))
        + (if (p == r) && ((id == k) && contains (for_priority p q) id) then 1 else 0)
      ≡ count k (for_priority r q)
unfolding remove
count-remove p r id k q = ground (arith, count-erase id k (for_priority p q))

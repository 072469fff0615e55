-- ===== src/Kademlia/Eviction.antt =====
-- `UpdateWithPing` of kademlia/routingtable.go: the eviction of silent contacts. Each function
-- below is what one thread does while it holds a lock; between two of them others may run.
pub mod Safe
pub mod Steps
pub mod Arrivals
pub mod Reachable
use d7024e_lab.Kademlia.Id
use d7024e_lab.Kademlia.Bucket
use d7024e_lab.Kademlia.RoutingTable
use d7024e_lab.Prelude.{
  Bool, List, Option, Panics, [], drop, false, if◌then◌else◌, leb, length, none, some, true, ℕ,
  ◌++◌, ◌>>=◌, ◌||◌, ◌∷◌, ◌≡◌,
}
use d7024e_lab.Kademlia.Bucket.{Bucket, get_oldest_contact}
use d7024e_lab.Kademlia.Contact.{Contact, IsTyped, key}
use d7024e_lab.Kademlia.Id.{KademliaId}
use d7024e_lab.Kademlia.RoutingTable.{RoutingTable, get_bucket_index, update}

abbrev pub replacement_cache_size : ℕ
replacement_cache_size = 10

-- Where a thread stands: in `UpdateWithPing` between its two locks, with the candidate and the
-- oldest contact; or in the goroutine of a probe, for the bucket with the index given.
pub data Thread : Type 0 where
  enqueuing : ℕ → Contact → Contact → Thread
  probing : ℕ → Contact → Thread
  evicted : ℕ → Thread
  replacing : ℕ → Contact → Thread
  finishing : ℕ → Thread

is_me : RoutingTable → KademliaId → Bool
is_me rt id = elim rt.me.id [ none ↦ false | some mine ↦ Id.equals id mine ]

-- What is left to do when the bucket is full: nothing if it has no oldest contact, or there is no
-- pinger.
wait_for : ℕ → Contact → Bool → Option Contact → List Thread
wait_for i candidate has_pinger none = []
wait_for i candidate has_pinger (some oldest) =
    if has_pinger then enqueuing i candidate oldest ∷ [] else []

settle : RoutingTable → ℕ → Contact → Bool → Bucket.Bucket × Bool → RoutingTable × List Thread
unfolding wait_for
settle rt i candidate has_pinger (b, true) = (record rt { buckets = update rt.buckets i b }, [])
settle rt i candidate has_pinger (b, false) =
    (rt, wait_for i candidate has_pinger (get_oldest_contact (rt.buckets i)))

-- The part of `UpdateWithPing` under `mu`, with the checks before it.
unfoldable pub try_add : RoutingTable → Contact → Bool → Panics (RoutingTable × List Thread)
unfolding is_me settle
try_add rt candidate has_pinger = elim candidate.id [
  | none ↦ some (rt, [])
  | some id ↦ elim (is_me rt id) [
    | true ↦ some (rt, [])
    | false ↦ do
      i ← get_bucket_index rt candidate.id
      r ← Bucket.add_contact candidate (rt.buckets i)
      some (settle rt i candidate has_pinger r)
  ]
]

in_cache : KademliaId → List Contact → Bool
in_cache id [] = false
in_cache id (c ∷ cs) = elim c.id [
  | none ↦ in_cache id cs
  | some k ↦ Id.equals k id || in_cache id cs
]

-- The replacement queue is first in, first out, and bounded: a full queue drops its head.
unfoldable pub enqueue : Contact → List Contact → List Contact
unfolding in_cache
enqueue candidate queue =
    if in_cache (key candidate) queue
    then queue
    else if leb replacement_cache_size (length queue)
    then drop 1 queue ++ candidate ∷ []
    else queue ++ candidate ∷ []

-- The part of `UpdateWithPing` under `evictMu`: a probe starts only if none is active for the
-- bucket.
unfoldable pub queue_candidate : RoutingTable → ℕ → Contact → Contact → RoutingTable × List Thread
unfolding enqueue
queue_candidate rt i candidate oldest =
    let queued = record rt {
      replacements = update rt.replacements i (enqueue candidate (rt.replacements i));
    } in
    if rt.in_flight i
    then (queued, [])
    else (record queued { in_flight = update rt.in_flight i true }, probing i oldest ∷ [])

-- The goroutine pops the first replacement.
unfoldable pub pop_replacement : RoutingTable → ℕ → RoutingTable × List Thread
pop_replacement rt i = elim (rt.replacements i) [
  | [] ↦ (rt, finishing i ∷ [])
  | c ∷ cs ↦ (record rt { replacements = update rt.replacements i cs }, replacing i c ∷ [])
]

-- The next locked part of a thread, and what of the thread is left. `answered` is the result of
-- the pinger, which a probing thread has called by then.
unfoldable pub advance : Bool → Thread → RoutingTable → Panics (RoutingTable × List Thread)
unfolding queue_candidate pop_replacement
advance answered (enqueuing i candidate oldest) rt = some (queue_candidate rt i candidate oldest)
advance true (probing i target) rt = do
  r ← Bucket.add_contact target (rt.buckets i)
  some (record rt { buckets = update rt.buckets i r.0 }, finishing i ∷ [])
advance false (probing i target) rt = do
  r ← RoutingTable.remove_contact rt target
  some (r.0, evicted i ∷ [])
advance answered (evicted i) rt = some (pop_replacement rt i)
advance answered (replacing i c) rt = do
  rt' ← RoutingTable.add_contact rt c
  some (rt', finishing i ∷ [])
advance answered (finishing i) rt = some (record rt { in_flight = update rt.in_flight i false }, [])

-- The table that the threads share, and the threads on their way.
pub record System : Type 0 where
  pub rt : RoutingTable
  pub threads : List Thread

-- Any thread may go next; a new call may arrive, and a contact may be recorded or removed.
pub data Step (s : System) : System → Type 0 where
  arrive :
      (candidate : Contact) (has_pinger : Bool) (r : RoutingTable × List Thread)
      → IsTyped candidate
      → try_add s.rt candidate has_pinger ≡ some r
      → Step s (record { rt = r.0; threads = r.1 ++ s.threads })
  learn :
      (c : Contact) (rt' : RoutingTable)
      → IsTyped c
      → RoutingTable.add_contact s.rt c ≡ some rt'
      → Step s (record { rt = rt'; threads = s.threads })
  forget :
      (c : Contact) (r : RoutingTable × Bool)
      → IsTyped c
      → RoutingTable.remove_contact s.rt c ≡ some r
      → Step s (record { rt = r.0; threads = s.threads })
  move :
      (answered : Bool) (before : List Thread) (th : Thread) (after : List Thread)
      (r : RoutingTable × List Thread)
      → s.threads ≡ before ++ th ∷ after
      → advance answered th s.rt ≡ some r
      → Step s (record { rt = r.0; threads = before ++ (r.1 ++ after) })

pub data Reach (s : System) : System → Type 0 where
  here : Reach s s
  next : {t u : System} → Reach s t → Step t u → Reach s u

abbrev pub start : RoutingTable → System
start rt = record { rt = rt; threads = [] }

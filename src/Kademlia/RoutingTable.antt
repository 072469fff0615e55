-- ===== src/Kademlia/RoutingTable.antt =====
-- kademlia/routingtable.go: 256 buckets by the length of the prefix shared with the local node.
-- The eviction probes are in the child `Eviction`.
pub mod Index
pub mod Valid
pub mod Sort
pub mod Listed
pub mod Rounds
pub mod Closest
use d7024e_lab.Kademlia.Id
use d7024e_lab.Kademlia.Contact
use d7024e_lab.Kademlia.Bucket
use d7024e_lab.Prelude.{
  Bool, List, Option, Panics, [], false, if◌then◌else◌, leb, length, ltb, min, none, some, suc,
  take, true, zero, ℕ, ◌%◌, ◌&&◌, ◌*◌, ◌++◌, ◌+◌, ◌-◌, ◌/◌, ◌==◌, ◌>>=◌, ◌^◌, ◌||◌, ◌∷◌,
}
use d7024e_lab.Kademlia.Bucket.{Bucket, len, new_bucket}
use d7024e_lab.Kademlia.Contact.{Contact}
use d7024e_lab.Kademlia.Id.{KademliaId}

-- A bucket or a queue for every index. The Go array has 256 buckets, and a missing key of a Go
-- map reads as the empty queue.
abbrev pub update {ℓ} : {A : Type ℓ} → (ℕ → A) → ℕ → A → ℕ → A
update f i v j = if i == j then v else f j

-- `in_flight` and `replacements` are the fields under `evictMu`.
pub record RoutingTable : Type 0 where
  pub me : Contact
  pub buckets : ℕ → Bucket
  pub in_flight : ℕ → Bool
  pub replacements : ℕ → List Contact

-- `IDLength * 8`
abbrev pub bucket_count : ℕ
bucket_count = 256

unfoldable pub new_routing_table : Contact → RoutingTable
new_routing_table me = record {
  me = me;
  buckets = λ _. new_bucket;
  in_flight = λ _. false;
  replacements = λ _. [];
}

-- The inner loop of `GetBucketIndex`, with `n = 8 - j` rounds to go: bit `j` of a byte is bit
-- `n - 1` from below.
unfoldable pub scan_byte : ℕ → ℕ → Option ℕ
scan_byte zero x = none
scan_byte (suc n) x = let rest = scan_byte n x in if x / 2 ^ n % 2 == 0 then rest else some (7 - n)

-- The outer loop, from byte `i`.
unfoldable pub scan_bytes : ℕ → KademliaId → Option ℕ
unfolding scan_byte
scan_bytes i [] = none
scan_bytes i (x ∷ xs) =
    let rest = scan_bytes (suc i) xs in
    elim (scan_byte 8 x) [ some j ↦ some (i * 8 + j) | none ↦ rest ]

unfoldable pub index_of_distance : KademliaId → ℕ
unfolding scan_bytes
index_of_distance d = elim (scan_bytes 0 d) [ some i ↦ i | none ↦ 255 ]

unfoldable pub get_bucket_index : RoutingTable → Option KademliaId → Panics ℕ
unfolding index_of_distance
get_bucket_index rt id = do
  own ← id
  mine ← rt.me.id
  some (index_of_distance (Id.calc_distance own mine))

unfoldable pub add_known : RoutingTable → Contact → Panics RoutingTable
add_known rt contact = do
  i ← get_bucket_index rt contact.id
  r ← Bucket.add_contact contact (rt.buckets i)
  some (record rt { buckets = update rt.buckets i r.0 })

-- A contact with no identifier is ignored.
unfoldable pub add_contact : RoutingTable → Contact → Panics RoutingTable
unfolding add_known
add_contact rt contact = elim contact.id [ none ↦ some rt | some _ ↦ add_known rt contact ]

unfoldable pub remove_known : RoutingTable → Contact → Panics (RoutingTable × Bool)
remove_known rt contact = do
  i ← get_bucket_index rt contact.id
  let r = Bucket.remove_contact contact (rt.buckets i)
  some (record rt { buckets = update rt.buckets i r.0 }, r.1)

unfoldable pub remove_contact : RoutingTable → Contact → Panics (RoutingTable × Bool)
unfolding remove_known
remove_contact rt contact = elim contact.id [
  | none ↦ some (rt, false)
  | some _ ↦ remove_known rt contact
]

-- The loop of `FindClosestContacts`: in round `i` the buckets `i` below and `i` above, until there
-- are enough candidates or no bucket is left. `n` counts the rounds to go; round 256 has no bucket.
pub side : RoutingTable → Option KademliaId → Bool → ℕ → Panics (List Contact)
side rt target true j = Bucket.get_contact_and_calc_distance (rt.buckets j) target
side rt target false j = some []

unfoldable pub gather :
    ℕ → RoutingTable → Option KademliaId → ℕ → ℕ → ℕ → List Contact → Panics (List Contact)
unfolding side
gather zero rt target count b i candidates = some candidates
gather (suc n) rt target count b i candidates =
    elim ((leb i b || ltb (b + i) bucket_count) && ltb (length candidates) count) [
      | true ↦ do
        below ← side rt target (leb i b) (b - i)
        above ← side rt target (ltb (b + i) bucket_count) (b + i)
        gather n rt target count b (suc i) ((candidates ++ below) ++ above)
      | false ↦ some candidates
    ]

-- `Less` of contacts whose distance is filled in.
unfoldable pub closer : Contact → Contact → Bool
closer a b = elim (Contact.less a b) [ some r ↦ r | none ↦ false ]

-- `sort.Sort` by distance. Only the order of contacts at one distance is the library's choice.
unfoldable pub insert_sorted : Contact → List Contact → List Contact
unfolding closer
insert_sorted c [] = c ∷ []
insert_sorted c (d ∷ ds) = if closer d c then d ∷ insert_sorted c ds else c ∷ d ∷ ds

unfoldable pub sort : List Contact → List Contact
unfolding insert_sorted
sort [] = []
sort (c ∷ cs) = insert_sorted c (sort cs)

unfoldable pub find_closest_contacts : RoutingTable → Option KademliaId → ℕ → Panics (List Contact)
unfolding gather sort
find_closest_contacts rt target count = do
  b ← get_bucket_index rt target
  first ← Bucket.get_contact_and_calc_distance (rt.buckets b) target
  candidates ← gather bucket_count rt target count b 1 first
  let sorted = sort candidates
  some (take (min count (length sorted)) sorted)

collect : ℕ → (ℕ → Bucket) → ℕ → List Contact
collect zero f i = []
collect (suc n) f i = f i ++ collect n f (suc i)

unfoldable pub get_all_contacts : RoutingTable → List Contact
unfolding collect
get_all_contacts rt = collect bucket_count rt.buckets 0

-- The index of the last bucket below `n` that holds a contact; `none` is the result -1.
unfoldable pub last_non_empty : ℕ → (ℕ → Bucket) → Option ℕ
last_non_empty zero f = none
last_non_empty (suc n) f =
    let rest = last_non_empty n f in if ltb 0 (len (f n)) then some n else rest

unfoldable pub get_closest_non_empty_bucket_index : RoutingTable → Option ℕ
unfolding last_non_empty
get_closest_non_empty_bucket_index rt = last_non_empty bucket_count rt.buckets

-- `index` is a Go `int`; its callers pass none below 0.
unfoldable pub is_bucket_empty : RoutingTable → ℕ → Bool
is_bucket_empty rt index = if leb bucket_count index then true else len (rt.buckets index) == 0

-- A copy of the queue, which is empty for a missing key.
unfoldable pub get_replacement_candidates : RoutingTable → ℕ → List Contact
get_replacement_candidates rt index = rt.replacements index

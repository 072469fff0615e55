-- ===== src/Kademlia/Bucket.antt =====
-- kademlia/bucket.go: a bucket is its list of contacts, most recently seen first.
pub mod Recency
pub mod Kept
use d7024e_lab.Kademlia.Contact
use d7024e_lab.Prelude.{
  Bool, List, Option, Panics, [], false, get_elem?, if◌then◌else◌, length, ltb, none, some, suc,
  true, zero, ℕ, ◌>>=◌, ◌∷◌,
}
use d7024e_lab.Kademlia.Contact.{Contact}
use d7024e_lab.Kademlia.Id.{KademliaId, equals}

abbrev pub Bucket : Type 0
Bucket = List Contact

-- `bucketSize` of kademlia/routingtable.go.
abbrev pub bucket_size : ℕ
bucket_size = 10

unfoldable pub new_bucket : Bucket
new_bucket = []

-- The place of the last match: a match further on replaces the one found.
later : Bool → Option ℕ → Option ℕ
later found (some i) = some (suc i)
later true none = some 0
later false none = none

-- The loop of `AddContact`. Both identifiers are dereferenced at every element.
unfoldable pub find_element : Option KademliaId → Bucket → Panics (Option ℕ)
unfolding later
find_element id [] = some none
find_element id (c ∷ cs) = do
  own ← id
  node_id ← c.id
  rest ← find_element id cs
  some (later (equals own node_id) rest)

unfoldable pub remove_at : ℕ → Bucket → Bucket
remove_at i [] = []
remove_at zero (c ∷ cs) = cs
remove_at (suc i) (c ∷ cs) = c ∷ remove_at i cs

-- `list.MoveToFront`
unfoldable pub move_to_front : ℕ → Bucket → Bucket
unfolding remove_at
move_to_front i b = elim (get_elem? b i) [ none ↦ b | some c ↦ c ∷ remove_at i b ]

unfoldable pub place : Contact → Bucket → Option ℕ → Bucket × Bool
unfolding move_to_front
place contact b none = if ltb (length b) bucket_size then (contact ∷ b, true) else (b, false)
place contact b (some i) = (move_to_front i b, true)

unfoldable pub add_contact : Contact → Bucket → Panics (Bucket × Bool)
unfolding find_element place
add_contact contact b = do element ← find_element contact.id b; some (place contact b element)

matches : KademliaId → Option KademliaId → Bool
matches id none = false
matches id (some node_id) = equals id node_id

-- The loop of `RemoveContact`: the first match goes.
unfoldable pub remove_first : KademliaId → Bucket → Bucket × Bool
unfolding matches
remove_first id [] = ([], false)
remove_first id (c ∷ cs) =
    let (rest, removed) = remove_first id cs in
    if matches id c.id then (cs, true) else (c ∷ rest, removed)

unfoldable pub remove_contact : Contact → Bucket → Bucket × Bool
unfolding remove_first
remove_contact contact b = elim contact.id [ none ↦ (b, false) | some id ↦ remove_first id b ]

unfoldable pub get_oldest_contact : Bucket → Option Contact
get_oldest_contact [] = none
get_oldest_contact (c ∷ []) = some c
get_oldest_contact (c ∷ d ∷ cs) = get_oldest_contact (d ∷ cs)

unfoldable pub get_contact_and_calc_distance : Bucket → Option KademliaId → Panics (List Contact)
get_contact_and_calc_distance [] target = some []
get_contact_and_calc_distance (c ∷ cs) target = do
  contact ← Contact.calc_distance c target
  contacts ← get_contact_and_calc_distance cs target
  some (contact ∷ contacts)

unfoldable pub len : Bucket → ℕ
len b = length b

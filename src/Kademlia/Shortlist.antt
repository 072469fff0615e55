-- ===== src/Kademlia/Shortlist.antt =====
-- kademlia/shortlist.go: the contacts that a lookup has found, by the hex form of their identifier,
-- and what came of asking them. Go iterates the map in any order; the sort makes up for it.
pub mod Kept
pub mod Top
pub mod Nearest
pub mod Chosen
pub mod Marks
use d7024e_lab.Kademlia.Id
use d7024e_lab.Kademlia.Contact
use d7024e_lab.Prelude.{
  Bool, List, Option, Panics, [], false, if◌then◌else◌, length, map, min, none, some, suc, take,
  true, zero, ℕ, ◌>>=◌, ◌||◌, ◌∷◌,
}
use d7024e_lab.Kademlia.Contact.{Contact}
use d7024e_lab.Kademlia.Id.{KademliaId}
use d7024e_lab.Kademlia.RoutingTable.{closer}
use d7024e_lab.Kademlia.RoutingTable.Listed.{measured}
use d7024e_lab.Prelude.Bytes.{Bytes, bytes_eq}
use d7024e_lab.Prelude.Bytes.Dict.{Dict, has, insert, lookup}

pub data CandidateStatus : Type 0 where
  unqueried queried unresponsive : CandidateStatus

pub record Candidate : Type 0 where
  pub contact : Contact.Contact
  pub status : CandidateStatus

pub record Shortlist : Type 0 where
  pub target : Option KademliaId
  pub me_id : Option KademliaId
  pub candidates : Dict Candidate

unfoldable pub new_shortlist : Option KademliaId → Option KademliaId → Shortlist
new_shortlist target me_id = record { target = target; me_id = me_id; candidates = [] }

-- `s.meID != nil && c.ID.Equals(s.meID)`
unfoldable pub is_own : Option KademliaId → KademliaId → Bool
is_own none id = false
is_own (some mine) id = Id.equals id mine

-- The rest of the loop's body: the distance is filled in, and the candidate recorded.
unfoldable pub put_candidate : Shortlist → Bytes → Contact.Contact → Panics Shortlist
put_candidate s k c = do
  measured ← Contact.calc_distance c s.target
  some (record s {
    candidates = insert k (record { contact = measured; status = unqueried }) s.candidates;
  })

-- One round of the loop of `Add`.
unfoldable pub add_one : Shortlist → Contact.Contact → Panics Shortlist
unfolding is_own put_candidate
add_one s c = elim c.id [
  | none ↦ some s
  | some id ↦
      if is_own s.me_id id || has (Id.string id) s.candidates
      then some s
      else put_candidate s (Id.string id) c
]

unfoldable pub add : Shortlist → List Contact.Contact → Panics Shortlist
unfolding add_one
add s [] = some s
add s (c ∷ cs) = do s' ← add_one s c; add s' cs

unfoldable pub set_status : CandidateStatus → Bytes → Dict Candidate → Dict Candidate
set_status st k [] = []
set_status st k ((j, c) ∷ m) =
    let rest = set_status st k m in
    if bytes_eq j k then (j, record c { status = st }) ∷ m else (j, c) ∷ rest

unfoldable pub mark : CandidateStatus → Shortlist → Option KademliaId → Shortlist
unfolding set_status
mark st s none = s
mark st s (some id) = record s { candidates = set_status st (Id.string id) s.candidates }

unfoldable pub mark_queried : Shortlist → Option KademliaId → Shortlist
unfolding mark
mark_queried s id = mark queried s id

unfoldable pub mark_unresponsive : Shortlist → Option KademliaId → Shortlist
unfolding mark
mark_unresponsive s id = mark unresponsive s id

abbrev pub is_unqueried : CandidateStatus → Bool
is_unqueried unqueried = true
is_unqueried _ = false

abbrev pub is_queried : CandidateStatus → Bool
is_queried queried = true
is_queried _ = false

abbrev pub is_active : CandidateStatus → Bool
is_active unresponsive = false
is_active _ = true

-- The candidates with a status.
unfoldable pub select : (CandidateStatus → Bool) → Dict Candidate → List Candidate
select p [] = []
select p ((k, c) ∷ m) = let rest = select p m in if p c.status then c ∷ rest else rest

-- `sort.Slice` by distance.
unfoldable pub insert_candidate : Candidate → List Candidate → List Candidate
insert_candidate c [] = c ∷ []
insert_candidate c (d ∷ ds) =
    let rest = insert_candidate c ds in if closer d.contact c.contact then d ∷ rest else c ∷ d ∷ ds

unfoldable pub sort_candidates : List Candidate → List Candidate
unfolding insert_candidate
sort_candidates [] = []
sort_candidates (c ∷ cs) = insert_candidate c (sort_candidates cs)

unfoldable pub get_active_candidates : Shortlist → List Candidate
unfolding select sort_candidates
get_active_candidates s = sort_candidates (select is_active s.candidates)

-- The loop of `GetClosestUnqueried`: `room` contacts may still be added.
unfoldable pub take_unqueried : ℕ → List Candidate → List Contact.Contact
take_unqueried zero cs = []
take_unqueried (suc room) [] = []
take_unqueried (suc room) (c ∷ cs) =
    let found = take_unqueried room cs in
    let passed = take_unqueried (suc room) cs in
    if is_unqueried c.status then c.contact ∷ found else passed

unfoldable pub get_closest_unqueried : Shortlist → ℕ → ℕ → List Contact.Contact
unfolding get_active_candidates take_unqueried
get_closest_unqueried s count within_k =
    take_unqueried count (take within_k (get_active_candidates s))

unfoldable pub any_unqueried : List Candidate → Bool
any_unqueried [] = false
any_unqueried (c ∷ cs) = is_unqueried c.status || any_unqueried cs

unfoldable pub has_unqueried_in_top_k : Shortlist → ℕ → Bool
unfolding get_active_candidates any_unqueried
has_unqueried_in_top_k s k = any_unqueried (take k (get_active_candidates s))

unfoldable pub get_closest_queried : Shortlist → ℕ → List Contact.Contact
unfolding select sort_candidates
get_closest_queried s k =
    let sorted = sort_candidates (select is_queried s.candidates) in
    map (λ c. c.contact) (take (min k (length sorted)) sorted)

unfoldable pub get_candidate : Shortlist → Option KademliaId → Option Candidate
get_candidate s none = none
get_candidate s (some id) = lookup (Id.string id) s.candidates

unfoldable pub len : Shortlist → ℕ
len s = length s.candidates

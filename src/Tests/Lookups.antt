-- ===== src/Tests/Lookups.antt =====
-- Lookups: the properties in a network of the nodes 0 and 5, which know of no other.
use d7024e_lab.Kademlia.Id
use d7024e_lab.Kademlia.Lookup.Valid
use d7024e_lab.Kademlia.RoutingTable
use d7024e_lab.Prelude.{
  All, Bool-cases, List, [], ap, arith, false, inl, inr, refl, some, subst, ◌<◌, ◌==◌, ◌∷◌, ◌≡◌,
}
use d7024e_lab.Kademlia.Bucket.{bucket_size, new_bucket}
use d7024e_lab.Kademlia.Bucket.Recency.{stored, touch, without}
use d7024e_lab.Kademlia.Contact.{Contact}
use d7024e_lab.Kademlia.Id.{IsId, KademliaId}
use d7024e_lab.Kademlia.Lookup.{Network, Search, iterate}
use d7024e_lab.Kademlia.Lookup.Answers.{IsConfined}
use d7024e_lab.Kademlia.Lookup.Rounds.{iterate_ends, pending, pending-length}
use d7024e_lab.Kademlia.Lookup.Valid.{Covers, IsNamed}
use d7024e_lab.Kademlia.RoutingTable.{RoutingTable, new_routing_table}
use d7024e_lab.Kademlia.RoutingTable.Valid.{after_add, home}
use d7024e_lab.Kademlia.Shortlist.{has_unqueried_in_top_k}
use d7024e_lab.Prelude.Bytes.{Bytes}
use d7024e_lab.Tests.Data.{empty_table, one_table, one_table-IsValid, peer, small, small-IsId}
use d7024e_lab.Tests.Shortlists.{with_peer, with_peer-IsValid}

abbrev pub names : List Bytes
names = Id.string (small 5) ∷ []

abbrev pub quiet : Network
quiet = record { send_find_contact_message = λ n t c. some []; arrival = λ n i. i }

pub quiet-IsConfined : (t : KademliaId) → IsConfined names quiet t
unfolding IsConfined
quiet-IsConfined t n c contacts e =
    let p : Path (List Contact) [] contacts = cc in subst (All (IsNamed names)) p tt

five-IsNamed : IsNamed names (peer 5)
five-IsNamed = record {
  typed = record {
    id_typed = λ k e. subst IsId (let p : small 5 ≡ k = cc in p) (small-IsId 5 (omega arith));
  };
  named = λ k e. inl (let p : small 5 ≡ k = cc in ap Id.string p);
}

pub one_table-Covers : Covers names one_table
unfolding Covers after_add touch stored without new_routing_table new_bucket
one_table-Covers i = elim (Bool-cases (home empty_table (peer 5) == i)) [
  | inl e ↦ rw e (five-IsNamed, tt)
  | inr e ↦ rw e tt
]

abbrev search : Search
search = record { table = one_table; shortlist = with_peer }

search-IsValid : Valid.IsValid names (small 9) search
search-IsValid = record {
  table_valid = one_table-IsValid;
  shortlist_valid = with_peer-IsValid;
  all_named = (inl refl, tt);
  covered = one_table-Covers;
}

search-pending : pending names with_peer.candidates < 2
search-pending = omega (arith, pending-length names with_peer.candidates)

iterate_ends_example :
    (q' : Search) × (iterate (some (small 0)) quiet (small 9) 2 3 0 search ≡ some (some q'))
    × Valid.IsValid names (small 9) q'
    × (has_unqueried_in_top_k q'.shortlist bucket_size ≡ false)
iterate_ends_example =
    iterate_ends names (small 9) (some (small 0)) quiet (quiet-IsConfined (small 9)) 2 2 0 search
      search-IsValid search-pending

-- ===== src/Tests/Joins.antt =====
-- Joining a network of the nodes 0 and 5, which know of no other.
use d7024e_lab.Kademlia.Id
use d7024e_lab.Kademlia.RoutingTable
use d7024e_lab.Kademlia.RoutingTable.Valid
use d7024e_lab.Prelude.{Option, arith, false, inl, refl, some, ℕ, ◌<◌, ◌≡◌, ◌≤◌}
use d7024e_lab.Kademlia.Bucket.{new_bucket}
use d7024e_lab.Kademlia.Contact.{key}
use d7024e_lab.Kademlia.Id.{IsId, KademliaId}
use d7024e_lab.Kademlia.Join.{generate_random_id_for_bucket, join, joined}
use d7024e_lab.Kademlia.Join.Ends.{join_lem}
use d7024e_lab.Kademlia.Join.Random.{generate_random_id_for_bucket_lem}
use d7024e_lab.Kademlia.Lookup.{Network}
use d7024e_lab.Kademlia.Lookup.Valid.{Covers, IsPeer}
use d7024e_lab.Kademlia.RoutingTable.{
  RoutingTable, bucket_count, index_of_distance, new_routing_table,
}
use d7024e_lab.Tests.Data.{empty_table, empty_table-IsValid, peer, peer-IsKnown, small, small-IsId}
use d7024e_lab.Tests.Lookups.{names, quiet, quiet-IsConfined}

-- Every random number is 1.
abbrev ones : ℕ → ℕ
ones n = 1

generate_random_id_for_bucket_lem_example :
    IsId (generate_random_id_for_bucket (some (small 0)) ones 9)
    × (9 < bucket_count
        → index_of_distance
            (Id.calc_distance (generate_random_id_for_bucket (some (small 0)) ones 9) (small 0))
          ≡ 9)
    × (bucket_count ≤ 9
        → generate_random_id_for_bucket (some (small 0)) ones 9 ≡ Id.new_random_kademlia_id ones)
generate_random_id_for_bucket_lem_example =
    generate_random_id_for_bucket_lem (small 0) ones 9 (small-IsId 0 (omega arith))

abbrev quiet_network : KademliaId → Option Network
quiet_network t = some quiet

pub empty_table-Covers : Covers names empty_table
unfolding Covers new_routing_table new_bucket
empty_table-Covers i = tt

pub five-IsPeer : IsPeer names (peer 5)
five-IsPeer = record { known = peer-IsKnown 5 (omega arith); named = inl refl }

five-other : Id.equals (key (peer 5)) (small 0) ≡ false
unfolding Id.equals
five-other = refl

join_lem_example :
    (table' : RoutingTable.RoutingTable) × (join quiet_network
        (λ i. ones)
        2
        3
        (some (small 0))
        (some empty_table)
        (peer 5)
      ≡ some (some (joined table')))
    × Valid.IsValid table'
    × Covers names table'
join_lem_example =
    join_lem names (λ t. quiet) quiet-IsConfined (λ i. ones) 2 2 (omega arith) (small 0)
      (small-IsId 0 (omega arith)) empty_table (peer 5) empty_table-IsValid empty_table-Covers
      five-IsPeer five-other

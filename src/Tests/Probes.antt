-- ===== src/Tests/Probes.antt =====
-- Eviction probes: the properties at concrete states.
use d7024e_lab.Kademlia.Bucket
use d7024e_lab.Kademlia.Eviction
use d7024e_lab.Kademlia.Eviction.Safe
use d7024e_lab.Kademlia.Id
use d7024e_lab.Prelude.{List, [], arith, refl, some, subst, true, ℕ, ◌<◌, ◌∷◌, ◌≡◌}
use d7024e_lab.Kademlia.Bucket.{Bucket, new_bucket}
use d7024e_lab.Kademlia.Bucket.Recency.{stored, touch}
use d7024e_lab.Kademlia.Contact.{IsTyped}
use d7024e_lab.Kademlia.Eviction.{Thread, enqueuing}
use d7024e_lab.Kademlia.Eviction.Reachable.{IsSound-start, Reach-IsSound, advance_runs}
use d7024e_lab.Kademlia.Eviction.Safe.{Keeps, probe_of, probes}
use d7024e_lab.Kademlia.Id.{IsId}
use d7024e_lab.Kademlia.RoutingTable.{
  RoutingTable, get_bucket_index, index_of_distance, new_routing_table,
}
use d7024e_lab.Kademlia.RoutingTable.Valid.{after_add, home}
use d7024e_lab.Tests.Data.{
  empty_table, empty_table-IsValid, one_table, peer, peer-IsKnown, small, small-IsId,
}

peer_arrives : Eviction.try_add empty_table (peer 5) true ≡ some (one_table, [])
unfolding Eviction.try_add new_routing_table after_add touch stored get_bucket_index
    index_of_distance Id.calc_distance Id.equals Bucket.add_contact new_bucket
peer_arrives = refl

-- A caller that waits to queue its candidate.
abbrev waiting : Eviction.System
waiting = record { rt = empty_table; threads = enqueuing 253 (peer 7) (peer 5) ∷ [] }

home_of_peer : home empty_table (peer 5) ≡ 253
unfolding index_of_distance Id.calc_distance new_routing_table
home_of_peer = refl

waiting-IsSound : Safe.IsSound waiting
unfolding new_routing_table probes probe_of
waiting-IsSound = record {
  table = empty_table-IsValid;
  queues = record { bounded = λ i. omega arith; known = λ i. tt };
  good = ((peer-IsKnown 7 (omega arith), (peer-IsKnown 5 (omega arith), home_of_peer)), tt);
  one_probe = λ j. refl;
}

advance_runs_example :
    (r : RoutingTable × List Thread) × (Eviction.advance true
        (enqueuing 253 (peer 7) (peer 5))
        empty_table
      ≡ some r)
    × Keeps empty_table (λ j. probe_of j (enqueuing 253 (peer 7) (peer 5))) r
advance_runs_example =
    advance_runs waiting waiting-IsSound true [] (enqueuing 253 (peer 7) (peer 5)) [] refl

peer-IsTyped : (n : ℕ) → n < 256 → IsTyped (peer n)
peer-IsTyped n h = record {
  id_typed = λ k e. subst IsId (let p : small n ≡ k = cc in p) (small-IsId n h);
}

Reach-IsSound_example : Safe.IsSound (record { rt = one_table; threads = [] })
Reach-IsSound_example = Reach-IsSound (IsSound-start (peer 0) (peer-IsKnown 0 (omega arith))) (
    Eviction.next Eviction.here
      (Eviction.arrive (peer 5) true (one_table, []) (peer-IsTyped 5 (omega arith)) peer_arrives))

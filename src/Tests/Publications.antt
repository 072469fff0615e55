-- ===== src/Tests/Publications.antt =====
-- Publication and replication at node 0, in a network of the nodes 0 and 5, which know of no other.
use d7024e_lab.Kademlia.DataStore
use d7024e_lab.Kademlia.RoutingTable
use d7024e_lab.Kademlia.RoutingTable.Valid
use d7024e_lab.Prelude.{All, List, Option, [], arith, refl, some, ℕ, ◌∷◌, ◌≡◌}
use d7024e_lab.Kademlia.DataLookup.{DataNetwork, Retrieval, lookup_latest_pointer}
use d7024e_lab.Kademlia.DataStore.{DataStore}
use d7024e_lab.Kademlia.Id.{IsId, KademliaId}
use d7024e_lab.Kademlia.Lookup.{Network}
use d7024e_lab.Kademlia.Lookup.Valid.{Covers}
use d7024e_lab.Kademlia.Publish.{
  StoreMessage, replicate_all, store_latest_pointer_force, store_with_key,
}
use d7024e_lab.Kademlia.Publish.Pointers.{
  store_latest_pointer_force-lookup_latest_pointer, with_pointer,
}
use d7024e_lab.Kademlia.Publish.Sent.{AllDelivered, IsBroadcast, node_of}
use d7024e_lab.Kademlia.Publish.Stored.{StoreOutcome, replicate_all_lem, store_with_key_lem}
use d7024e_lab.Kademlia.RoutingTable.{RoutingTable}
use d7024e_lab.Prelude.Bytes.{bytes_eq}
use d7024e_lab.Prelude.Bytes.Text.{to_lower, trim_right, trim_space}
use d7024e_lab.Registry.Domain.{
  latest_pointer_dht_key_bytes, latest_pointer_key_string, normalize_domain,
}
use d7024e_lab.Registry.Outcome.{ok}
use d7024e_lab.Registry.Record.{dht_key_bytes, validate_pointer}
use d7024e_lab.Tests.Chains.{toy_crypto, toy_json, toy_pointer}
use d7024e_lab.Tests.Data.{one_table, one_table-IsValid, peer, small}
use d7024e_lab.Tests.Lookups.{names, one_table-Covers, quiet, quiet-IsConfined}
use d7024e_lab.Tests.Retrievals.{own_store, seven, seven-IsId, seven_key-IsPlain, with_seven}

abbrev quiet_at : KademliaId → Network
quiet_at t = quiet

store_with_key_lem_example :
    StoreOutcome toy_crypto toy_json quiet_at 2 3 names
      (some (small 0))
      own_store
      seven
      (7 ∷ [])
      one_table
      (store_with_key
        (some quiet_at)
        2
        3
        toy_crypto
        toy_json
        (node_of (some (small 0)) one_table (some own_store))
        (some seven)
        (7 ∷ []))
store_with_key_lem_example =
    store_with_key_lem toy_crypto toy_json names quiet_at quiet-IsConfined (some (small 0)) 2 2
      (omega arith) own_store one_table seven 7 [] one_table-IsValid one_table-Covers seven-IsId
      (seven_key-IsPlain (7 ∷ []))

seven_keys-IsId : All IsId (DataStore.get_all_keys with_seven)
unfolding DataStore.get_all_keys
seven_keys-IsId = (seven-IsId, tt)

replicate_all_lem_example :
    (table' : RoutingTable.RoutingTable) × (rounds : List (List StoreMessage)) × (replicate_all
        (some quiet_at)
        2
        3
        (node_of (some (small 0)) one_table (some with_seven))
      ≡ some (node_of (some (small 0)) table' (some with_seven), rounds))
    × Valid.IsValid table'
    × Covers names table'
    × AllDelivered quiet_at 2 3
        (some (small 0))
        with_seven
        (DataStore.get_all_keys with_seven)
        one_table
        table'
        rounds
replicate_all_lem_example =
    replicate_all_lem toy_crypto toy_json names quiet_at quiet-IsConfined (some (small 0)) 2 2
      (omega arith) with_seven one_table one_table-IsValid one_table-Covers seven_keys-IsId

toy_key-IsId : IsId (dht_key_bytes toy_crypto toy_json toy_pointer)
unfolding dht_key_bytes latest_pointer_dht_key_bytes latest_pointer_key_string normalize_domain
    trim_right to_lower trim_space
toy_key-IsId = record { size = refl; is_bytes = omega arith }

toy_pointer_is_read :
    toy_json.unmarshal_pointer (toy_json.marshal_pointer toy_pointer) ≡ some toy_pointer
unfolding bytes_eq
toy_pointer_is_read = refl

store_latest_pointer_force-lookup_latest_pointer_example :
    IsBroadcast quiet_at 2 3 names
      (some (small 0))
      (with_pointer toy_crypto toy_json own_store toy_pointer)
      (dht_key_bytes toy_crypto toy_json toy_pointer)
      (2 ∷ [])
      one_table
      (store_latest_pointer_force
        (some quiet_at)
        2
        3
        toy_crypto
        toy_json
        (node_of (some (small 0)) one_table (some own_store))
        (some toy_pointer))
    × (validate_pointer toy_pointer ≡ ok tt
        → (network : Option DataNetwork) (rounds width : ℕ)
          (later : Option RoutingTable.RoutingTable)
        → (r : Retrieval) × (lookup_latest_pointer toy_crypto toy_json
              (peer 0)
              (some (with_pointer toy_crypto toy_json own_store toy_pointer))
              network
              rounds
              width
              later
              toy_pointer.domain
              toy_pointer.package_name
            ≡ some (r, ok (toy_pointer, peer 0))))
store_latest_pointer_force-lookup_latest_pointer_example =
    store_latest_pointer_force-lookup_latest_pointer toy_crypto toy_json names quiet_at
      quiet-IsConfined (peer 0) 2 2 (omega arith) own_store one_table toy_pointer 2 []
      one_table-IsValid one_table-Covers toy_key-IsId toy_pointer_is_read refl

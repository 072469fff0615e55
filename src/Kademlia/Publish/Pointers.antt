-- ===== src/Kademlia/Publish/Pointers.antt =====
-- `StoreLatestPointerForce` and then `LookupLatestPointer` of kademlia/kademlia.go: neither asks the
-- store to validate the pointer.
use d7024e_lab.Kademlia.RoutingTable.Valid
use d7024e_lab.Kademlia.RoutingTable
use d7024e_lab.Kademlia.DataStore
use d7024e_lab.Prelude.{List, Option, length, refl, some, suc, ℕ, ◌<◌, ◌∷◌, ◌≡◌}
use d7024e_lab.Kademlia.Contact.{Contact}
use d7024e_lab.Kademlia.DataLookup.{
  DataNetwork, Retrieval, get_local, lookup_data_by_id, lookup_latest_pointer, parse_answer,
  retrieved,
}
use d7024e_lab.Kademlia.DataStore.{DataStore, store}
use d7024e_lab.Kademlia.Id.{IsId, KademliaId}
use d7024e_lab.Kademlia.Lookup.{Network}
use d7024e_lab.Kademlia.Lookup.Answers.{IsConfined}
use d7024e_lab.Kademlia.Lookup.Valid.{Covers}
use d7024e_lab.Kademlia.Publish.{store_latest_pointer_force}
use d7024e_lab.Kademlia.Publish.Sent.{IsBroadcast, node_of}
use d7024e_lab.Kademlia.Publish.Stored.{store_with_key_force_lem}
use d7024e_lab.Kademlia.RoutingTable.{RoutingTable}
use d7024e_lab.Prelude.Bytes.{Bytes, bytes_eq_self}
use d7024e_lab.Prelude.Bytes.Dict.{insert, lookup-insert}
use d7024e_lab.Registry.Crypto.{Crypto}
use d7024e_lab.Registry.Outcome.{ok}
use d7024e_lab.Registry.Record.{
  Json, LatestPointer, dht_key_bytes, parse_latest_pointer, validate_pointer,
}

-- The store with the text of the pointer under its key.
abbrev pub with_pointer : Crypto → Json → DataStore.DataStore → LatestPointer → DataStore.DataStore
with_pointer cr js ds lp = record ds {
  entries = insert (dht_key_bytes cr js lp) (js.marshal_pointer lp) ds.entries;
}

module _ (cr : Crypto) (js : Json) (names : List Bytes) (net : KademliaId → Network)
    (confined : (t : KademliaId) → IsConfined names (net t) t) (me : Contact) (fuel alpha : ℕ)
    (enough : length names < fuel) where
  lookup_stored :
      (kept : DataStore.DataStore) (lp : LatestPointer) (network : Option DataNetwork)
      (rounds width : ℕ) (table : Option RoutingTable.RoutingTable)
      → validate_pointer lp ≡ ok tt
      → js.unmarshal_pointer (js.marshal_pointer lp) ≡ some lp
      → DataStore.get kept (dht_key_bytes cr js lp) ≡ some (js.marshal_pointer lp)
      → (r : Retrieval) × (lookup_latest_pointer cr js me
            (some kept)
            network
            rounds
            width
            table
            lp.domain
            lp.package_name
          ≡ some (r, ok (lp, me)))
  unfolding lookup_latest_pointer lookup_data_by_id get_local dht_key_bytes parse_answer
      parse_latest_pointer
  lookup_stored kept lp network rounds width table v u g = (
    record { table = table; store = some kept; answer = retrieved (js.marshal_pointer lp) me },
    rw (lookup_latest_pointer, lookup_data_by_id, g, parse_answer, parse_latest_pointer, u, v) refl,
  )

  -- A node with a store and a valid routing table, in a network that tells of finitely many named
  -- nodes only, stores by force a latest pointer whose text is not empty and is read back: the call
  -- returns without an error, the text goes under the pointer's key into the store and to every
  -- contact that the lookup of the key gives, but to the node itself, and to no other. If the pointer
  -- is valid, a later lookup of the package at this node gives that very pointer, from the node
  -- itself, whatever the network is then.
  pub store_latest_pointer_force-lookup_latest_pointer :
      (ds : DataStore.DataStore) (table : RoutingTable.RoutingTable) (lp : LatestPointer) (b : ℕ)
      (bs : Bytes)
      → Valid.IsValid table
      → Covers names table
      → IsId (dht_key_bytes cr js lp)
      → js.unmarshal_pointer (js.marshal_pointer lp) ≡ some lp
      → js.marshal_pointer lp ≡ b ∷ bs
      → IsBroadcast net fuel
          (suc alpha)
          names
          me.id
          (with_pointer cr js ds lp)
          (dht_key_bytes cr js lp)
          (js.marshal_pointer lp)
          table
          (store_latest_pointer_force
            (some net)
            fuel
            (suc alpha)
            cr
            js
            (node_of me.id table (some ds))
            (some lp))
        × (validate_pointer lp ≡ ok tt
            → (network : Option DataNetwork) (rounds width : ℕ)
              (later : Option RoutingTable.RoutingTable)
            → (r : Retrieval) × (lookup_latest_pointer cr js me
                  (some (with_pointer cr js ds lp))
                  network
                  rounds
                  width
                  later
                  lp.domain
                  lp.package_name
                ≡ some (r, ok (lp, me))))
  unfolding store_latest_pointer_force DataStore.get
  store_latest_pointer_force-lookup_latest_pointer ds table lp b bs v k i u m = (
    rw (store_latest_pointer_force, m)
        (store_with_key_force_lem cr js names net confined me.id fuel alpha enough ds table
          (dht_key_bytes cr js lp) b bs v k i),
    λ valid network rounds width later.
        lookup_stored (with_pointer cr js ds lp) lp network rounds width later valid u (
          rw
            (
              lookup-insert (dht_key_bytes cr js lp) (dht_key_bytes cr js lp)
                  (js.marshal_pointer lp) ds.entries,
              bytes_eq_self (dht_key_bytes cr js lp),
            )
            refl),
  )

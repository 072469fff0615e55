-- ===== src/Kademlia/Publish.antt =====
-- Values that a node puts into the network, of kademlia/kademlia.go: `Store`, the keyed stores, the
-- latest pointers, and `Replicate`. A store message is put on record when it is sent; its error is
-- dropped, as in the code. A result is `none` for a panic, for fuel that ran
-- out, and for a store that comes to look up a record at this node (`node_store`).
pub mod Sent
pub mod Stored
pub mod Pointers
use d7024e_lab.Kademlia.Id
use d7024e_lab.Kademlia.RoutingTable
use d7024e_lab.Kademlia.DataStore
use d7024e_lab.Prelude.{Bool, List, Option, Panics, [], false, if◌then◌else◌, none, some, ℕ, ◌∷◌}
use d7024e_lab.Kademlia.Contact.{Contact}
use d7024e_lab.Kademlia.DataStore.{DataStore}
use d7024e_lab.Kademlia.DataStore.Wired.{node_store}
use d7024e_lab.Kademlia.Id.{KademliaId}
use d7024e_lab.Kademlia.Lookup.{Network, lookup_contact_by_id}
use d7024e_lab.Kademlia.RoutingTable.{RoutingTable}
use d7024e_lab.Prelude.Bytes.{Bytes, bytes_eq}
use d7024e_lab.Registry.Crypto.{Crypto}
use d7024e_lab.Registry.Outcome.{Result, err, failure, ok, unauthorized}
use d7024e_lab.Registry.Record.{Json, LatestPointer, dht_key_bytes, validate_pointer}

-- The fields of `Kademlia` that change, and the node's identifier.
pub record Node : Type 0 where
  pub me_id : Option KademliaId
  pub table : Option RoutingTable.RoutingTable
  pub data_store : Option DataStore.DataStore

-- `SendStoreMessage(&c, key, data)`
pub record StoreMessage : Type 0 where
  pub receiver : Contact
  pub key : KademliaId
  pub data' : Bytes

-- `kademlia.Me.ID != nil && contact.ID != nil && contact.ID.Equals(kademlia.Me.ID)`
unfoldable pub is_me : Option KademliaId → Option KademliaId → Bool
is_me none id = false
is_me (some me_id) none = false
is_me (some me_id) (some id) = Id.equals id me_id

-- The messages to the closest nodes.
unfoldable pub send_all : Option KademliaId → KademliaId → Bytes → List Contact → List StoreMessage
unfolding is_me
send_all me_id key data' [] = []
send_all me_id key data' (c ∷ cs) =
    let rest = send_all me_id key data' cs in
    if is_me me_id c.id then rest else record { receiver = c; key = key; data' = data' } ∷ rest

-- What was sent after a lookup, and the routing table that it left.
unfoldable pub send_after :
    Node
    → KademliaId
    → Bytes
    → Option (Panics (Option RoutingTable.RoutingTable × List Contact))
    → Option (Node × List StoreMessage)
unfolding send_all
send_after node key data' none = none
send_after node key data' (some none) = none
send_after node key data' (some (some (table, closest))) =
    some (record node { table = table }, send_all node.me_id key data' closest)

-- The value goes into the local store, where there is one.
unfoldable pub store_local :
    Crypto
    → Json
    → Option DataStore.DataStore
    → KademliaId
    → Bytes
    → Option (Option DataStore.DataStore × Result (Unit {0}))
unfolding node_store
store_local cr js none key data' = some (none, ok tt)
store_local cr js (some ds) key data' = elim (node_store cr js ds key data') [
  | none ↦ none
  | some (ds', r) ↦ some (some ds', r)
]

unfoldable pub force_local :
    Option DataStore.DataStore → KademliaId → Bytes → Option DataStore.DataStore
force_local none key data' = none
force_local (some ds) key data' = some (DataStore.store_unchecked ds key data')

abbrev pub sent_ok :
    Option (Node × List StoreMessage) → Option (Node × List StoreMessage × Result (Unit {0}))
sent_ok none = none
sent_ok (some (node, sent)) = some (node, sent, ok tt)

abbrev pub with_answer {ℓ} :
    {A : Type ℓ}
    → A
    → Option (Node × List StoreMessage × Result (Unit {0}))
    → Option (Node × List StoreMessage × Result A)
with_answer a none = none
with_answer a (some (node, sent, err e)) = some (node, sent, err e)
with_answer a (some (node, sent, ok done)) = some (node, sent, ok a)

-- The tests of a pointer before it is stored.
unfoldable pub check_signed : Option LatestPointer → Result LatestPointer
check_signed none = err failure
check_signed (some lp) = elim (validate_pointer lp) [
  | err e ↦ err e
  | ok done ↦ if bytes_eq lp.signature [] then err unauthorized else ok lp
]

-- Lookups of a node run with `fuel`, each in the network of its target.
module _ (network : Option (KademliaId → Network)) (fuel alpha : ℕ) where
  -- `LookupContact`, with a network and a routing table.
  unfoldable pub send_to_closest :
      Node → KademliaId → Bytes → (KademliaId → Network) → Option (Node × List StoreMessage)
  unfolding send_after
  send_to_closest node key data' net =
      send_after node key data'
        (lookup_contact_by_id node.me_id (some (net key)) fuel alpha node.table (some key))

  unfoldable pub broadcast : Node → KademliaId → Bytes → Option (Node × List StoreMessage)
  unfolding send_to_closest
  broadcast node key data' = elim network [
    | none ↦ some (node, [])
    | some net ↦ elim node.table [
      | none ↦ some (node, [])
      | some table ↦ send_to_closest node key data' net
    ]
  ]

  module _ (cr : Crypto) (js : Json) where
    -- A value that the local store rejects is not sent.
    unfoldable pub store_at :
        Node → KademliaId → Bytes → Option (Node × List StoreMessage × Result (Unit {0}))
    unfolding broadcast store_local
    store_at node key data' = elim (store_local cr js node.data_store key data') [
      | none ↦ none
      | some (ds, err e) ↦ some (record node { data_store = ds }, [], err e)
      | some (ds, ok done) ↦ sent_ok (broadcast (record node { data_store = ds }) key data')
    ]

    -- `StoreWithKey`: a nil key and an empty value are refused.
    unfoldable pub store_with_key :
        Node → Option KademliaId → Bytes → Option (Node × List StoreMessage × Result (Unit {0}))
    unfolding store_at
    store_with_key node none data' = some (node, [], err failure)
    store_with_key node (some key) [] = some (node, [], err failure)
    store_with_key node (some key) (b ∷ bs) = store_at node key (b ∷ bs)

    -- `Store`, which returns the key.
    unfoldable pub store_data : Node → Bytes → Option (Node × List StoreMessage × Result KademliaId)
    unfolding store_with_key
    store_data node [] = some (node, [], err failure)
    store_data node (b ∷ bs) =
        let key = Id.new_kademlia_id_from_data cr.sha256 (b ∷ bs) in
        with_answer key (store_with_key node (some key) (b ∷ bs))

    unfoldable pub store_latest_pointer :
        Node → Option LatestPointer → Option (Node × List StoreMessage × Result (Unit {0}))
    unfolding store_with_key check_signed
    store_latest_pointer node lp = elim (check_signed lp) [
      | err e ↦ some (node, [], err e)
      | ok valid ↦ store_with_key node (some (dht_key_bytes cr js valid)) (js.marshal_pointer valid)
    ]

    unfoldable pub store_with_key_force :
        Node → Option KademliaId → Bytes → Option (Node × List StoreMessage × Result (Unit {0}))
    unfolding broadcast force_local
    store_with_key_force node none data' = some (node, [], err failure)
    store_with_key_force node (some key) [] = some (node, [], err failure)
    store_with_key_force node (some key) (b ∷ bs) = sent_ok (
        broadcast (record node { data_store = force_local node.data_store key (b ∷ bs) }) key
          (b ∷ bs))

    unfoldable pub store_latest_pointer_force :
        Node → Option LatestPointer → Option (Node × List StoreMessage × Result (Unit {0}))
    unfolding store_with_key_force
    store_latest_pointer_force node none = some (node, [], err failure)
    store_latest_pointer_force node (some lp) =
        store_with_key_force node (some (dht_key_bytes cr js lp)) (js.marshal_pointer lp)

  -- The loop of `Replicate` over the keys: the messages of every key that has a value.
  unfoldable pub replicate_keys :
      (KademliaId → Network)
      → DataStore.DataStore
      → Node
      → List KademliaId
      → Option (Node × List (List StoreMessage))
  unfolding send_to_closest
  replicate_keys net ds node [] = some (node, [])
  replicate_keys net ds node (key ∷ keys) = elim (DataStore.get ds key) [
    | none ↦ replicate_keys net ds node keys
    | some value ↦ elim (send_to_closest node key value net) [
      | none ↦ none
      | some (node', sent) ↦ elim (replicate_keys net ds node' keys) [
        | none ↦ none
        | some (node'', rest) ↦ some (node'', sent ∷ rest)
      ]
    ]
  ]

  -- Without a store, a network or a routing table nothing is replicated.
  unfoldable pub replicate_all : Node → Option (Node × List (List StoreMessage))
  unfolding replicate_keys
  replicate_all node = elim node.data_store [
    | none ↦ some (node, [])
    | some ds ↦ elim network [
      | none ↦ some (node, [])
      | some net ↦ elim node.table [
        | none ↦ some (node, [])
        | some table ↦ replicate_keys net ds node (DataStore.get_all_keys ds)
      ]
    ]
  ]

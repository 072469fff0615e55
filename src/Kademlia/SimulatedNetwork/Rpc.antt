-- ===== src/Kademlia/SimulatedNetwork/Rpc.antt =====
-- The four messages of kademlia/simulated_network.go.
use d7024e_lab.Kademlia.RoutingTable
use d7024e_lab.Kademlia.DataStore
use d7024e_lab.Kademlia.Contact
use d7024e_lab.Prelude.{List, Option, Panics, [], if◌then◌else◌, none, some, ℕ, ◌&&◌, ◌>>=◌, ◌∷◌}
use d7024e_lab.Kademlia.Bucket.{bucket_size}
use d7024e_lab.Kademlia.Contact.{Contact}
use d7024e_lab.Kademlia.DataStore.{DataStore}
use d7024e_lab.Kademlia.DataStore.Wired.{node_store}
use d7024e_lab.Kademlia.Id.{KademliaId}
use d7024e_lab.Kademlia.Messages.{RpcMessage, blank_message, pong}
use d7024e_lab.Kademlia.RoutingTable.{RoutingTable}
use d7024e_lab.Kademlia.SimulatedNetwork.{
  Floats, SimulatedNetwork, World, guarded, is_other, learn, learn_both, reach,
}
use d7024e_lab.Prelude.Bytes.{Bytes}
use d7024e_lab.Registry.Crypto.{Crypto}
use d7024e_lab.Registry.Outcome.{Result, err, failure, ok}
use d7024e_lab.Registry.Record.{Json}

module _ (fl : Floats) where
  -- `FindClosestContacts` of the network that was reached, less the requester and itself.
  unfoldable pub filter_closest :
      Option KademliaId → Option KademliaId → List Contact.Contact → List Contact.Contact
  filter_closest requester mine [] = []
  filter_closest requester mine (c ∷ cs) =
      let rest = filter_closest requester mine cs in
      if is_other fl requester c.id && is_other fl mine c.id then c ∷ rest else rest

  unfoldable pub find_filtered :
      SimulatedNetwork → Option KademliaId → KademliaId → Panics (List Contact.Contact)
  unfolding filter_closest
  find_filtered net requester target = elim net.rt [
    | none ↦ some []
    | some rt ↦ elim (RoutingTable.find_closest_contacts rt (some target) bucket_size) [
      | none ↦ none
      | some closest ↦ some (filter_closest requester net.me.id closest)
    ]
  ]

  -- `tx` is the fresh identifier of the reply.
  unfoldable pub send_ping_message :
      World fl → ℕ → Option Contact.Contact → fl.F → Bytes → Option (World fl × Result RpcMessage)
  unfolding learn_both reach
  send_ping_message w n contact roll tx = guarded fl w n contact roll (λ w₁ at.
      elim (learn_both fl w₁ n at) [
        | none ↦ none
        | some w₂ ↦ some (
          w₂,
          ok (record (blank_message tx pong (w₂.networks at).me) { receiver = (w₂.networks n).me }),
        )
      ])

  -- The end of `SendFindContactMessage`.
  unfoldable pub answer_find_contact :
      World fl → ℕ → ℕ → KademliaId → Option (World fl × Result (List Contact.Contact))
  unfolding learn find_filtered
  answer_find_contact w n at target = elim (learn fl w at (w.networks n).me) [
    | none ↦ none
    | some w' ↦ elim (find_filtered (w'.networks at) (w'.networks n).me.id target) [
      | none ↦ none
      | some contacts ↦ some (w', ok contacts)
    ]
  ]

  unfoldable pub send_find_contact_message :
      World fl
      → ℕ
      → Option KademliaId
      → Option Contact.Contact
      → fl.F
      → Option (World fl × Result (List Contact.Contact))
  unfolding answer_find_contact reach
  send_find_contact_message w n none contact roll = some (w, err failure)
  send_find_contact_message w n (some target) contact roll =
      guarded fl w n contact roll (λ w₁ at. answer_find_contact w₁ n at target)

  -- A value, or the closest contacts in its place.
  unfoldable pub find_value :
      World fl
      → ℕ
      → ℕ
      → KademliaId
      → Option (World fl × Result (Option Bytes × List Contact.Contact))
  unfolding find_filtered
  find_value w n at target = elim (do ds ← (w.networks at).ds; DataStore.get ds target) [
    | some value ↦ some (w, ok (some value, []))
    | none ↦ elim (find_filtered (w.networks at) (w.networks n).me.id target) [
      | none ↦ none
      | some contacts ↦ some (w, ok (none, contacts))
    ]
  ]

  unfoldable pub send_find_data_message :
      World fl
      → ℕ
      → Option KademliaId
      → Option Contact.Contact
      → fl.F
      → Option (World fl × Result (Option Bytes × List Contact.Contact))
  unfolding learn_both find_value reach
  send_find_data_message w n none contact roll = some (w, err failure)
  send_find_data_message w n (some target) contact roll =
      guarded fl w n contact roll (λ w₁ at. elim (learn_both fl w₁ n at) [
        | none ↦ none
        | some w₂ ↦ find_value w₂ n at target
      ])

  module _ (cr : Crypto) (js : Json) where
    -- Without a data store a value is dropped. A store that comes to look up a record at its node is not
    -- followed.
    unfoldable pub store_there :
        World fl → ℕ → KademliaId → Bytes → Option (World fl × Result (Unit {0}))
    unfolding node_store
    store_there w at name data' = elim (w.networks at).ds [
      | none ↦ some (w, ok tt)
      | some ds ↦ elim (node_store cr js ds name data') [
        | none ↦ none
        | some (ds', r) ↦ some (
          record w {
            networks = RoutingTable.update w.networks at (record (w.networks at) { ds = some ds' });
          },
          r,
        )
      ]
    ]

    unfoldable pub send_store_message :
        World fl
        → ℕ
        → Option Contact.Contact
        → Option KademliaId
        → Bytes
        → fl.F
        → Option (World fl × Result (Unit {0}))
    unfolding learn store_there reach
    send_store_message w n contact none data' roll = some (w, err failure)
    send_store_message w n contact (some name) data' roll = guarded fl w n contact roll (λ w₁ at.
        elim (learn fl w₁ at (w₁.networks n).me) [
          | none ↦ none
          | some w₂ ↦ store_there w₂ at name data'
        ])

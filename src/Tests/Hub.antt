-- ===== src/Tests/Hub.antt =====
-- Messages between the nodes 0 and 5 through a simulated hub.
use d7024e_lab.Kademlia.RoutingTable
use d7024e_lab.Kademlia.RoutingTable.Valid
use d7024e_lab.Kademlia.DataStore
use d7024e_lab.Prelude.{
  Bool-cases, Option, [], arith, if◌then◌else◌, inl, inr, ltb, none, refl, some, some-injective,
  subst, true, ℕ, ◌<◌, ◌==◌, ◌∷◌, ◌≡◌,
}
use d7024e_lab.Kademlia.Contact.{IsTyped}
use d7024e_lab.Kademlia.DataStore.{DataStore, check_key, too_large}
use d7024e_lab.Kademlia.DataStore.Settled.{IsPlain}
use d7024e_lab.Kademlia.DataStore.Wired.{if_at_hand, node_store}
use d7024e_lab.Kademlia.Id.{IsId, KademliaId}
use d7024e_lab.Kademlia.RoutingTable.{RoutingTable}
use d7024e_lab.Kademlia.SimulatedNetwork.{
  Floats, SimulatedNetwork, World, add_one_to, is_lost, learn, probe_hub, reach,
}
use d7024e_lab.Kademlia.SimulatedNetwork.Rpc.{
  send_find_contact_message, send_find_data_message, send_ping_message, send_store_message,
  store_there,
}
use d7024e_lab.Kademlia.SimulatedNetwork.Sends.{IsForRequester, Replies, messages_lem}
use d7024e_lab.Kademlia.SimulatedNetwork.Stored.{send_find_data_message-send_store_message}
use d7024e_lab.Kademlia.SimulatedNetwork.Valid.{IsCounted, IsValidWorld}
use d7024e_lab.Prelude.Bytes.{bytes_eq}
use d7024e_lab.Prelude.Bytes.Dict.{insert, lookup}
use d7024e_lab.Prelude.Bytes.Text.{text}
use d7024e_lab.Registry.Outcome.{ok}
use d7024e_lab.Tests.Chains.{toy_crypto, toy_json}
use d7024e_lab.Tests.Data.{empty_table, empty_table-IsValid, peer, small, small-IsId}
use d7024e_lab.Tests.Retrievals.{own_store, seven, seven-IsId, seven_key-IsPlain}

-- Percentages.
abbrev percent : Floats
percent = record { F = ℕ; f_zero = 0; f_one = 100; f_below = ltb }

abbrev zero_network : SimulatedNetwork
zero_network = record { me = peer 0; rt = some empty_table; ds = none; has_hub = true }

abbrev five_network : SimulatedNetwork
five_network = record { me = peer 5; rt = none; ds = some own_store; has_hub = true }

abbrev both_nodes : World percent
both_nodes = record {
  hub = record {
    nodes = (text "peer", 1) ∷ [];
    packet_loss = 0;
    latency = 0;
    total = 4;
    successful = 3;
    dropped = 1;
  };
  networks = λ i. if i == 0 then zero_network else five_network;
}

peer-IsTyped : (n : ℕ) → n < 256 → IsTyped (peer n)
peer-IsTyped n h = record {
  id_typed = λ k e. subst IsId (let p : small n ≡ k = some-injective e in p) (small-IsId n h);
}

both_nodes-IsValidWorld : IsValidWorld percent both_nodes
unfolding IsCounted
both_nodes-IsValidWorld = record {
  networks_valid = λ i. elim (Bool-cases (i == 0)) [
    | inl e ↦ rw e (record {
      typed = peer-IsTyped 0 (omega arith);
      table_valid = λ rt p. subst Valid.IsValid (some-injective p) empty_table-IsValid;
    })
    | inr e ↦ rw e (record {
      typed = peer-IsTyped 5 (omega arith);
      table_valid =
          λ rt p. absurd (let q : Path (Option RoutingTable.RoutingTable) none (some rt) = p in cc);
    })
  ];
  counted = refl;
}

abbrev seven_is_key : Option KademliaId
seven_is_key = some seven

seven_is_typed : (t : KademliaId) → seven_is_key ≡ some t → IsId t
seven_is_typed t e = subst IsId (let p : seven ≡ t = some-injective e in p) seven-IsId

seven-IsPlain : (k : KademliaId) → seven_is_key ≡ some k → IsPlain toy_crypto toy_json k (7 ∷ [])
seven-IsPlain k e =
    subst (λ x. IsPlain toy_crypto toy_json x (7 ∷ [])) (let p : seven ≡ k = some-injective e in p)
      (seven_key-IsPlain (7 ∷ []))

messages_lem_example :
    Replies percent
      (λ m. m.transaction_id ≡ [])
      (send_ping_message percent both_nodes 0 (some (peer 5)) 50 [])
    × Replies percent
        (IsForRequester percent (some (small 0)))
        (send_find_contact_message percent both_nodes 0 seven_is_key (some (peer 5)) 50)
    × Replies percent
        (λ r. IsForRequester percent (some (small 0)) r.1)
        (send_find_data_message percent both_nodes 0 seven_is_key (some (peer 5)) 50)
    × Replies percent
        (λ done. done ≡ tt)
        (send_store_message percent toy_crypto toy_json both_nodes 0
          (some (peer 5))
          seven_is_key
          (7 ∷ [])
          50)
messages_lem_example =
    messages_lem percent both_nodes both_nodes-IsValidWorld 0 (some (peer 5)) 50 [] seven_is_key
      toy_crypto toy_json seven_is_key (7 ∷ []) seven_is_typed seven-IsPlain

-- Afterwards node 5 has the value.
abbrev after_store : World percent
after_store = record {
  hub = record both_nodes.hub { total = 5; successful = 4 };
  networks =
      RoutingTable.update both_nodes.networks 1
        (record five_network { ds = some (record own_store { entries = (seven, 7 ∷ []) ∷ [] }) });
}

value_is_stored :
    send_store_message percent toy_crypto toy_json both_nodes 0
      (some (peer 5))
      (some seven)
      (7 ∷ [])
      50
    ≡ some (after_store, ok tt)
unfolding send_store_message learn reach probe_hub is_lost add_one_to lookup bytes_eq store_there
    DataStore.store check_key too_large insert node_store if_at_hand
value_is_stored = refl

address_is_known : lookup (text "peer") both_nodes.hub.nodes ≡ some 1
unfolding lookup bytes_eq
address_is_known = refl

send_find_data_message-send_store_message_example :
    (w'' : World percent) × (send_find_data_message percent after_store 0
        (some seven)
        (some (peer 5))
        50
      ≡ some (w'', ok (some (7 ∷ []), [])))
send_find_data_message-send_store_message_example =
    send_find_data_message-send_store_message percent (peer 5) 1 toy_crypto toy_json both_nodes
      after_store 0 0 (small 5) seven (7 ∷ []) own_store 50 50 both_nodes-IsValidWorld refl
      address_is_known refl refl refl refl value_is_stored

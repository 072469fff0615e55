-- ===== src/Tests/Exchange.antt =====
-- Messages between the nodes 0 and 5: the properties at a request and its reply.
use d7024e_lab.Kademlia.Messages.Table
use d7024e_lab.Kademlia.DataStore
use d7024e_lab.Kademlia.Id
use d7024e_lab.Kademlia.Contact
use d7024e_lab.Kademlia.Bucket
use d7024e_lab.Kademlia.RoutingTable
use d7024e_lab.Prelude.{List, Option, [], arith, false, none, refl, some, subst, ◌∷◌, ◌≡◌}
use d7024e_lab.Kademlia.Bucket.{Bucket, new_bucket}
use d7024e_lab.Kademlia.Bucket.Recency.{stored, touch, without}
use d7024e_lab.Kademlia.Contact.{Contact}
use d7024e_lab.Kademlia.DataStore.{DataStore, check_key, too_large}
use d7024e_lab.Kademlia.Eviction.{Thread, try_add}
use d7024e_lab.Kademlia.Eviction.Safe.{HasQueues}
use d7024e_lab.Kademlia.Id.{IsId}
use d7024e_lab.Kademlia.Messages.{
  RpcMessage, UdpNetwork, answer, blank_message, closest_for, contacts_of, deliver, dispatch,
  find_contact, find_data, find_data_result, handle_message, has_id, keep_others, new_udp_network,
  open_request, pong, receive_response, store_reply, store_rpc, update_routing_table,
}
use d7024e_lab.Kademlia.Messages.Handled.{handle_message_lem}
use d7024e_lab.Kademlia.Messages.Late.{late_reply_panics}
use d7024e_lab.Kademlia.Messages.Replies.{HasTypedTarget, RepliesTo}
use d7024e_lab.Kademlia.Messages.Stored.{store-find_data}
use d7024e_lab.Kademlia.Messages.Transactions.{
  after_event, at_start, message_handled, receive_response-Events, request_opened,
}
use d7024e_lab.Kademlia.RoutingTable.{RoutingTable, new_routing_table}
use d7024e_lab.Kademlia.RoutingTable.Valid.{after_add}
use d7024e_lab.Prelude.Bytes.{bytes_eq}
use d7024e_lab.Prelude.Bytes.Dict.{insert, lookup}
use d7024e_lab.Registry.Outcome.{ok}
use d7024e_lab.Tests.Chains.{toy_crypto, toy_json}
use d7024e_lab.Tests.Data.{one_table, one_table-IsValid, peer, small, small-IsId}
use d7024e_lab.Tests.Retrievals.{own_store, seven, with_seven}
use d7024e_lab.Tests.Shortlists.{peer-IsTyped}

abbrev node : UdpNetwork
node = record { me = peer 0; rt = some one_table; ds = some own_store; pending = [] }

one_table-HasQueues : HasQueues one_table
unfolding after_add touch stored without new_routing_table new_bucket
one_table-HasQueues = record { bounded = λ i. omega arith; known = λ i. tt }

node-IsValid : Table.IsValid node
node-IsValid = record {
  table = λ rt e.
      (let p : one_table ≡ rt = cc in
        (
          subst RoutingTable.Valid.IsValid p one_table-IsValid,
          subst HasQueues p one_table-HasQueues,
        ));
}

-- Node 5 asks for the contacts near 9, with the transaction 1.
abbrev question : RpcMessage
question = record (blank_message (1 ∷ []) find_contact (peer 5)) { target_id = some (small 9) }

question-HasTypedTarget : HasTypedTarget question
unfolding HasTypedTarget
question-HasTypedTarget t e =
    subst IsId (let p : small 9 ≡ t = cc in p) (small-IsId 9 (omega arith))

handle_message_lem_example :
    (r : UdpNetwork × Option RpcMessage × List Thread) × (handle_message toy_crypto toy_json node
        question
      ≡ some r)
    × Table.IsValid r.0
    × RepliesTo (peer 0) question r.1
handle_message_lem_example =
    handle_message_lem toy_crypto toy_json node question node-IsValid (record {
      typed_sender = peer-IsTyped 5 (omega arith);
      typed_target = question-HasTypedTarget;
      has_target = λ p q e. cc;
    })

abbrev no_contacts : RpcMessage
no_contacts = blank_message (1 ∷ []) find_contact (peer 0)

abbrev node_after : UdpNetwork
node_after = record node { rt = some (after_add one_table (peer 5)) }

question_is_answered :
    handle_message toy_crypto toy_json node question ≡ some (node_after, some no_contacts, [])
unfolding RoutingTable.find_closest_contacts RoutingTable.get_bucket_index
    RoutingTable.index_of_distance RoutingTable.scan_bytes RoutingTable.scan_byte
    RoutingTable.gather RoutingTable.sort RoutingTable.insert_sorted RoutingTable.closer
    Contact.less Id.less Bucket.get_contact_and_calc_distance Contact.calc_distance Id.calc_distance
    Bucket.add_contact Bucket.find_element Bucket.place Bucket.move_to_front Bucket.remove_at
    bytes_eq after_add touch stored without new_routing_table new_bucket Id.equals lookup
    handle_message update_routing_table has_id answer dispatch contacts_of closest_for keep_others
    try_add
question_is_answered = refl

-- The reply comes to node 0 itself when it waits for nothing.
late_reply_panics_example : handle_message toy_crypto toy_json node no_contacts ≡ none
unfolding lookup
late_reply_panics_example =
    late_reply_panics toy_crypto toy_json node node_after node question no_contacts [] node-IsValid
      node-IsValid (peer-IsTyped 0 (omega arith)) (peer-IsTyped 5 (omega arith)) refl refl
      question_is_answered (λ e. cc) refl

-- The store of the node takes the value 7.
abbrev put_seven : RpcMessage
put_seven = record (blank_message (2 ∷ []) store_rpc (peer 5)) {
  target_id = some seven;
  payload = some (7 ∷ []);
}

abbrev ask_seven : RpcMessage
ask_seven = record (blank_message (3 ∷ []) find_data (peer 5)) { target_id = some seven }

seven_is_stored :
    DataStore.store toy_crypto toy_json own_store seven (7 ∷ []) ≡ some (with_seven, ok tt)
unfolding DataStore.store check_key too_large bytes_eq insert
seven_is_stored = refl

store-find_data_example :
    (n₁ : UdpNetwork) × (ths : List Thread) × (handle_message toy_crypto toy_json node put_seven
      ≡ some (n₁, some (blank_message (2 ∷ []) store_reply (peer 0)), ths))
    × (n₂ : UdpNetwork) × (reply : RpcMessage) × (later : List Thread) × (handle_message toy_crypto
          toy_json n₁ ask_seven
        ≡ some (n₂, some reply, later))
    × (find_data_result reply ≡ (7 ∷ [], []))
unfolding lookup
store-find_data_example =
    store-find_data toy_crypto toy_json node put_seven ask_seven own_store with_seven seven 7 []
      node-IsValid (peer-IsTyped 5 (omega arith)) (peer-IsTyped 5 (omega arith)) refl
      seven_is_stored refl refl refl refl refl refl refl

-- A response in the channel of a request that was opened first.
abbrev waiting : UdpNetwork
waiting = open_request (new_udp_network (peer 5) none none) (1 ∷ [])

abbrev pong_of_zero : RpcMessage
pong_of_zero = blank_message (1 ∷ []) pong (peer 0)

abbrev answered_network : UdpNetwork
answered_network = record {
  me = peer 5;
  rt = none;
  ds = none;
  pending = (1 ∷ [], some pong_of_zero) ∷ [];
}

pong_is_handled :
    handle_message toy_crypto toy_json waiting pong_of_zero ≡ some (answered_network, none, [])
unfolding handle_message update_routing_table answer deliver open_request new_udp_network insert
    lookup bytes_eq
pong_is_handled = refl

pong_is_there : receive_response answered_network (1 ∷ []) false ≡ some pong_of_zero
unfolding receive_response lookup bytes_eq
pong_is_there = refl

receive_response-Events_example : pong_of_zero.transaction_id ≡ 1 ∷ []
receive_response-Events_example =
    receive_response-Events toy_crypto toy_json (peer 5) none none answered_network (1 ∷ []) false
      pong_of_zero
      (after_event (after_event at_start (request_opened (1 ∷ [])))
        (message_handled pong_of_zero _ pong_is_handled))
      pong_is_there

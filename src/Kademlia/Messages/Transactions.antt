-- ===== src/Kademlia/Messages/Transactions.antt =====
-- Responses are matched to requests by their transaction (kademlia/network.go), in whatever order
-- requests are opened and closed and messages come in.
use d7024e_lab.Kademlia.RoutingTable
use d7024e_lab.Kademlia.DataStore
use d7024e_lab.Prelude.{
  Bool, Bool-cases, List, Option, Option-cases, [], ap, arith, bind-some, false, inl, inr, none,
  some, some-injective, subst, sym, true, ◌∙◌, ◌≡◌,
}
use d7024e_lab.Kademlia.Contact.{Contact}
use d7024e_lab.Kademlia.DataStore.{DataStore}
use d7024e_lab.Kademlia.Eviction.{Thread}
use d7024e_lab.Kademlia.Messages.{
  RpcMessage, RpcType, UdpNetwork, answer, close_request, contacts_of, deliver, dispatch,
  find_contact, find_data, find_data_answer, handle_message, new_udp_network, open_request, ping,
  receive_response, store_rpc, store_value, update_routing_table,
}
use d7024e_lab.Kademlia.RoutingTable.{RoutingTable}
use d7024e_lab.Prelude.Bytes.{Bytes, bytes_eq, bytes_eq_iff}
use d7024e_lab.Prelude.Bytes.Dict.{Dict, insert, lookup, lookup-insert, lookup-remove, remove}
use d7024e_lab.Registry.Crypto.{Crypto}
use d7024e_lab.Registry.Record.{Json}

-- Each message in a channel is of the channel's transaction.
pub IsMatched : Dict (Option RpcMessage) → Type 0
IsMatched channels =
    (tx : Bytes) (m : RpcMessage) → lookup tx channels ≡ some (some m) → m.transaction_id ≡ tx

module _ (cr : Crypto) (js : Json) where
  -- A change of the network's state: a request is opened or closed, a message is handled, or other
  -- threads change the routing table and the store.
  pub data Event (n : UdpNetwork) : UdpNetwork → Type 0 where
    request_opened : (tx : Bytes) → Event n (open_request n tx)
    request_closed : (tx : Bytes) → Event n (close_request n tx)
    message_handled :
        (msg : RpcMessage) (r : UdpNetwork × Option RpcMessage × List Thread)
        → handle_message cr js n msg ≡ some r
        → Event n r.0
    elsewhere : (n' : UdpNetwork) → n'.pending ≡ n.pending → Event n n'

  pub data Events (n : UdpNetwork) : UdpNetwork → Type 0 where
    at_start : Events n n
    after_event : {m o : UdpNetwork} → Events n m → Event m o → Events n o

insert-IsMatched :
    (channels : Dict (Option RpcMessage)) (tx : Bytes) (channel : Option RpcMessage)
    → ((m : RpcMessage) → channel ≡ some m → m.transaction_id ≡ tx)
    → IsMatched channels
    → IsMatched (insert tx channel channels)
unfolding IsMatched
insert-IsMatched channels tx channel fits h = λ k m l. elim (Bool-cases (bytes_eq tx k)) [
  | inl e ↦
      let p : some channel ≡ some (some m) = rw (lookup-insert tx k channel channels, e) at l in
      fits m (cc) ∙ (bytes_eq_iff tx k).0 e
  | inr e ↦ h k m (rw (lookup-insert tx k channel channels, e) at l)
]

remove-IsMatched :
    (channels : Dict (Option RpcMessage)) (tx : Bytes)
    → IsMatched channels
    → IsMatched (remove tx channels)
unfolding IsMatched
remove-IsMatched channels tx h = λ k m l. elim (Bool-cases (bytes_eq tx k)) [
  | inl e ↦
      let p : Path (Option (Option RpcMessage)) none (some (some m)) =
        rw (lookup-remove tx k channels, e) at l in
      cc
  | inr e ↦ h k m (rw (lookup-remove tx k channels, e) at l)
]

empty-IsMatched : IsMatched []
unfolding IsMatched lookup
empty-IsMatched tx m l = cc

-- The open requests stay as they are.
abbrev pub KeepsPending : UdpNetwork → UdpNetwork → Type 0
KeepsPending n n' = n'.pending ≡ n.pending

update_routing_table-KeepsPending :
    (n : UdpNetwork) (c : Contact) (r : UdpNetwork × List Thread)
    → update_routing_table n c ≡ some r
    → KeepsPending n r.0
unfolding update_routing_table
update_routing_table-KeepsPending n c r e = ground arith

pub store_value-KeepsPending :
    (cr : Crypto) (js : Json) (n n' : UdpNetwork) (msg : RpcMessage)
    → store_value cr js n msg ≡ some n'
    → KeepsPending n n'
unfolding store_value
store_value-KeepsPending cr js n n' msg e = ground arith

dispatch-KeepsPending :
    (cr : Crypto) (js : Json) (ty : RpcType) (n : UdpNetwork) (msg : RpcMessage)
    (r : UdpNetwork × Option RpcMessage)
    → dispatch cr js ty n msg ≡ some r
    → KeepsPending n r.0
unfolding dispatch
dispatch-KeepsPending cr js find_contact n msg r e =
    let (cs, f, g) = bind-some (contacts_of n msg) e in
    ap (λ x. x.0.pending) (sym (some-injective g))
dispatch-KeepsPending cr js find_data n msg r e =
    let (cs, f, g) = bind-some (find_data_answer n msg) e in
    ap (λ x. x.0.pending) (sym (some-injective g))
dispatch-KeepsPending cr js store_rpc n msg r e =
    let (n', f, g) = bind-some (store_value cr js n msg) e in
    ap (λ x. x.0.pending) (sym (some-injective g)) ∙ store_value-KeepsPending cr js n n' msg f
dispatch-KeepsPending cr js ping n msg r e = ap (λ x. x.0.pending) (sym (some-injective e))
dispatch-KeepsPending cr js _ n msg r e = ap (λ x. x.0.pending) (sym (some-injective e))

module _ (cr : Crypto) (js : Json) where
  answer-IsMatched :
      (n : UdpNetwork) (msg : RpcMessage) (r : UdpNetwork × Option RpcMessage)
      → answer cr js n msg ≡ some r
      → IsMatched n.pending
      → IsMatched r.0.pending
  unfolding answer deliver
  answer-IsMatched n msg r e h = elim (Option-cases (lookup msg.transaction_id n.pending)) [
    | inl f ↦
        subst IsMatched
          (sym (dispatch-KeepsPending cr js msg.rpc_type n msg r (rw (answer, f) at e))) h
    | inr (none, f) ↦
        let p : some ((deliver n msg none).0, none) ≡ some r = rw (answer, f) at e in
        subst IsMatched (ap (λ x. x.0.pending) (some-injective p)) (
          insert-IsMatched n.pending msg.transaction_id (some msg)
            (λ m q. ap (λ x. x.transaction_id) (sym (some-injective q))) h)
    | inr (some earlier, f) ↦
        let p : some ((deliver n msg (some earlier)).0, none) ≡ some r = rw (answer, f) at e in
        subst IsMatched (ap (λ x. x.0.pending) (some-injective p)) h
  ]

  Event-IsMatched :
      (n : UdpNetwork) {n' : UdpNetwork}
      → Event cr js n n'
      → IsMatched n.pending
      → IsMatched n'.pending
  unfolding open_request close_request handle_message
  Event-IsMatched n (request_opened tx) h = insert-IsMatched n.pending tx none (λ m q. cc) h
  Event-IsMatched n (request_closed tx) h = remove-IsMatched n.pending tx h
  Event-IsMatched n (message_handled msg r e) h =
      let (u, f, g) = bind-some (update_routing_table n msg.sender) e in
      let (a, f', g') = bind-some (answer cr js u.0 msg) g in
      subst IsMatched (ap (λ x. x.0.pending) (some-injective g')) (
        answer-IsMatched u.0 msg a f'
          (subst IsMatched (sym (update_routing_table-KeepsPending n msg.sender u f)) h))
  Event-IsMatched n (elsewhere n' kept) h = subst IsMatched (sym kept) h

  Events-IsMatched :
      (n : UdpNetwork) {n' : UdpNetwork}
      → Events cr js n n'
      → IsMatched n.pending
      → IsMatched n'.pending
  Events-IsMatched n at_start h = h
  Events-IsMatched n (after_event {m} es e) h = Event-IsMatched m e (Events-IsMatched n es h)

  -- However requests are opened and closed and messages handled from the start of the network on, a
  -- response that a request receives carries the transaction of this request.
  pub receive_response-Events :
      (me : Contact) (rt : Option RoutingTable.RoutingTable) (ds : Option DataStore.DataStore)
      (n : UdpNetwork) (tx : Bytes) (timed_out : Bool) (m : RpcMessage)
      → Events cr js (new_udp_network me rt ds) n
      → receive_response n tx timed_out ≡ some m
      → m.transaction_id ≡ tx
  unfolding receive_response new_udp_network IsMatched
  receive_response-Events me rt ds n tx true m es e = cc
  receive_response-Events me rt ds n tx false m es e = elim (Option-cases (lookup tx n.pending)) [
    | inl f ↦ let p : Path (Option RpcMessage) none (some m) = rw (receive_response, f) at e in cc
    | inr (channel, f) ↦
        let p : channel ≡ some m = rw (receive_response, f) at e in
        Events-IsMatched (new_udp_network me rt ds) es empty-IsMatched tx m (f ∙ ap some p)
  ]

-- ===== src/Kademlia/Messages/Handled.antt =====
-- The handler of kademlia/network.go as a whole, and a reply that comes too late.
use d7024e_lab.Kademlia.RoutingTable
use d7024e_lab.Kademlia.Messages.Table
use d7024e_lab.Prelude.{
  List, Option, Option-cases, inl, inr, none, refl, some, subst, sym, ◌≡◌, ◌≢◌,
}
use d7024e_lab.Kademlia.Contact.{IsTyped}
use d7024e_lab.Kademlia.Eviction.{Thread}
use d7024e_lab.Kademlia.Messages.{
  RpcMessage, UdpNetwork, answer, closest_for, contacts_of, dispatch, find_contact, handle_message,
}
use d7024e_lab.Kademlia.Messages.Replies.{HasTypedTarget, RepliesTo, answer_lem}
use d7024e_lab.Kademlia.Messages.Table.{update_routing_table_lem}
use d7024e_lab.Kademlia.RoutingTable.{RoutingTable}
use d7024e_lab.Prelude.Bytes.Dict.{has, lookup}
use d7024e_lab.Registry.Crypto.{Crypto}
use d7024e_lab.Registry.Record.{Json}

-- The message can be answered: its sender and its target are typed, and if it asks for contacts it
-- has a target, unless it is a response to an open request.
pub record IsAnswerable (n : UdpNetwork) (msg : RpcMessage) : Type 0 where
  pub typed_sender : IsTyped msg.sender
  pub typed_target : HasTypedTarget msg
  pub has_target :
      lookup msg.transaction_id n.pending ≡ none
      → msg.rpc_type ≡ find_contact
      → msg.target_id ≢ none

-- On a network with a valid routing table the handler does not panic on a message that can be
-- answered, of any type, and leaves the table valid; what it sends back is a reply: it carries the
-- transaction of the message, and tells of at most `bucket_size` contacts, none of which is the
-- sender of the message or the node itself.
pub handle_message_lem :
    (cr : Crypto) (js : Json) (n : UdpNetwork) (msg : RpcMessage)
    → Table.IsValid n
    → IsAnswerable n msg
    → (r : UdpNetwork × Option RpcMessage × List Thread) × (handle_message cr js n msg ≡ some r)
      × Table.IsValid r.0
      × RepliesTo n.me msg r.1
unfolding handle_message
handle_message_lem cr js n msg h a =
    let (u, e, v, s) = update_routing_table_lem n msg.sender h a.typed_sender in
    let (r, f, w, i) =
      answer_lem cr js u.0 msg v a.typed_target
        (λ p. a.has_target (subst (λ x. lookup msg.transaction_id x ≡ none) s.same_pending p)) in
    (
      (r.0, r.1, u.1),
      rw (handle_message, e, f) refl,
      w,
      subst (λ m. RepliesTo m msg r.1) s.same_me i,
    )

contacts_of-nil :
    (n : UdpNetwork) (msg : RpcMessage)
    → n.rt ≢ none
    → msg.target_id ≡ none
    → contacts_of n msg ≡ none
unfolding contacts_of closest_for RoutingTable.find_closest_contacts RoutingTable.get_bucket_index
contacts_of-nil n msg has e = elim (Option-cases n.rt) [
  | inl f ↦ absurd (has f)
  | inr (rt, f) ↦ rw (contacts_of, f, closest_for, e) refl
]

module _ (cr : Crypto) (js : Json) where
  -- A request for contacts with no target stops the node: the handler panics.
  pub handle_message-nil_target :
      (n : UdpNetwork) (msg : RpcMessage)
      → Table.IsValid n
      → IsTyped msg.sender
      → n.rt ≢ none
      → lookup msg.transaction_id n.pending ≡ none
      → msg.rpc_type ≡ find_contact
      → msg.target_id ≡ none
      → handle_message cr js n msg ≡ none
  unfolding handle_message answer dispatch
  handle_message-nil_target n msg h ty with_table no_wait is_find nil =
      let (u, e, v, s) = update_routing_table_lem n msg.sender h ty in
      let no_wait' : lookup msg.transaction_id u.0.pending ≡ none =
        subst (λ x. lookup msg.transaction_id x ≡ none) (sym s.same_pending) no_wait in
      rw
        (
          handle_message,
          e,
          answer,
          no_wait',
          is_find,
          dispatch,
          contacts_of-nil u.0 msg (s.keeps_table with_table) nil,
        )
        refl

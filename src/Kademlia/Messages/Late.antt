-- ===== src/Kademlia/Messages/Late.antt =====
-- The reply to a request for contacts (kademlia/network.go) has the type of a request and no target,
-- so a node that no longer waits for it takes it for a request.
use d7024e_lab.Kademlia.Contact
use d7024e_lab.Kademlia.Messages.Table
use d7024e_lab.Prelude.{
  List, Option, Option-cases, ap, inl, inr, none, refl, some, subst, sym, ◌∙◌, ◌≡◌, ◌≢◌,
}
use d7024e_lab.Kademlia.Contact.{Contact, IsTyped}
use d7024e_lab.Kademlia.Eviction.{Thread}
use d7024e_lab.Kademlia.Messages.{
  RpcMessage, UdpNetwork, answer, blank_message, contacts_of, dispatch, find_contact,
  handle_message,
}
use d7024e_lab.Kademlia.Messages.Handled.{handle_message-nil_target}
use d7024e_lab.Kademlia.Messages.Table.{update_routing_table_lem}
use d7024e_lab.Prelude.Bytes.Dict.{lookup}
use d7024e_lab.Registry.Crypto.{Crypto}
use d7024e_lab.Registry.Record.{Json}

module _ (cr : Crypto) (js : Json) where
  -- What is sent back to a request for contacts.
  find_contact_reply_of :
      (n n' : UdpNetwork) (req reply : RpcMessage) (ths : List Thread)
      → Table.IsValid n
      → IsTyped req.sender
      → lookup req.transaction_id n.pending ≡ none
      → req.rpc_type ≡ find_contact
      → handle_message cr js n req ≡ some (n', some reply, ths)
      → (cs : List Contact.Contact) × (reply
          ≡ record (blank_message req.transaction_id find_contact n.me) { contacts = cs })
  unfolding handle_message answer dispatch
  find_contact_reply_of n n' req reply ths h ty no_wait is_find e =
      let (u, f, v, s) = update_routing_table_lem n req.sender h ty in
      let no_wait' : lookup req.transaction_id u.0.pending ≡ none =
        subst (λ x. lookup req.transaction_id x ≡ none) (sym s.same_pending) no_wait in
      elim (Option-cases (contacts_of u.0 req)) [
        | inl g ↦
            let p : Path (Option (UdpNetwork × Option RpcMessage × List Thread)) none
                (some (n', some reply, ths)) =
              rw (handle_message, f, answer, no_wait', is_find, dispatch, g) at e in
            cc
        | inr (cs, g) ↦
            let r = record (blank_message req.transaction_id find_contact u.0.me) {
              contacts = cs;
            } in
            let p : Path (Option (UdpNetwork × Option RpcMessage × List Thread))
                (some (u.0, some r, u.1)) (some (n', some reply, ths)) =
              rw (handle_message, f, answer, no_wait', is_find, dispatch, g) at e in
            let o : r ≡ reply = cc in
            (
              cs,
              sym o
                  ∙ ap
                      (λ m. record (blank_message req.transaction_id find_contact m) {
                        contacts = cs;
                      })
                      s.same_me,
            )
      ]

  -- A node with a routing table that gets the reply of another node to a request for contacts which
  -- it no longer waits for, such as one that timed out, stops: its handler panics.
  pub late_reply_panics :
      (n n' late : UdpNetwork) (req reply : RpcMessage) (ths : List Thread)
      → Table.IsValid n
      → Table.IsValid late
      → IsTyped n.me
      → IsTyped req.sender
      → lookup req.transaction_id n.pending ≡ none
      → req.rpc_type ≡ find_contact
      → handle_message cr js n req ≡ some (n', some reply, ths)
      → late.rt ≢ none
      → lookup req.transaction_id late.pending ≡ none
      → handle_message cr js late reply ≡ none
  late_reply_panics n n' late req reply ths h hl tm ty no_wait is_find e with_table gone =
      let (cs, o) = find_contact_reply_of n n' req reply ths h ty no_wait is_find e in
      subst (λ r. handle_message cr js late r ≡ none) (sym o)
        (handle_message-nil_target cr js late
          (record (blank_message req.transaction_id find_contact n.me) { contacts = cs }) hl tm
          with_table gone refl refl)

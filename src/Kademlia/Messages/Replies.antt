-- ===== src/Kademlia/Messages/Replies.antt =====
-- What the handler of kademlia/network.go replies.
use d7024e_lab.Kademlia.RoutingTable
use d7024e_lab.Kademlia.Contact
use d7024e_lab.Kademlia.Messages.Table
use d7024e_lab.Prelude.{
  All, Bool-cases, List, Option, Option-cases, [], arith, false, inl, inr, length, none, refl, some,
  ◌||◌, ◌∷◌, ◌≡◌, ◌≢◌, ◌≤◌,
}
use d7024e_lab.Kademlia.Bucket.{bucket_size}
use d7024e_lab.Kademlia.Contact.{Contact}
use d7024e_lab.Kademlia.DataStore.Round.{store-returns}
use d7024e_lab.Kademlia.Id.{IsId, KademliaId}
use d7024e_lab.Kademlia.Messages.{
  RpcMessage, RpcType, UdpNetwork, answer, blank_message, closest_for, contacts_instead,
  contacts_of, deliver, dispatch, find_contact, find_contact_reply, find_data, find_data_answer,
  find_data_reply, has_id, keep_others, local_value, ping, pong, store_reply, store_rpc,
  store_value, unknown,
}
use d7024e_lab.Kademlia.RoutingTable.{RoutingTable}
use d7024e_lab.Kademlia.RoutingTable.Closest.{find_closest_contacts_lem}
use d7024e_lab.Prelude.Bytes.Dict.{insert, lookup}
use d7024e_lab.Registry.Crypto.{Crypto}
use d7024e_lab.Registry.Record.{Json}

-- Neither the sender of the message nor the node itself.
pub IsOther : Contact.Contact → RpcMessage → Contact.Contact → Type 0
IsOther me msg c = (has_id msg.sender.id c.id ≡ false) × (has_id me.id c.id ≡ false)

-- A reply to the message: it carries its transaction, is sent in the name of the node, and tells of
-- at most `bucket_size` contacts, none of which is the sender of the message or the node itself.
pub record IsReply (me : Contact.Contact) (msg reply : RpcMessage) : Type 0 where
  pub same_transaction : reply.transaction_id ≡ msg.transaction_id
  pub from_me : reply.sender ≡ me
  pub few : length reply.contacts ≤ bucket_size
  pub others : All (IsOther me msg) reply.contacts

All-keep_others :
    (n : UdpNetwork) (msg : RpcMessage) (cs : List Contact.Contact)
    → All (IsOther n.me msg) (keep_others msg.sender.id n.me.id cs)
unfolding keep_others IsOther
All-keep_others n msg [] = tt
All-keep_others n msg (c ∷ cs) =
    elim (Bool-cases (has_id msg.sender.id c.id || has_id n.me.id c.id)) [
      | inl e ↦ rw e (All-keep_others n msg cs)
      | inr e ↦ rw e ((ground (arith, e), ground (arith, e)), All-keep_others n msg cs)
    ]

length-keep_others :
    (a b : Option KademliaId) (cs : List Contact.Contact) → length (keep_others a b cs) ≤ length cs
unfolding keep_others
length-keep_others a b [] = omega arith
length-keep_others a b (c ∷ cs) = ground (arith, length-keep_others a b cs)

-- The contacts of a reply.
abbrev IsFor : UdpNetwork → RpcMessage → List Contact.Contact → Type 0
IsFor n msg cs = (length cs ≤ bucket_size) × All (IsOther n.me msg) cs

-- A target is nil, or points to 32 bytes.
unfoldable pub HasTypedTarget : RpcMessage → Type 0
HasTypedTarget msg = (t : KademliaId) → msg.target_id ≡ some t → IsId t

module _ (n : UdpNetwork) (msg : RpcMessage) (h : Table.IsValid n)
    (typed : HasTypedTarget msg) where
  closest_for_lem :
      (rt : RoutingTable.RoutingTable) (t : KademliaId)
      → n.rt ≡ some rt
      → msg.target_id ≡ some t
      → (cs : List Contact.Contact) × (closest_for n msg rt ≡ some cs) × IsFor n msg cs
  unfolding closest_for HasTypedTarget
  closest_for_lem rt t e f =
      let (r, g, l, a, i, d) =
        find_closest_contacts_lem rt t bucket_size (h.table rt e).0 (typed t f) in
      (
        keep_others msg.sender.id n.me.id r,
        rw (closest_for, f, g) refl,
        (ground (arith, l, length-keep_others msg.sender.id n.me.id r), All-keep_others n msg r),
      )

  contacts_of_lem :
      msg.target_id ≢ none
      → (cs : List Contact.Contact) × (contacts_of n msg ≡ some cs) × IsFor n msg cs
  unfolding contacts_of
  contacts_of_lem ne = elim (Option-cases n.rt) [
    | inl e ↦ ([], rw (contacts_of, e) refl, (omega arith, tt))
    | inr (rt, e) ↦ elim (Option-cases msg.target_id) [
      | inl f ↦ absurd (ne f)
      | inr (t, f) ↦ let (cs, g, i) = closest_for_lem rt t e f in (cs, rw (contacts_of, e) g, i)
    ]
  ]

  contacts_instead_lem :
      (cs : List Contact.Contact) × (contacts_instead n msg ≡ some cs) × IsFor n msg cs
  unfolding contacts_instead
  contacts_instead_lem = elim (Option-cases n.rt) [
    | inl e ↦ ([], rw (contacts_instead, e) refl, (omega arith, tt))
    | inr (rt, e) ↦ elim (Option-cases msg.target_id) [
      | inl f ↦ ([], rw (contacts_instead, e, f) refl, (omega arith, tt))
      | inr (t, f) ↦
          let (cs, g, i) = closest_for_lem rt t e f in (cs, rw (contacts_instead, e, f) g, i)
    ]
  ]

  find_data_answer_lem :
      (reply : RpcMessage) × (find_data_answer n msg ≡ some reply) × IsReply n.me msg reply
  unfolding find_data_answer
  find_data_answer_lem = elim (Option-cases (local_value n msg)) [
    | inr (v, e) ↦ (
      record (blank_message msg.transaction_id find_data_reply n.me) { payload = some v },
      rw (find_data_answer, e) refl,
      record { same_transaction = refl; from_me = refl; few = omega arith; others = tt },
    )
    | inl e ↦
        let (cs, f, i) = contacts_instead_lem in
        (
          record (blank_message msg.transaction_id find_data_reply n.me) { contacts = cs },
          rw (find_data_answer, e, f) refl,
          record { same_transaction = refl; from_me = refl; few = i.0; others = i.1 },
        )
  ]

-- The value, if there is one, is a reply.
abbrev pub RepliesTo : Contact.Contact → RpcMessage → Option RpcMessage → Type 0
RepliesTo me msg none = Unit
RepliesTo me msg (some reply) = IsReply me msg reply

blank-IsReply :
    (n : UdpNetwork) (msg : RpcMessage) (ty : RpcType)
    → IsReply n.me msg (blank_message msg.transaction_id ty n.me)
blank-IsReply n msg ty = record {
  same_transaction = refl;
  from_me = refl;
  few = omega arith;
  others = tt;
}

module _ (cr : Crypto) (js : Json) (n : UdpNetwork) (msg : RpcMessage) (h : Table.IsValid n) where
  pub store_value_lem : (n' : UdpNetwork) × (store_value cr js n msg ≡ some n') × Table.IsValid n'
  unfolding store_value
  store_value_lem = elim (Option-cases n.ds) [
    | inl e ↦ (n, ground (arith, e), h)
    | inr (ds, e) ↦ elim (Option-cases msg.target_id) [
      | inl f ↦ (n, ground (arith, e, f), h)
      | inr (k, f) ↦ elim (Option-cases msg.payload) [
        | inl g ↦ (n, ground (arith, e, f, g), h)
        | inr (v, g) ↦
            let (ds', x, s, got) = store-returns cr js ds k v in
            (
              record n { ds = some ds' },
              rw (store_value, e, f, g, s) refl,
              record { table = h.table },
            )
      ]
    ]
  ]

  -- The result of a request, by its type.
  abbrev Dispatched : RpcType → Type 0
  Dispatched ty =
      (r : UdpNetwork × Option RpcMessage) × (dispatch cr js ty n msg ≡ some r)
      × Table.IsValid r.0
      × RepliesTo n.me msg r.1

  module _ (typed : HasTypedTarget msg) where
    dispatch_lem : (ty : RpcType) → (ty ≡ find_contact → msg.target_id ≢ none) → Dispatched ty
    unfolding dispatch
    dispatch_lem ping fits = (_, refl, h, blank-IsReply n msg pong)
    dispatch_lem find_contact fits =
        let (cs, e, i) = contacts_of_lem n msg h typed (fits refl) in
        (
          (n, some (record (blank_message msg.transaction_id find_contact n.me) { contacts = cs })),
          rw (dispatch, e) refl,
          h,
          record { same_transaction = refl; from_me = refl; few = i.0; others = i.1 },
        )
    dispatch_lem find_data fits =
        let (reply, e, i) = find_data_answer_lem n msg h typed in
        ((n, some reply), rw (dispatch, e) refl, h, i)
    dispatch_lem store_rpc fits =
        let (n', e, v) = store_value_lem in
        (
          (n', some (blank_message msg.transaction_id store_reply n.me)),
          rw (dispatch, e) refl,
          v,
          blank-IsReply n msg store_reply,
        )
    dispatch_lem pong fits = (_, refl, h, tt)
    dispatch_lem find_contact_reply fits = (_, refl, h, tt)
    dispatch_lem find_data_reply fits = (_, refl, h, tt)
    dispatch_lem store_reply fits = (_, refl, h, tt)
    dispatch_lem (unknown s) fits = (_, refl, h, tt)

    pub answer_lem :
        (lookup msg.transaction_id n.pending ≡ none
          → msg.rpc_type ≡ find_contact
          → msg.target_id ≢ none)
        → (r : UdpNetwork × Option RpcMessage) × (answer cr js n msg ≡ some r)
          × Table.IsValid r.0
          × RepliesTo n.me msg r.1
    unfolding answer deliver
    answer_lem fits = elim (Option-cases (lookup msg.transaction_id n.pending)) [
      | inl e ↦ let (r, f, v, i) = dispatch_lem msg.rpc_type (fits e) in (r, rw (answer, e) f, v, i)
      | inr (none, e) ↦ (
        (record n { pending = insert msg.transaction_id (some msg) n.pending }, none),
        rw (answer, e) refl,
        record { table = h.table },
        tt,
      )
      | inr (some earlier, e) ↦ ((n, none), ground (arith, e), h, tt)
    ]

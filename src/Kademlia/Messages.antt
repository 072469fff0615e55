-- ===== src/Kademlia/Messages.antt =====
-- kademlia/network.go: messages, the requests that wait for an answer, and the handler of incoming
-- packets. Sockets, timers and the encoding of packets are I/O: a request is opened, its answer may
-- arrive, and it is closed, in whatever order the threads run.
pub mod Table
pub mod Replies
pub mod Handled
pub mod Late
pub mod Transactions
pub mod Stored
use d7024e_lab.Kademlia.Id
use d7024e_lab.Kademlia.RoutingTable
use d7024e_lab.Kademlia.DataStore
use d7024e_lab.Kademlia.Eviction
use d7024e_lab.Prelude.{
  Bool, List, Option, Panics, [], false, if◌then◌else◌, none, some, true, ◌++◌, ◌>>=◌, ◌||◌, ◌∷◌,
}
use d7024e_lab.Kademlia.Bucket.{bucket_size}
use d7024e_lab.Kademlia.Contact.{Contact, key}
use d7024e_lab.Kademlia.DataStore.{DataStore}
use d7024e_lab.Kademlia.Eviction.{Thread, try_add}
use d7024e_lab.Kademlia.Id.{KademliaId}
use d7024e_lab.Kademlia.Id.Order.{value}
use d7024e_lab.Kademlia.RoutingTable.{RoutingTable}
use d7024e_lab.Prelude.Bytes.{Bytes}
use d7024e_lab.Prelude.Bytes.Dict.{Dict, insert, lookup, remove}
use d7024e_lab.Registry.Crypto.{Crypto}
use d7024e_lab.Registry.Record.{Json}

pub data RpcType : Type 0 where
  ping pong find_contact find_contact_reply find_data find_data_reply store_rpc store_reply :
      RpcType
  unknown : Bytes → RpcType

-- `payload` is the field `Data`, which may be nil.
pub record RpcMessage : Type 0 where
  pub transaction_id : Bytes
  pub rpc_type : RpcType
  pub sender : Contact
  pub receiver : Contact
  pub target_id : Option KademliaId
  pub contacts : List Contact
  pub payload : Option Bytes

-- `pending` has the channel of each open request, which has room for one message.
pub record UdpNetwork : Type 0 where
  pub me : Contact
  pub rt : Option RoutingTable.RoutingTable
  pub ds : Option DataStore.DataStore
  pub pending : Dict (Option RpcMessage)

unfoldable pub new_udp_network :
    Contact → Option RoutingTable.RoutingTable → Option DataStore.DataStore → UdpNetwork
new_udp_network me rt ds = record { me = me; rt = rt; ds = ds; pending = [] }

abbrev pub no_contact : Contact
no_contact = record { id = none; address = []; distance = none }

-- A message with its optional fields unset.
abbrev pub blank_message : Bytes → RpcType → Contact → RpcMessage
blank_message tx ty sender = record {
  transaction_id = tx;
  rpc_type = ty;
  sender = sender;
  receiver = no_contact;
  target_id = none;
  contacts = [];
  payload = none;
}

-- The requests of the four `Send` methods; `tx` is the fresh identifier.
unfoldable pub ping_request : UdpNetwork → Bytes → RpcMessage
ping_request n tx = blank_message tx ping n.me

unfoldable pub find_contact_request : UdpNetwork → Bytes → Option KademliaId → RpcMessage
find_contact_request n tx target = record (blank_message tx find_contact n.me) {
  target_id = target;
}

-- A contact or a target that is nil is refused before anything is sent.
unfoldable pub find_data_request :
    UdpNetwork → Bytes → Option KademliaId → Option Contact → Option RpcMessage
find_data_request n tx target none = none
find_data_request n tx target (some contact) = do
  id ← contact.id
  t ← target
  some (record (blank_message tx find_data n.me) { target_id = some t })

unfoldable pub store_request :
    UdpNetwork → Bytes → Option Contact → Option KademliaId → Bytes → Option RpcMessage
store_request n tx none key data' = none
store_request n tx (some contact) key data' = do
  id ← contact.id
  k ← key
  some (record (blank_message tx store_rpc n.me) { target_id = some k; payload = some data' })

-- What `SendFindDataMessage` makes of a response: the value, if there is one, or the contacts.
unfoldable pub find_data_result : RpcMessage → Bytes × List Contact
find_data_result res = elim res.payload [
  | none ↦ ([], res.contacts)
  | some [] ↦ ([], res.contacts)
  | some (b ∷ bs) ↦ (b ∷ bs, [])
]

-- `sendRPC` registers the channel of the transaction,
unfoldable pub open_request : UdpNetwork → Bytes → UdpNetwork
open_request n tx = record n { pending = insert tx none n.pending }

-- waits for a message in it, unless the time is over,
unfoldable pub receive_response : UdpNetwork → Bytes → Bool → Option RpcMessage
receive_response n tx true = none
receive_response n tx false = elim (lookup tx n.pending) [ none ↦ none | some channel ↦ channel ]

-- and removes the channel at the end.
unfoldable pub close_request : UdpNetwork → Bytes → UdpNetwork
close_request n tx = record n { pending = remove tx n.pending }

unfoldable pub has_id : Option KademliaId → Option KademliaId → Bool
has_id none c = false
has_id (some id) none = false
has_id (some id) (some c) = Id.equals c id

-- The contacts but for the sender and the node itself.
unfoldable pub keep_others : Option KademliaId → Option KademliaId → List Contact → List Contact
unfolding has_id
keep_others sender me_id [] = []
keep_others sender me_id (c ∷ cs) =
    let rest = keep_others sender me_id cs in
    if has_id sender c.id || has_id me_id c.id then rest else c ∷ rest

-- The nearest contacts of the routing table, for the sender of a message.
unfoldable pub closest_for :
    UdpNetwork → RpcMessage → RoutingTable.RoutingTable → Panics (List Contact)
unfolding keep_others
closest_for n msg rt = do
  closest ← RoutingTable.find_closest_contacts rt msg.target_id bucket_size
  some (keep_others msg.sender.id n.me.id closest)

-- `updateRoutingTable`, up to the first unlock; the threads are what is left of `UpdateWithPing`.
unfoldable pub update_table :
    RoutingTable.RoutingTable → Contact → Panics (RoutingTable.RoutingTable × List Thread)
update_table rt c = do
  r ← try_add rt c true
  elim r.1 [ [] ↦ some r | th ∷ ths ↦ do s ← Eviction.advance true th r.0; some (s.0, s.1 ++ ths) ]

unfoldable pub update_routing_table : UdpNetwork → Contact → Panics (UdpNetwork × List Thread)
unfolding update_table
update_routing_table n c = elim n.rt [
  | none ↦ some (n, [])
  | some rt ↦
      if has_id n.me.id c.id
      then some (n, [])
      else (do r ← update_table rt c; some (record n { rt = some r.0 }, r.1))
]

-- The value that the node has for the target of a message.
unfoldable pub local_value : UdpNetwork → RpcMessage → Option Bytes
local_value n msg = do ds ← n.ds; target ← msg.target_id; DataStore.get ds target

-- The contacts that are sent in place of a value.
unfoldable pub contacts_instead : UdpNetwork → RpcMessage → Panics (List Contact)
unfolding closest_for
contacts_instead n msg = elim n.rt [
  | none ↦ some []
  | some rt ↦ elim msg.target_id [ none ↦ some [] | some t ↦ closest_for n msg rt ]
]

unfoldable pub find_data_answer : UdpNetwork → RpcMessage → Panics RpcMessage
unfolding local_value contacts_instead
find_data_answer n msg = elim (local_value n msg) [
  | some v ↦
      some (record (blank_message msg.transaction_id find_data_reply n.me) { payload = some v })
  | none ↦ do
    contacts ← contacts_instead n msg
    some (record (blank_message msg.transaction_id find_data_reply n.me) { contacts = contacts })
]

unfoldable pub contacts_of : UdpNetwork → RpcMessage → Panics (List Contact)
unfolding closest_for
contacts_of n msg = elim n.rt [ none ↦ some [] | some rt ↦ closest_for n msg rt ]

-- A message of an open transaction goes to its channel; `false` says that the channel is full, and
-- the thread of the handler waits for ever.
unfoldable pub deliver : UdpNetwork → RpcMessage → Option RpcMessage → UdpNetwork × Bool
deliver n msg none = (record n { pending = insert msg.transaction_id (some msg) n.pending }, true)
deliver n msg (some earlier) = (n, false)

module _ (cr : Crypto) (js : Json) where
  -- A STORE with a target and data, on a node with a store; an error is logged and dropped.
  unfoldable pub store_value : UdpNetwork → RpcMessage → Option UdpNetwork
  store_value n msg = elim n.ds [
    | none ↦ some n
    | some ds ↦ elim msg.target_id [
      | none ↦ some n
      | some key ↦ elim msg.payload [
        | none ↦ some n
        | some value ↦ do r ← DataStore.store cr js ds key value; some (record n { ds = some r.0 })
      ]
    ]
  ]

  -- A new request, by its type: the reply, if there is one.
  unfoldable pub dispatch :
      RpcType → UdpNetwork → RpcMessage → Option (UdpNetwork × Option RpcMessage)
  unfolding store_value contacts_of find_data_answer
  dispatch ping n msg = some (n, some (blank_message msg.transaction_id pong n.me))
  dispatch find_contact n msg = do
    contacts ← contacts_of n msg
    some (
      n,
      some (record (blank_message msg.transaction_id find_contact n.me) { contacts = contacts }),
    )
  dispatch find_data n msg = do reply ← find_data_answer n msg; some (n, some reply)
  dispatch store_rpc n msg = do
    n' ← store_value n msg
    some (n', some (blank_message msg.transaction_id store_reply n.me))
  dispatch _ n msg = some (n, none)

  -- The switch of `handleMessage`, after the sender is recorded.
  unfoldable pub answer : UdpNetwork → RpcMessage → Option (UdpNetwork × Option RpcMessage)
  unfolding deliver dispatch
  answer n msg = elim (lookup msg.transaction_id n.pending) [
    | some channel ↦ some ((deliver n msg channel).0, none)
    | none ↦ dispatch msg.rpc_type n msg
  ]

  -- The network, the reply and the threads that the handler leaves. A result `none` is a panic.
  unfoldable pub handle_message :
      UdpNetwork → RpcMessage → Option (UdpNetwork × Option RpcMessage × List Thread)
  unfolding update_routing_table answer
  handle_message n msg = do
    u ← update_routing_table n msg.sender
    r ← answer u.0 msg
    some (r.0, r.1, u.1)

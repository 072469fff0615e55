-- ===== src/Kademlia/DataLookup.antt =====
-- `LookupDataByID` of kademlia/kademlia.go: the value of a key, from the local store or from a node
-- of the network. The value of a node is taken only if its hash is the key, or the local store
-- validates it; otherwise the search goes on. A result `none` stands for a panic, for fuel
-- that ran out, and for a validation that comes to look up a record at this node, which may change
-- the node and never end (`node_validate`); `Rounds` shows that, for a key that no latest pointer
-- has, none of these happens. The lookup is the only writer of the routing table and of the store
-- here.
pub mod Genuine
pub mod Honest
pub mod Answers
pub mod Rounds
pub mod Returns
pub mod Pointer
pub mod Plain
use d7024e_lab.Kademlia.Id
use d7024e_lab.Kademlia.Shortlist
use d7024e_lab.Kademlia.RoutingTable
use d7024e_lab.Kademlia.DataStore
use d7024e_lab.Kademlia.Lookup
use d7024e_lab.Prelude.{
  Bool, List, Option, [], false, if◌then◌else◌, none, some, suc, true, zero, ℕ, ◌>>=◌, ◌∷◌,
}
use d7024e_lab.Kademlia.Bucket.{bucket_size}
use d7024e_lab.Kademlia.Contact.{Contact}
use d7024e_lab.Kademlia.DataStore.{DataStore}
use d7024e_lab.Kademlia.DataStore.Wired.{node_validate}
use d7024e_lab.Kademlia.Eviction.Safe.{probes}
use d7024e_lab.Kademlia.Id.{KademliaId}
use d7024e_lab.Kademlia.Id.Order.{value}
use d7024e_lab.Kademlia.Lookup.{Search, add_found, in_order}
use d7024e_lab.Kademlia.RoutingTable.{RoutingTable}
use d7024e_lab.Kademlia.Shortlist.{Shortlist}
use d7024e_lab.Prelude.Bytes.{Bytes}
use d7024e_lab.Registry.Crypto.{Crypto}
use d7024e_lab.Registry.Domain.{latest_pointer_dht_key_bytes}
use d7024e_lab.Registry.Outcome.{Result, err, failure, ok}
use d7024e_lab.Registry.Record.{Json, LatestPointer, parse_latest_pointer}

-- The network as a lookup sees it: what a contact answers in a round, where `none` is an error and
-- the empty value says that the contact does not have it, and the order of the answers of a round.
pub record DataNetwork : Type 0 where
  pub send_find_data_message : ℕ → KademliaId → Contact → Option (Bytes × List Contact)
  pub arrival : ℕ → ℕ → ℕ

-- Where the search stands after a result: it goes on, or a value was taken from a contact.
pub data Progress : Type 0 where
  going : Search → Progress
  found : RoutingTable.RoutingTable → Option DataStore.DataStore → Bytes → Contact → Progress

pub data Answer : Type 0 where
  retrieved : Bytes → Contact → Answer
  value_not_found : Answer
  no_target : Answer

pub record Retrieval : Type 0 where
  pub table : Option RoutingTable.RoutingTable
  pub store : Option DataStore.DataStore
  pub answer : Answer

-- A value whose hash is the key is kept in the local store; an error of `Store` is dropped.
unfoldable pub cache :
    Crypto
    → Json
    → Option DataStore.DataStore
    → KademliaId
    → Bytes
    → Option (Bool × Option DataStore.DataStore)
cache cr js none target value = some (true, none)
cache cr js (some ds) target value = do
  r ← DataStore.store cr js ds target value
  some (true, some r.0)

-- Any other value needs the consent of the local store, and is not kept.
unfoldable pub check :
    Crypto
    → Json
    → Option DataStore.DataStore
    → KademliaId
    → Bytes
    → Option (Bool × Option DataStore.DataStore)
unfolding node_validate
check cr js none target value = some (false, none)
check cr js (some ds) target value = elim (node_validate cr js ds target value) [
  | none ↦ none
  | some (ok _) ↦ some (true, some ds)
  | some (err _) ↦ some (false, some ds)
]

unfoldable pub judge :
    Crypto
    → Json
    → Option DataStore.DataStore
    → KademliaId
    → Bytes
    → Option (Bool × Option DataStore.DataStore)
unfolding cache check
judge cr js store target value =
    if Id.equals (Id.new_kademlia_id_from_data cr.sha256 value) target
    then cache cr js store target value
    else check cr js store target value

unfoldable pub accept : Search → Contact → Bytes → Bool × Option DataStore.DataStore → Progress
accept q c value (true, store) = found q.table store value c
accept q c value (false, store) = going q

-- The end of the lookup.
unfoldable pub report : Option DataStore.DataStore → Progress → Retrieval
report store (going q) = record { table = some q.table; store = store; answer = value_not_found }
report store (found table kept value from) = record {
  table = some table;
  store = kept;
  answer = retrieved value from;
}

-- `kademlia.DataStore.Get`
unfoldable pub get_local : Option DataStore.DataStore → KademliaId → Option Bytes
get_local none target = none
get_local (some ds) target = DataStore.get ds target

module _ (cr : Crypto) (js : Json) (me_id : Option KademliaId) (store : Option DataStore.DataStore)
    (network : DataNetwork) (target : KademliaId) where
  -- What a node that answered sent: a value, or the contacts that it knows.
  unfoldable pub take_answer : Search → Contact → Bytes → List Contact → Option Progress
  unfolding judge accept
  take_answer q c [] contacts = do
    shortlist ← add_found me_id q.shortlist contacts
    some (going (record q { shortlist = shortlist }))
  take_answer q c (b ∷ bs) contacts = do
    r ← judge cr js store target (b ∷ bs)
    some (accept q c (b ∷ bs) r)

  -- One result of a round.
  unfoldable pub receive_data : Search → Contact → Option (Bytes × List Contact) → Option Progress
  unfolding take_answer
  receive_data q c none =
      some (going (record q { shortlist = Shortlist.mark_unresponsive q.shortlist c.id }))
  receive_data q c (some (value, contacts)) = do
    table ← RoutingTable.add_contact q.table c
    take_answer (record { table = table; shortlist = Shortlist.mark_queried q.shortlist c.id }) c
        value contacts

  -- The results of round `n`, up to the first value that is taken.
  unfoldable pub receive_all_data : ℕ → Search → List Contact → Option Progress
  unfolding receive_data
  receive_all_data n q [] = some (going q)
  receive_all_data n q (c ∷ cs) =
      elim (receive_data q c (network.send_find_data_message n target c)) [
        | none ↦ none
        | some (going q') ↦ receive_all_data n q' cs
        | some (found table kept value from) ↦ some (found table kept value from)
      ]

  unfoldable pub probe_data : ℕ → Search → List Contact → Option Progress
  unfolding receive_all_data in_order
  probe_data n q probes = receive_all_data n q (in_order (network.arrival n) probes)

  -- The loop, from round `n`.
  unfoldable pub iterate_data : ℕ → ℕ → ℕ → Search → Option Progress
  unfolding probe_data
  iterate_data zero alpha n q = none
  iterate_data (suc fuel) alpha n q =
      elim (Shortlist.has_unqueried_in_top_k q.shortlist bucket_size) [
        | false ↦ some (going q)
        | true ↦ elim (Shortlist.get_closest_unqueried q.shortlist alpha bucket_size) [
          | [] ↦ some (going q)
          | c ∷ cs ↦ elim (probe_data n q (c ∷ cs)) [
            | none ↦ none
            | some (going q') ↦ iterate_data fuel alpha (suc n) q'
            | some (found table kept value from) ↦ some (found table kept value from)
          ]
        ]
      ]

  -- From the shortlist on.
  unfoldable pub search_from : ℕ → ℕ → Search → Option Retrieval
  unfolding report iterate_data
  search_from fuel alpha q = elim (Shortlist.len q.shortlist) [
    | zero ↦ some (report store (going q))
    | suc _ ↦ do p ← iterate_data fuel alpha 0 q; some (report store p)
  ]

-- The part that asks the network.
unfoldable pub search_network :
    Crypto
    → Json
    → Option KademliaId
    → Option DataStore.DataStore
    → Option DataNetwork
    → ℕ
    → ℕ
    → Option RoutingTable.RoutingTable
    → KademliaId
    → Option Retrieval
unfolding search_from
search_network cr js me_id store (some network) fuel alpha (some table) target = do
  q ← Lookup.start me_id table target
  search_from cr js me_id store network target fuel alpha q
search_network cr js me_id store network fuel alpha table target =
    some (record { table = table; store = store; answer = value_not_found })

unfoldable pub lookup_data_by_id :
    Crypto
    → Json
    → Contact
    → Option DataStore.DataStore
    → Option DataNetwork
    → ℕ
    → ℕ
    → Option RoutingTable.RoutingTable
    → Option KademliaId
    → Option Retrieval
unfolding get_local search_network
lookup_data_by_id cr js me store network fuel alpha table none =
    some (record { table = table; store = store; answer = no_target })
lookup_data_by_id cr js me store network fuel alpha table (some target) =
    elim (get_local store target) [
      | some value ↦ some (record { table = table; store = store; answer = retrieved value me })
      | none ↦ search_network cr js me.id store network fuel alpha table target
    ]

-- `LookupData`, for a hash in hex.
unfoldable pub lookup_data :
    Crypto
    → Json
    → Contact
    → Option DataStore.DataStore
    → Option DataNetwork
    → ℕ
    → ℕ
    → Option RoutingTable.RoutingTable
    → Bytes
    → Option Retrieval
unfolding lookup_data_by_id
lookup_data cr js me store network fuel alpha table hash =
    lookup_data_by_id cr js me store network fuel alpha table (some (Id.new_kademlia_id hash))

-- The end of `LookupLatestPointer`.
unfoldable pub parse_answer : Json → Answer → Result (LatestPointer × Contact)
parse_answer js (retrieved value from) = elim (parse_latest_pointer js value) [
  | ok lp ↦ ok (lp, from)
  | err e ↦ err failure
]
parse_answer js value_not_found = err failure
parse_answer js no_target = err failure

unfoldable pub lookup_latest_pointer :
    Crypto
    → Json
    → Contact
    → Option DataStore.DataStore
    → Option DataNetwork
    → ℕ
    → ℕ
    → Option RoutingTable.RoutingTable
    → Bytes
    → Bytes
    → Option (Retrieval × Result (LatestPointer × Contact))
unfolding parse_answer
lookup_latest_pointer cr js me store network fuel alpha table domain pkg = do
  r ←
      lookup_data_by_id cr js me store network fuel alpha table
        (some (latest_pointer_dht_key_bytes cr.sha256 domain pkg))
  some (r, parse_answer js r.answer)

-- ===== src/Kademlia/Lookup.antt =====
-- The iterative lookup of kademlia/kademlia.go: rounds of probes of the nearest candidates that were
-- not asked, whose answers feed the shortlist and the routing table. What the network answers in a
-- round, and the order in which the answers arrive, are parameters.
pub mod Valid
pub mod Probes
pub mod Answers
pub mod Rounds
pub mod Found
use d7024e_lab.Kademlia.Shortlist
use d7024e_lab.Kademlia.RoutingTable
use d7024e_lab.Prelude.{
  Bool, List, Option, Panics, [], false, length, none, some, suc, true, zero, ℕ, ◌>>=◌, ◌∷◌,
}
use d7024e_lab.Kademlia.Bucket.{bucket_size}
use d7024e_lab.Kademlia.Contact.{Contact}
use d7024e_lab.Kademlia.Eviction.Safe.{probes}
use d7024e_lab.Kademlia.Id.{KademliaId}
use d7024e_lab.Kademlia.RoutingTable.{RoutingTable}
use d7024e_lab.Kademlia.Shortlist.{Shortlist}

-- The routing table and the shortlist while a lookup runs.
pub record Search : Type 0 where
  pub table : RoutingTable.RoutingTable
  pub shortlist : Shortlist.Shortlist

-- The network as a lookup sees it: what a contact answers in a round, where `none` is an error, and
-- the order of the answers of a round.
pub record Network : Type 0 where
  pub send_find_contact_message : ℕ → KademliaId → Contact → Option (List Contact)
  pub arrival : ℕ → ℕ → ℕ

unfoldable pub insert_at : ℕ → Contact → List Contact → List Contact
insert_at zero c cs = c ∷ cs
insert_at (suc n) c [] = c ∷ []
insert_at (suc n) c (d ∷ ds) = d ∷ insert_at n c ds

-- The probes in the order in which their results come out of the channel. Every order is that of
-- some `pick`, the places at which they are put in from the last one on.
unfoldable pub in_order : (ℕ → ℕ) → List Contact → List Contact
unfolding insert_at
in_order pick [] = []
in_order pick (c ∷ cs) = insert_at (pick (length cs)) c (in_order pick cs)

-- `found.ID == nil || (kademlia.Me.ID != nil && found.ID.Equals(kademlia.Me.ID))`
unfoldable pub is_skipped : Option KademliaId → Option KademliaId → Bool
is_skipped me_id none = true
is_skipped me_id (some id) = Shortlist.is_own me_id id

-- The contacts of an answer.
unfoldable pub add_found :
    Option KademliaId → Shortlist.Shortlist → List Contact → Panics Shortlist.Shortlist
unfolding is_skipped
add_found me_id s [] = some s
add_found me_id s (c ∷ cs) = elim (is_skipped me_id c.id) [
  | true ↦ add_found me_id s cs
  | false ↦ do s' ← Shortlist.add s (c ∷ []); add_found me_id s' cs
]

-- One result of a round.
unfoldable pub receive :
    Option KademliaId → Search → Contact → Option (List Contact) → Panics Search
unfolding add_found
receive me_id q c none =
    some (record q { shortlist = Shortlist.mark_unresponsive q.shortlist c.id })
receive me_id q c (some found) = do
  table ← RoutingTable.add_contact q.table c
  shortlist ← add_found me_id (Shortlist.mark_queried q.shortlist c.id) found
  some (record { table = table; shortlist = shortlist })

module _ (me_id : Option KademliaId) (network : Network) (target : KademliaId) where
  -- The results of round `n`, in the order in which they arrive.
  unfoldable pub receive_all : ℕ → Search → List Contact → Panics Search
  unfolding receive
  receive_all n q [] = some q
  receive_all n q (c ∷ cs) = do
    q' ← receive me_id q c (network.send_find_contact_message n target c)
    receive_all n q' cs

  unfoldable pub probe : ℕ → Search → List Contact → Panics Search
  unfolding receive_all in_order
  probe n q probes = receive_all n q (in_order (network.arrival n) probes)

  -- The loop, from round `n`; the outer `none` means that the fuel ran out.
  unfoldable pub iterate : ℕ → ℕ → ℕ → Search → Option (Panics Search)
  unfolding probe
  iterate zero alpha n q = none
  iterate (suc fuel) alpha n q = elim (Shortlist.has_unqueried_in_top_k q.shortlist bucket_size) [
    | false ↦ some (some q)
    | true ↦ elim (Shortlist.get_closest_unqueried q.shortlist alpha bucket_size) [
      | [] ↦ some (some q)
      | c ∷ cs ↦ elim (probe n q (c ∷ cs)) [
        | none ↦ some none
        | some q' ↦ iterate fuel alpha (suc n) q'
      ]
    ]
  ]

-- The shortlist of the local candidates.
unfoldable pub start : Option KademliaId → RoutingTable.RoutingTable → KademliaId → Panics Search
start me_id table target = do
  initial ← RoutingTable.find_closest_contacts table (some target) bucket_size
  shortlist ← Shortlist.add (Shortlist.new_shortlist (some target) me_id) initial
  some (record { table = table; shortlist = shortlist })

-- The answer of the local routing table.
unfoldable pub find_local :
    RoutingTable.RoutingTable → KademliaId → Panics (RoutingTable.RoutingTable × List Contact)
find_local table target = do
  closest ← RoutingTable.find_closest_contacts table (some target) bucket_size
  some (table, closest)

-- The routing table after the loop, and the nearest contacts that answered.
unfoldable pub conclude :
    Option (Panics Search) → Option (Panics (RoutingTable.RoutingTable × List Contact))
conclude none = none
conclude (some none) = some none
conclude (some (some q)) =
    some (some (q.table, Shortlist.get_closest_queried q.shortlist bucket_size))

-- From the shortlist on: without a network, or with no candidate, the local answer.
unfoldable pub look_up_from :
    Option KademliaId
    → Option Network
    → ℕ
    → ℕ
    → KademliaId
    → Search
    → Option (Panics (RoutingTable.RoutingTable × List Contact))
unfolding conclude iterate find_local
look_up_from me_id none fuel alpha target q = some (find_local q.table target)
look_up_from me_id (some network) fuel alpha target q = elim (Shortlist.len q.shortlist) [
  | zero ↦ some (find_local q.table target)
  | suc _ ↦ conclude (iterate me_id network target fuel alpha 0 q)
]

unfoldable pub look_up :
    Option KademliaId
    → Option Network
    → ℕ
    → ℕ
    → RoutingTable.RoutingTable
    → KademliaId
    → Option (Panics (RoutingTable.RoutingTable × List Contact))
unfolding start look_up_from
look_up me_id network fuel alpha table target = elim (start me_id table target) [
  | none ↦ some none
  | some q ↦ look_up_from me_id network fuel alpha target q
]

abbrev pub keep_table :
    Option (Panics (RoutingTable.RoutingTable × List Contact))
    → Option (Panics (Option RoutingTable.RoutingTable × List Contact))
keep_table none = none
keep_table (some none) = some none
keep_table (some (some (table, closest))) = some (some (some table, closest))

-- A nil target, and a node with no routing table, find nothing.
unfoldable pub lookup_contact_by_id :
    Option KademliaId
    → Option Network
    → ℕ
    → ℕ
    → Option RoutingTable.RoutingTable
    → Option KademliaId
    → Option (Panics (Option RoutingTable.RoutingTable × List Contact))
unfolding look_up
lookup_contact_by_id me_id network fuel alpha table none = some (some (table, []))
lookup_contact_by_id me_id network fuel alpha none (some target) = some (some (none, []))
lookup_contact_by_id me_id network fuel alpha (some table) (some target) =
    keep_table (look_up me_id network fuel alpha table target)

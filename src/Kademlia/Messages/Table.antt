-- ===== src/Kademlia/Messages/Table.antt =====
-- Recording the sender of a message (kademlia/network.go) does not panic and keeps the routing table
-- valid.
use d7024e_lab.Kademlia.RoutingTable
use d7024e_lab.Kademlia.RoutingTable.Valid
use d7024e_lab.Kademlia.Eviction.Safe
use d7024e_lab.Kademlia.Contact
use d7024e_lab.Prelude.{
  Bool-cases, List, Option-cases, [], arith, inl, inr, none, refl, some, subst, true, ℕ, ◌++◌, ◌+◌,
  ◌∷◌, ◌≡◌, ◌≢◌, ◌≤◌,
}
use d7024e_lab.Kademlia.Contact.{Contact, IsTyped}
use d7024e_lab.Kademlia.Eviction.{Thread, try_add}
use d7024e_lab.Kademlia.Eviction.Arrivals.{try_add-Keeps}
use d7024e_lab.Kademlia.Eviction.Safe.{HasQueues, flag, probe_of, probes}
use d7024e_lab.Kademlia.Eviction.Steps.{advance-Keeps}
use d7024e_lab.Kademlia.Messages.{UdpNetwork, has_id, update_routing_table, update_table}
use d7024e_lab.Kademlia.RoutingTable.{RoutingTable}

-- The routing table, if there is one, is valid, and so are its replacement queues.
pub record IsValid (n : UdpNetwork) : Type 0 where
  pub table : (rt : RoutingTable.RoutingTable) → n.rt ≡ some rt → Valid.IsValid rt × HasQueues rt

-- What stays the same: all but the routing table.
pub record SameRest (n n' : UdpNetwork) : Type 0 where
  pub same_me : n'.me ≡ n.me
  pub same_ds : n'.ds ≡ n.ds
  pub same_pending : n'.pending ≡ n.pending
  pub keeps_table : n.rt ≢ none → n'.rt ≢ none

same_all : (n : UdpNetwork) → SameRest n n
same_all n = record { same_me = refl; same_ds = refl; same_pending = refl; keeps_table = λ k. k }

module _ (rt : RoutingTable.RoutingTable) (c : Contact.Contact) where
  counted :
      (rt' : RoutingTable.RoutingTable) (th : Thread) (ths : List Thread) (j : ℕ)
      → probes j (th ∷ ths) + flag rt j ≡ 0 + flag rt' j
      → probe_of j th ≤ flag rt' j
  unfolding probes
  counted rt' th ths j h =
      let p : probe_of j th + probes j ths + flag rt j ≡ 0 + flag rt' j = unfold probes in h in
      omega arith

  update_table_lem :
      Valid.IsValid rt
      → HasQueues rt
      → IsTyped c
      → (r : RoutingTable.RoutingTable × List Thread) × (update_table rt c ≡ some r)
        × Valid.IsValid r.0
        × HasQueues r.0
  unfolding update_table
  update_table_lem v q ty = let (r, e, k) = try_add-Keeps rt v q c true ty in by_threads r e k
    where
      by_threads :
          (r : RoutingTable.RoutingTable × List Thread)
          → try_add rt c true ≡ some r
          → Safe.Keeps rt (λ j. 0) r
          → (r' : RoutingTable.RoutingTable × List Thread) × (update_table rt c ≡ some r')
            × Valid.IsValid r'.0
            × HasQueues r'.0
      by_threads (rt', []) e k = ((rt', []), rw (update_table, e) refl, k.table, k.queues)
      by_threads (rt', th ∷ ths) e k =
          let (s, f, k') =
            advance-Keeps rt' k.table k.queues true th k.good.0
              (λ j. counted rt' th ths j (k.count j)) in
          ((s.0, s.1 ++ ths), rw (update_table, e, f) refl, k'.table, k'.queues)

pub update_routing_table_lem :
    (n : UdpNetwork) (c : Contact.Contact)
    → IsValid n
    → IsTyped c
    → (r : UdpNetwork × List Thread) × (update_routing_table n c ≡ some r)
      × IsValid r.0
      × SameRest n r.0
unfolding update_routing_table
update_routing_table_lem n c h ty = elim (Option-cases n.rt) [
  | inl e ↦ ((n, []), ground (arith, e), h, same_all n)
  | inr (rt, e) ↦ elim (Bool-cases (has_id n.me.id c.id)) [
    | inl f ↦ ((n, []), ground (arith, e, f), h, same_all n)
    | inr f ↦
        let (v, q) = h.table rt e in
        let (r, u, v', q') = update_table_lem rt c v q ty in
        (
          (record n { rt = some r.0 }, r.1),
          rw (update_routing_table, e, f, u) refl,
          record {
            table = λ rt' p.
                (let o : r.0 ≡ rt' = cc in (subst Valid.IsValid o v', subst HasQueues o q'));
          },
          record { same_me = refl; same_ds = refl; same_pending = refl; keeps_table = λ k q. cc },
        )
  ]
]

-- ===== src/Kademlia/Join/Ends.antt =====
-- `Join` of kademlia/kademlia.go ends with a valid routing table.
use d7024e_lab.Kademlia.Id
use d7024e_lab.Kademlia.RoutingTable
use d7024e_lab.Kademlia.RoutingTable.Valid
use d7024e_lab.Prelude.{
  Bool-cases, List, Option, Option-cases, false, inl, inr, length, refl, some, suc, zero, ℕ, ◌<◌,
  ◌≡◌,
}
use d7024e_lab.Kademlia.Contact.{Contact, key}
use d7024e_lab.Kademlia.Id.{IsId, KademliaId}
use d7024e_lab.Kademlia.Join.{
  generate_random_id_for_bucket, is_self, join, join_known, joined, look, look_self, refresh,
  refresh_all, table_after,
}
use d7024e_lab.Kademlia.Join.Random.{generate_random_id_for_bucket_lem}
use d7024e_lab.Kademlia.Lookup.{Network}
use d7024e_lab.Kademlia.Lookup.Answers.{IsConfined}
use d7024e_lab.Kademlia.Lookup.Found.{look_up_lem}
use d7024e_lab.Kademlia.Lookup.Valid.{Covers, IsPeer, after_add-Covers}
use d7024e_lab.Kademlia.RoutingTable.{RoutingTable}
use d7024e_lab.Kademlia.RoutingTable.Valid.{add_contact-after_add, after_add}
use d7024e_lab.Prelude.Bytes.{Bytes}

module _ (names : List Bytes) (network : KademliaId → Network)
    (confined : (t : KademliaId) → IsConfined names (network t) t) (rolls : ℕ → ℕ → ℕ)
    (fuel alpha : ℕ) (enough : length names < fuel) where
  abbrev networks : KademliaId → Option Network
  networks t = some (network t)

  module _ (me_id : KademliaId) (h : IsId me_id) where
    look_lem :
        (table : RoutingTable.RoutingTable) (t : KademliaId)
        → Valid.IsValid table
        → Covers names table
        → IsId t
        → (table' : RoutingTable.RoutingTable) × (look networks rolls fuel (suc alpha) me_id table t
            ≡ some (some table'))
          × Valid.IsValid table'
          × Covers names table'
    unfolding look table_after
    look_lem table t v k ht =
        let (table', closest, p, v', k', a) =
          look_up_lem names t (some me_id) table v ht k (network t) (confined t) fuel alpha
            enough in
        (table', rw p refl, v', k')

    refresh_lem :
        (n i : ℕ) (table : RoutingTable.RoutingTable)
        → Valid.IsValid table
        → Covers names table
        → (table' : RoutingTable.RoutingTable) × (refresh networks rolls fuel
              (suc alpha)
              me_id
              n
              i
              table
            ≡ some (some table'))
          × Valid.IsValid table'
          × Covers names table'
    unfolding refresh
    refresh_lem zero i table v k = (table, refl, v, k)
    refresh_lem (suc n) i table v k = elim (Bool-cases (RoutingTable.is_bucket_empty table i)) [
      | inr e ↦
          let (table', p, v', k') = refresh_lem n (suc i) table v k in
          (table', rw (refresh, e) p, v', k')
      | inl e ↦
          let target = generate_random_id_for_bucket (some me_id) (rolls i) i in
          let (table₁, p, v₁, k₁) =
            look_lem table target v k (generate_random_id_for_bucket_lem me_id (rolls i) i h).0 in
          let (table₂, p', v₂, k₂) = refresh_lem n (suc i) table₁ v₁ k₁ in
          (table₂, rw (refresh, e, p) p', v₂, k₂)
    ]

    look_self_lem :
        (table : RoutingTable.RoutingTable)
        → Valid.IsValid table
        → Covers names table
        → (table' : RoutingTable.RoutingTable) × (look_self networks rolls fuel
              (suc alpha)
              (some me_id)
              table
            ≡ some (some table'))
          × Valid.IsValid table'
          × Covers names table'
    unfolding look_self refresh_all
    look_self_lem table v k =
        let (table₁, p, v₁, k₁) = look_lem table me_id v k h in
        elim (Option-cases (RoutingTable.get_closest_non_empty_bucket_index table₁)) [
          | inl e ↦ (table₁, rw (look_self, p, refresh_all, e) refl, v₁, k₁)
          | inr (closest, e) ↦
              let (table₂, p', v₂, k₂) = refresh_lem closest 0 table₁ v₁ k₁ in
              (table₂, rw (look_self, p, refresh_all, e) p', v₂, k₂)
        ]

    -- A node with an identifier and a valid routing table, in a network whose nodes, as the table,
    -- tell of finitely many named nodes only, joins it through any of them but itself: with fuel
    -- above the number of nodes every lookup ends, whatever the nodes answer, whichever fail, and
    -- whatever the random numbers are, and the routing table is valid and tells of the named nodes
    -- only.
    pub join_lem :
        (table : RoutingTable.RoutingTable) (bootstrap : Contact)
        → Valid.IsValid table
        → Covers names table
        → IsPeer names bootstrap
        → Id.equals (key bootstrap) me_id ≡ false
        → (table' : RoutingTable.RoutingTable) × (join networks rolls fuel
              (suc alpha)
              (some me_id)
              (some table)
              bootstrap
            ≡ some (some (joined table')))
          × Valid.IsValid table'
          × Covers names table'
    unfolding join join_known is_self
    join_lem table bootstrap v k hb other =
        let (p, v₁) = add_contact-after_add table bootstrap v hb.known in
        let (table₂, p', v₂, k₂) =
          look_self_lem (after_add table bootstrap) v₁
            (after_add-Covers names table bootstrap k hb) in
        (table₂, rw (join, hb.known.has_id, join_known, is_self, other, p, p') refl, v₂, k₂)

-- ===== src/Kademlia/Join.antt =====
-- `Join` of kademlia/kademlia.go: the bootstrap contact, the lookup of the local node, and the
-- refresh of the empty buckets that are farther than the closest neighbour's, with random
-- identifiers made for them. The network of every lookup and the random numbers are parameters.
pub mod Random
pub mod Ends
use d7024e_lab.Kademlia.Id
use d7024e_lab.Kademlia.RoutingTable
use d7024e_lab.Prelude.{
  Bool, List, Option, Panics, [], bit_xor, false, if◌then◌else◌, leb, length, none, some, suc, true,
  zero, ℕ, ◌%◌, ◌+◌, ◌-◌, ◌/◌, ◌==◌, ◌^◌, ◌∷◌,
}
use d7024e_lab.Kademlia.Contact.{Contact}
use d7024e_lab.Kademlia.Id.{KademliaId}
use d7024e_lab.Kademlia.Lookup.{Network, look_up}
use d7024e_lab.Kademlia.RoutingTable.{RoutingTable}

-- `target[byteIdx] |= (1 << uint(b))`
unfoldable pub set_bit : ℕ → ℕ → ℕ
set_bit b x = if x / 2 ^ b % 2 == 1 then x else x + 2 ^ b

-- `target[byteIdx] &= ^(1 << uint(b))`
unfoldable pub clear_bit : ℕ → ℕ → ℕ
clear_bit b x = if x / 2 ^ b % 2 == 1 then x - 2 ^ b else x

-- The loop over the `n` bits below the flipped one; `rolls` are the results of `rand.Intn`.
unfoldable pub randomize_low : ℕ → (ℕ → ℕ) → ℕ → ℕ
unfolding set_bit clear_bit
randomize_low zero rolls x = x
randomize_low (suc n) rolls x =
    let y = randomize_low n rolls x in if rolls n % 2 == 1 then set_bit n y else clear_bit n y

-- The identifier from the byte with the flipped bit on, which is `n` bytes away.
unfoldable pub randomize_from : ℕ → ℕ → (ℕ → ℕ) → KademliaId → KademliaId
unfolding randomize_low
randomize_from n offset rolls [] = []
randomize_from zero offset rolls (x ∷ xs) =
    randomize_low offset rolls (bit_xor x (2 ^ offset))
    ∷ Id.new_random_from (length xs) (λ i. rolls (offset + i))
randomize_from (suc n) offset rolls (x ∷ xs) = x ∷ randomize_from n offset rolls xs

unfoldable pub generate_random_id_for_bucket : Option KademliaId → (ℕ → ℕ) → ℕ → KademliaId
unfolding randomize_from
generate_random_id_for_bucket none rolls index = Id.new_random_kademlia_id rolls
generate_random_id_for_bucket (some me_id) rolls index =
    if leb RoutingTable.bucket_count index
    then Id.new_random_kademlia_id rolls
    else randomize_from (index / 8) (7 - index % 8) rolls me_id

-- The errors of `Join`, and the routing table after it.
pub data JoinResult : Type 0 where
  no_bootstrap_id self_bootstrap no_routing_table : JoinResult
  joined : RoutingTable.RoutingTable → JoinResult

-- `kademlia.Me.ID != nil && bootstrap.ID.Equals(kademlia.Me.ID)`
unfoldable pub is_self : Option KademliaId → KademliaId → Bool
is_self none id = false
is_self (some me_id) id = Id.equals id me_id

-- The table that a lookup leaves.
unfoldable pub table_after :
    Option (Panics (RoutingTable.RoutingTable × List Contact))
    → Option (Panics RoutingTable.RoutingTable)
table_after none = none
table_after (some none) = some none
table_after (some (some (table, closest))) = some (some table)

abbrev pub finish : Option (Panics RoutingTable.RoutingTable) → Option (Panics JoinResult)
finish none = none
finish (some none) = some none
finish (some (some table)) = some (some (joined table))

-- Lookups run with `fuel`. The network is that of the lookup for an identifier.
module _ (network : KademliaId → Option Network) (rolls : ℕ → ℕ → ℕ) (fuel alpha : ℕ) where
  module _ (me_id : KademliaId) where
    unfoldable pub look :
        RoutingTable.RoutingTable → KademliaId → Option (Panics RoutingTable.RoutingTable)
    unfolding table_after
    look table target = table_after (look_up (some me_id) (network target) fuel alpha table target)

    -- The loop over the buckets, from bucket `i` with `n` to go.
    unfoldable pub refresh :
        ℕ → ℕ → RoutingTable.RoutingTable → Option (Panics RoutingTable.RoutingTable)
    unfolding look
    refresh zero i table = some (some table)
    refresh (suc n) i table = elim (RoutingTable.is_bucket_empty table i) [
      | false ↦ refresh n (suc i) table
      | true ↦ elim (look table (generate_random_id_for_bucket (some me_id) (rolls i) i)) [
        | none ↦ none
        | some none ↦ some none
        | some (some table') ↦ refresh n (suc i) table'
      ]
    ]

    -- The loop up to the bucket of the closest neighbour, where there is one.
    unfoldable pub refresh_all :
        RoutingTable.RoutingTable → Option (Panics RoutingTable.RoutingTable)
    unfolding refresh
    refresh_all table = elim (RoutingTable.get_closest_non_empty_bucket_index table) [
      | none ↦ some (some table)
      | some closest ↦ refresh closest 0 table
    ]

  -- After the bootstrap contact is recorded.
  unfoldable pub look_self :
      Option KademliaId → RoutingTable.RoutingTable → Option (Panics RoutingTable.RoutingTable)
  unfolding refresh_all
  look_self none table = some (some table)
  look_self (some me_id) table = elim (look me_id table me_id) [
    | none ↦ none
    | some none ↦ some none
    | some (some table') ↦ refresh_all me_id table'
  ]

  unfoldable pub join_known :
      Option KademliaId
      → Option RoutingTable.RoutingTable
      → Contact
      → KademliaId
      → Option (Panics JoinResult)
  unfolding look_self
  join_known me_id table bootstrap id = elim (is_self me_id id) [
    | true ↦ some (some self_bootstrap)
    | false ↦ elim table [
      | none ↦ some (some no_routing_table)
      | some rt ↦ elim (RoutingTable.add_contact rt bootstrap) [
        | none ↦ some none
        | some rt' ↦ finish (look_self me_id rt')
      ]
    ]
  ]

  unfoldable pub join :
      Option KademliaId → Option RoutingTable.RoutingTable → Contact → Option (Panics JoinResult)
  unfolding join_known
  join me_id table bootstrap = elim bootstrap.id [
    | none ↦ some (some no_bootstrap_id)
    | some id ↦ join_known me_id table bootstrap id
  ]

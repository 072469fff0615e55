-- ===== src/Kademlia/Publish/Sent.antt =====
-- What a node sends when it stores a value or replicates its values (kademlia/kademlia.go).
use d7024e_lab.Kademlia.DataStore
use d7024e_lab.Kademlia.RoutingTable
use d7024e_lab.Kademlia.RoutingTable.Valid
use d7024e_lab.Prelude.{
  All, Bool-cases, In, List, Option, [], ap, arith, false, inl, inr, length, refl, some, subst, suc,
  true, ℕ, ◌<◌, ◌∷◌, ◌≡◌, ◌≤◌,
}
use d7024e_lab.Kademlia.Contact.{Contact, key}
use d7024e_lab.Kademlia.DataStore.{DataStore}
use d7024e_lab.Kademlia.Id.{IsId, KademliaId}
use d7024e_lab.Kademlia.Lookup.{Network, lookup_contact_by_id}
use d7024e_lab.Kademlia.Lookup.Answers.{IsConfined}
use d7024e_lab.Kademlia.Lookup.Found.{IsAnswer, lookup_contact_by_id_lem}
use d7024e_lab.Kademlia.Lookup.Valid.{Covers}
use d7024e_lab.Kademlia.Publish.{
  Node, StoreMessage, is_me, replicate_keys, send_after, send_all, send_to_closest,
}
use d7024e_lab.Kademlia.RoutingTable.{RoutingTable}
use d7024e_lab.Prelude.Bytes.{Bytes}
use d7024e_lab.Registry.Outcome.{Result, ok}

-- A message for every contact but the node itself, and none else.
pub record IsDelivery (me_id : Option KademliaId) (key : KademliaId) (data' : Bytes)
    (closest : List Contact) (sent : List StoreMessage) : Type 0 where
  pub bounded : length sent ≤ length closest
  pub addressed :
      All
        (λ m.
          (m.key ≡ key)
          × (m.data' ≡ data')
          × In m.receiver closest
          × (is_me me_id m.receiver.id ≡ false))
        sent
  pub complete :
      (c : Contact)
      → In c closest
      → is_me me_id c.id ≡ false
      → In (record { receiver = c; key = key; data' = data' }) sent

module _ (me_id : Option KademliaId) (key : KademliaId) (data' : Bytes) where
  to_more :
      (c : Contact) (closest : List Contact) (sent : List StoreMessage)
      → IsDelivery me_id key data' closest sent
      → All
          (λ m.
            (m.key ≡ key)
            × (m.data' ≡ data')
            × In m.receiver (c ∷ closest)
            × (is_me me_id m.receiver.id ≡ false))
          sent
  to_more c closest sent h = weaken sent h.addressed
    where
      weaken :
          (ms : List StoreMessage)
          → All
              (λ m.
                (m.key ≡ key)
                × (m.data' ≡ data')
                × In m.receiver closest
                × (is_me me_id m.receiver.id ≡ false))
              ms
          → All
              (λ m.
                (m.key ≡ key)
                × (m.data' ≡ data')
                × In m.receiver (c ∷ closest)
                × (is_me me_id m.receiver.id ≡ false))
              ms
      weaken [] a = tt
      weaken (m ∷ ms) (a, as') = ((a.0, a.1, inr a.2, a.3), weaken ms as')

  pub send_all-IsDelivery :
      (closest : List Contact)
      → IsDelivery me_id key data' closest (send_all me_id key data' closest)
  unfolding send_all
  send_all-IsDelivery [] = record {
    bounded = omega arith;
    addressed = tt;
    complete = λ c i o. absurd i.1;
  }
  send_all-IsDelivery (c ∷ cs) =
      let rest = send_all-IsDelivery cs in
      elim (Bool-cases (is_me me_id c.id)) [
        | inl e ↦ rw e (record {
          bounded = omega (arith, rest.bounded);
          addressed = to_more c cs (send_all me_id key data' cs) rest;
          complete = λ d i o. elim i [
            | inl p ↦
                absurd
                  (let q : is_me me_id d.id ≡ true = subst (λ x. is_me me_id x.id ≡ true) p e in cc)
            | inr j ↦ rest.complete d j o
          ];
        })
        | inr e ↦ rw e (record {
          bounded = omega (arith, rest.bounded);
          addressed = ((refl, refl, inl refl, e), to_more c cs (send_all me_id key data' cs) rest);
          complete = λ d i o. elim i [
            | inl p ↦ inl (ap (λ x. record { receiver = x; key = key; data' = data' }) p)
            | inr j ↦ inr (rest.complete d j o)
          ];
        })
      ]

-- A node with a routing table.
abbrev pub node_of :
    Option KademliaId → RoutingTable.RoutingTable → Option DataStore.DataStore → Node
node_of me_id table ds = record { me_id = me_id; table = some table; data_store = ds }

-- The lookup of the key, from the routing table `table`, leaves `table'` and gives `closest`: the
-- value went to these, the node itself excepted, and to no other.
pub record Delivered (net : KademliaId → Network) (fuel alpha : ℕ) (me_id : Option KademliaId)
    (key : KademliaId) (data' : Bytes) (table table' : RoutingTable.RoutingTable)
    (sent : List StoreMessage) : Type 0 where
  pub closest : List Contact
  pub looked_up :
      lookup_contact_by_id me_id (some (net key)) fuel alpha (some table) (some key)
      ≡ some (some (some table', closest))
  pub is_answer : IsAnswer me_id (net key) key fuel alpha table closest
  pub delivery : IsDelivery me_id key data' closest sent

-- One delivery for every key, of the value that the store has for it, each from the routing table
-- that the one before left.
unfoldable pub AllDelivered :
    (KademliaId → Network)
    → ℕ
    → ℕ
    → Option KademliaId
    → DataStore.DataStore
    → List KademliaId
    → RoutingTable.RoutingTable
    → RoutingTable.RoutingTable
    → List (List StoreMessage)
    → Type 0
AllDelivered net fuel alpha me_id ds [] table last [] = table ≡ last
AllDelivered net fuel alpha me_id ds [] table last (s ∷ ss) = ⊥
AllDelivered net fuel alpha me_id ds (k ∷ ks) table last [] = ⊥
AllDelivered net fuel alpha me_id ds (k ∷ ks) table last (s ∷ ss) =
    (v : Bytes) × (table' : RoutingTable.RoutingTable) × (DataStore.get ds k ≡ some v)
    × Delivered net fuel alpha me_id k v table table' s
    × AllDelivered net fuel alpha me_id ds ks table' last ss

-- What a node with a store does with a value that it keeps: it sends the value, and leaves a valid
-- routing table that tells of the named nodes only.
pub record IsBroadcast (net : KademliaId → Network) (fuel alpha : ℕ) (names : List Bytes)
    (me_id : Option KademliaId) (kept : DataStore.DataStore) (key : KademliaId) (data' : Bytes)
    (table : RoutingTable.RoutingTable)
    (result : Option (Node × List StoreMessage × Result (Unit {0}))) : Type 0 where
  pub table' : RoutingTable.RoutingTable
  pub sent : List StoreMessage
  pub is_result : result ≡ some (node_of me_id table' (some kept), sent, ok tt)
  pub table_valid : Valid.IsValid table'
  pub covered : Covers names table'
  pub delivered : Delivered net fuel alpha me_id key data' table table' sent

-- A network that tells of the named nodes only.
module _ (names : List Bytes) (net : KademliaId → Network)
    (confined : (t : KademliaId) → IsConfined names (net t) t) (me_id : Option KademliaId)
    (fuel alpha : ℕ) (enough : length names < fuel) where
  pub send_to_closest_lem :
      (table : RoutingTable.RoutingTable) (ds : Option DataStore.DataStore) (key : KademliaId)
      (data' : Bytes)
      → Valid.IsValid table
      → Covers names table
      → IsId key
      → (table' : RoutingTable.RoutingTable) × (sent : List StoreMessage) × (send_to_closest
            (some net)
            fuel
            (suc alpha)
            (node_of me_id table ds)
            key
            data'
            net
          ≡ some (node_of me_id table' ds, sent))
        × Valid.IsValid table'
        × Covers names table'
        × Delivered net fuel (suc alpha) me_id key data' table table' sent
  unfolding send_to_closest send_after
  send_to_closest_lem table ds key data' v k hk =
      let (table', closest, p, v', k', a) =
        lookup_contact_by_id_lem names key me_id table v hk k (net key) (confined key) fuel alpha
          enough in
      (
        table',
        send_all me_id key data' closest,
        rw p refl,
        v',
        k',
        record {
          closest = closest;
          looked_up = p;
          is_answer = a;
          delivery = send_all-IsDelivery me_id key data' closest;
        },
      )

  pub replicate_keys_lem :
      (ds : DataStore.DataStore) (keys : List KademliaId) (table : RoutingTable.RoutingTable)
      → Valid.IsValid table
      → Covers names table
      → All (λ k. IsId k × ((v : Bytes) × (DataStore.get ds k ≡ some v))) keys
      → (table' : RoutingTable.RoutingTable) × (rounds : List (List StoreMessage)) × (replicate_keys
            (some net)
            fuel
            (suc alpha)
            net
            ds
            (node_of me_id table (some ds))
            keys
          ≡ some (node_of me_id table' (some ds), rounds))
        × Valid.IsValid table'
        × Covers names table'
        × AllDelivered net fuel (suc alpha) me_id ds keys table table' rounds
  unfolding replicate_keys AllDelivered
  replicate_keys_lem ds [] table v k h = (table, [], refl, v, k, refl)
  replicate_keys_lem ds (key ∷ keys) table v k h =
      let (i, (value, g)) = h.0 in
      let (table₁, sent, p, v₁, k₁, d) = send_to_closest_lem table (some ds) key value v k i in
      let (table₂, rounds, p', v₂, k₂, ds') = replicate_keys_lem ds keys table₁ v₁ k₁ h.1 in
      (
        table₂,
        sent ∷ rounds,
        rw (replicate_keys, g, p, p') refl,
        v₂,
        k₂,
        (value, table₁, g, d, ds'),
      )

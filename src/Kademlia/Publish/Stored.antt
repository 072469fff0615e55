-- ===== src/Kademlia/Publish/Stored.antt =====
-- `StoreWithKey` and `Replicate` of kademlia/kademlia.go as a whole.
use d7024e_lab.Kademlia.DataStore
use d7024e_lab.Kademlia.RoutingTable
use d7024e_lab.Kademlia.RoutingTable.Valid
use d7024e_lab.Prelude.{
  All, Bool-cases, List, Option, [], false, inl, inr, length, map, refl, some, suc, true, ℕ, ◌<◌,
  ◌∷◌, ◌≡◌,
}
use d7024e_lab.Kademlia.Contact.{key}
use d7024e_lab.Kademlia.DataStore.{DataStore, too_large}
use d7024e_lab.Kademlia.DataStore.Settled.{IsPlain, node_store-IsPlain}
use d7024e_lab.Kademlia.DataStore.Wired.{node_store-some}
use d7024e_lab.Kademlia.Id.{IsId, KademliaId}
use d7024e_lab.Kademlia.Lookup.{Network}
use d7024e_lab.Kademlia.Lookup.Answers.{IsConfined}
use d7024e_lab.Kademlia.Lookup.Valid.{Covers}
use d7024e_lab.Kademlia.Publish.{
  Node, StoreMessage, broadcast, force_local, replicate_all, sent_ok, store_at, store_local,
  store_with_key, store_with_key_force,
}
use d7024e_lab.Kademlia.Publish.Sent.{
  AllDelivered, IsBroadcast, node_of, replicate_keys_lem, send_to_closest_lem,
}
use d7024e_lab.Kademlia.RoutingTable.{RoutingTable}
use d7024e_lab.Prelude.Bytes.{Bytes, bytes_eq, bytes_eq_self}
use d7024e_lab.Prelude.Bytes.Dict.{Dict, insert, lookup}
use d7024e_lab.Registry.Crypto.{Crypto}
use d7024e_lab.Registry.Outcome.{Error, Result, err}
use d7024e_lab.Registry.Record.{Json}

-- Every key of a map is found in it.
keys_found : (m : Dict Bytes) → All (λ k. (v : Bytes) × (lookup k m ≡ some v)) (map (λ e. e.0) m)
unfolding lookup
keys_found [] = tt
keys_found ((j, w) ∷ m) = ((w, rw (bytes_eq_self j) refl), weaken (map (λ e. e.0) m) (keys_found m))
  where
    weaken :
        (ks : List Bytes)
        → All (λ k. (v : Bytes) × (lookup k m ≡ some v)) ks
        → All (λ k. (v : Bytes) × (lookup k ((j, w) ∷ m) ≡ some v)) ks
    weaken [] h = tt
    weaken (k ∷ ks) ((v, e), h) = elim (Bool-cases (bytes_eq j k)) [
      | inl q ↦ ((w, rw q refl), weaken ks h)
      | inr q ↦ ((v, rw q e), weaken ks h)
    ]

All-both : (P Q : Bytes → Type 0) (ks : List Bytes) → All P ks → All Q ks → All (λ k. P k × Q k) ks
All-both P Q [] p q = tt
All-both P Q (k ∷ ks) p q = ((p.0, q.0), All-both P Q ks p.1 q.1)

-- What `StoreWithKey` does on a node with a store: the value is refused, or kept and sent.
pub data StoreOutcome (cr : Crypto) (js : Json) (net : KademliaId → Network) (fuel alpha : ℕ)
    (names : List Bytes) (me_id : Option KademliaId) (ds : DataStore.DataStore) (key : KademliaId)
    (data' : Bytes) (table : RoutingTable.RoutingTable)
    (result : Option (Node × List StoreMessage × Result (Unit {0}))) : Type 0 where
  refused :
      (e : Error)
      → DataStore.store cr js ds key data' ≡ some (ds, err e)
      → result ≡ some (node_of me_id table (some ds), [], err e)
      → StoreOutcome cr js net fuel alpha names me_id ds key data' table result
  accepted :
      bytes_eq (cr.sha256 data') key ≡ true
      → too_large ds.max_val_size data' ≡ false
      → IsBroadcast net fuel alpha names me_id
          (record ds { entries = insert key data' ds.entries })
          key
          data'
          table
          result
      → StoreOutcome cr js net fuel alpha names me_id ds key data' table result

module _ (cr : Crypto) (js : Json) (names : List Bytes) (net : KademliaId → Network)
    (confined : (t : KademliaId) → IsConfined names (net t) t) (me_id : Option KademliaId)
    (fuel alpha : ℕ) (enough : length names < fuel) where
  broadcast_lem :
      (ds : DataStore.DataStore) (table : RoutingTable.RoutingTable) (key : KademliaId)
      (data' : Bytes)
      → Valid.IsValid table
      → Covers names table
      → IsId key
      → IsBroadcast net fuel (suc alpha) names me_id ds key data' table (
          sent_ok (broadcast (some net) fuel (suc alpha) (node_of me_id table (some ds)) key data'))
  unfolding broadcast
  broadcast_lem ds table key data' v k hk =
      let (table', sent, p, v', k', d) =
        send_to_closest_lem names net confined me_id fuel alpha enough table (some ds) key data' v k
          hk in
      record {
        table' = table';
        sent = sent;
        is_result = rw (broadcast, p) refl;
        table_valid = v';
        covered = k';
        delivered = d;
      }

  -- A node with a store and a valid routing table, in a network that tells of finitely many named
  -- nodes only, stores a value that is not empty and no latest pointer of its key. Either the call
  -- returns the error of the store, sends nothing, and leaves the node as it was; or the hash of the
  -- value is the key and the store has no limit that the value is above: then the call returns
  -- without an error, the store has the value under the key and is else as it was, and the value is
  -- sent to every contact that the lookup of the key gives, but to the node itself, and to no other.
  -- The routing table stays valid and tells of the named nodes only.
  pub store_with_key_lem :
      (ds : DataStore.DataStore) (table : RoutingTable.RoutingTable) (key : KademliaId) (b : ℕ)
      (bs : Bytes)
      → Valid.IsValid table
      → Covers names table
      → IsId key
      → IsPlain cr js key (b ∷ bs)
      → StoreOutcome cr js net fuel (suc alpha) names me_id ds key (b ∷ bs) table (
          store_with_key
            (some net)
            fuel
            (suc alpha)
            cr
            js
            (node_of me_id table (some ds))
            (some key)
            (b ∷ bs))
  unfolding store_with_key store_at store_local
  store_with_key_lem ds table key b bs v k hk plain =
      elim (node_store-IsPlain cr js ds key (b ∷ bs) plain) [
        | inl (x, e) ↦
            refused x (node_store-some cr js ds key (b ∷ bs) (ds, err x) e)
              (rw (store_with_key, store_at, store_local, e) refl)
        | inr (e, g, l) ↦ accepted g l (
            rw (store_with_key, store_at, store_local, e)
              (broadcast_lem (record ds { entries = insert key (b ∷ bs) ds.entries }) table key
                (b ∷ bs) v k hk))
      ]

  -- A node with a store and a valid routing table, in a network that tells of finitely many named
  -- nodes only, stores a value that is not empty under a key by force: the call returns without an
  -- error, the store has the value under the key, whatever it is, and the value is sent to every
  -- contact that the lookup of the key gives, but to the node itself, and to no other. The routing
  -- table stays valid and tells of the named nodes only.
  pub store_with_key_force_lem :
      (ds : DataStore.DataStore) (table : RoutingTable.RoutingTable) (key : KademliaId) (b : ℕ)
      (bs : Bytes)
      → Valid.IsValid table
      → Covers names table
      → IsId key
      → IsBroadcast net fuel
          (suc alpha)
          names
          me_id
          (record ds { entries = insert key (b ∷ bs) ds.entries })
          key
          (b ∷ bs)
          table
          (store_with_key_force
            (some net)
            fuel
            (suc alpha)
            cr
            js
            (node_of me_id table (some ds))
            (some key)
            (b ∷ bs))
  unfolding store_with_key_force force_local DataStore.store_unchecked
  store_with_key_force_lem ds table key b bs v k hk =
      broadcast_lem (record ds { entries = insert key (b ∷ bs) ds.entries }) table key (b ∷ bs) v k
        hk

  -- A node with a store, whose keys are identifiers, and a valid routing table, in a network that
  -- tells of finitely many named nodes only, replicates what it has: the call returns, and for every
  -- key of the store in turn the value under it is sent to every contact that the lookup of the key
  -- gives, but to the node itself, and to no other. The store does not change, and the
  -- routing table stays valid and tells of the named nodes only.
  pub replicate_all_lem :
      (ds : DataStore.DataStore) (table : RoutingTable.RoutingTable)
      → Valid.IsValid table
      → Covers names table
      → All IsId (DataStore.get_all_keys ds)
      → (table' : RoutingTable.RoutingTable) × (rounds : List (List StoreMessage)) × (replicate_all
            (some net)
            fuel
            (suc alpha)
            (node_of me_id table (some ds))
          ≡ some (node_of me_id table' (some ds), rounds))
        × Valid.IsValid table'
        × Covers names table'
        × AllDelivered net fuel (suc alpha) me_id ds (DataStore.get_all_keys ds) table table' rounds
  unfolding replicate_all DataStore.get_all_keys DataStore.get
  replicate_all_lem ds table v k h =
      replicate_keys_lem names net confined me_id fuel alpha enough ds (map (λ e. e.0) ds.entries)
        table v k
        (All-both IsId (λ j. (v : Bytes) × (lookup j ds.entries ≡ some v)) _ h
          (keys_found ds.entries))

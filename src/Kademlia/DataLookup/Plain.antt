-- ===== src/Kademlia/DataLookup/Plain.antt =====
-- A data lookup of a key that no latest pointer has (kademlia/kademlia.go): the local store is not
-- asked to validate a chain of records, so that the lookup does not call itself by the fetcher.
use d7024e_lab.Kademlia.DataStore
use d7024e_lab.Kademlia.Id
use d7024e_lab.Kademlia.RoutingTable
use d7024e_lab.Prelude.{
  Bool, Option, [], false, inl, inr, none, refl, some, sym, true, ℕ, ◌∙◌, ◌≡◌, ◌≢◌, ◌⊎◌,
}
use d7024e_lab.Kademlia.Contact.{Contact}
use d7024e_lab.Kademlia.DataLookup.{
  Answer, DataNetwork, Retrieval, cache, get_local, lookup_data_by_id, no_target, retrieved,
  value_not_found,
}
use d7024e_lab.Kademlia.DataLookup.Genuine.{IsGenuine, addressed, consented}
use d7024e_lab.Kademlia.DataLookup.Honest.{IsHonest, lookup_data_by_id-IsHonest}
use d7024e_lab.Kademlia.DataLookup.Pointer.{equal_hash}
use d7024e_lab.Kademlia.DataStore.{DataStore, store, too_large}
use d7024e_lab.Kademlia.DataStore.Settled.{IsPlain, store-IsPlain, validate-accepts}
use d7024e_lab.Kademlia.Id.{KademliaId}
use d7024e_lab.Kademlia.Id.Order.{value}
use d7024e_lab.Kademlia.RoutingTable.{RoutingTable}
use d7024e_lab.Prelude.Bytes.{Bytes, bytes_eq_iff}
use d7024e_lab.Prelude.Bytes.Dict.{insert}
use d7024e_lab.Registry.Crypto.{Crypto}
use d7024e_lab.Registry.Outcome.{Error, err}
use d7024e_lab.Registry.Record.{Json}

-- The store was given the value to keep: it refused it and is as it was, or has it under the key.
unfoldable pub IsCached :
    Crypto
    → Json
    → Option DataStore.DataStore
    → KademliaId
    → Bytes
    → Option DataStore.DataStore
    → Type 0
IsCached cr js none target value kept = kept ≡ none
IsCached cr js (some ds) target value kept =
    ((e : Error) × (DataStore.store cr js ds target value ≡ some (ds, err e)) × (kept ≡ some ds))
    ⊎ ((too_large ds.max_val_size value ≡ false)
        × (kept ≡ some (record ds { entries = insert target value ds.entries })))

-- What a retrieval says: a value that is in the local store, with the node itself as its source, or
-- a value that is not empty, has the key as its hash, and was cached; without a value the store is
-- left as it was.
abbrev pub IsPlainAnswer :
    (cr : Crypto) (js : Json) (me : Contact) (store : Option DataStore.DataStore)
    (target : KademliaId)
    → Retrieval
    → Type 0
IsPlainAnswer cr js me store target r = elim r.answer [
  | retrieved value from ↦
      ((get_local store target ≡ some value) × (from ≡ me) × (r.store ≡ store))
      ⊎ ((Id.equals (Id.new_kademlia_id_from_data cr.sha256 value) target ≡ true)
          × (value ≢ [])
          × IsCached cr js store target value r.store)
  | value_not_found ↦ r.store ≡ store
  | no_target ↦ ⊥
]

module _ (cr : Crypto) (js : Json) (me : Contact) (target : KademliaId)
    (plain : (value : Bytes) → IsPlain cr js target value) where
  cache-IsCached :
      (store : Option DataStore.DataStore) (value : Bytes) {kept : Option DataStore.DataStore}
      → cache cr js store target value ≡ some (true, kept)
      → IsCached cr js store target value kept
  unfolding cache IsCached
  cache-IsCached none value c = cc
  cache-IsCached (some ds) value {kept} c =
      elim (store-IsPlain cr js ds target value (plain value)) [
        | inl (x, e, m) ↦
            let p : Path (Option (Bool × Option DataStore.DataStore)) (some (true, some ds))
                (some (true, kept)) =
              rw (cache, e) at c in
            inl (x, e, (let q : some ds ≡ kept = cc in sym q))
        | inr (e, h, l) ↦
            let with_value : DataStore.DataStore = record ds {
              entries = insert target value ds.entries;
            } in
            let p : Path (Option (Bool × Option DataStore.DataStore)) (some (true, some with_value))
                (some (true, kept)) =
              rw (cache, e) at c in
            inr (l, (let q : some with_value ≡ kept = cc in sym q))
      ]

  genuine-IsCached :
      (store kept : Option DataStore.DataStore) (value : Bytes)
      → IsGenuine cr js store target kept value
      → (Id.equals (Id.new_kademlia_id_from_data cr.sha256 value) target ≡ true)
        × IsCached cr js store target value kept
  genuine-IsCached store kept value (addressed e c) = (e, cache-IsCached store value c)
  genuine-IsCached store kept value (consented ds other s d a) =
      let e = equal_hash cr target value (
        (bytes_eq_iff (cr.sha256 value) target).0
          (validate-accepts cr js ds target value (plain value) a)) in
      absurd (let q : true ≡ false = sym e ∙ other in cc)

  plain-IsHonest :
      (store : Option DataStore.DataStore) (r : Retrieval) (answer : Answer)
      → r.answer ≡ answer
      → IsHonest cr js me store target r
      → IsPlainAnswer cr js me store target r
  plain-IsHonest store r value_not_found e h = let k : r.store ≡ store = rw e at h in rw e k
  plain-IsHonest store r no_target e h = absurd (let k : ⊥ = rw e at h in k)
  plain-IsHonest store r (retrieved value from) e h =
      let k : ((get_local store target ≡ some value) × (from ≡ me) × (r.store ≡ store))
          ⊎ (IsGenuine cr js store target r.store value × (value ≢ [])) =
        rw e at h in
      rw e (elim k [
        | inl o ↦ inl o
        | inr (g, n) ↦ let c = genuine-IsCached store r.store value g in inr (c.0, n, c.1)
      ])

  -- Whatever the nodes of the network answer and in whatever order, a lookup of a key that no latest
  -- pointer has, when it returns, gives a value that was in the local store, with the node itself as
  -- its source, and leaves the store as it was; or a value that is not empty and whose hash is the
  -- key, which the store was given to keep: it refused it and is as it was, or has it under the key
  -- and is else as it was. A lookup that gives no value leaves the store as it was.
  pub lookup_data_by_id-IsPlainAnswer :
      (store : Option DataStore.DataStore) (network : Option DataNetwork) (fuel alpha : ℕ)
      (table : Option RoutingTable.RoutingTable) {r : Retrieval}
      → lookup_data_by_id cr js me store network fuel alpha table (some target) ≡ some r
      → IsPlainAnswer cr js me store target r
  lookup_data_by_id-IsPlainAnswer store network fuel alpha table {r} h =
      plain-IsHonest store r r.answer refl
        (lookup_data_by_id-IsHonest cr js me store target network fuel alpha table h)

-- ===== src/Kademlia/DataLookup/Pointer.antt =====
-- What `LookupLatestPointer` of kademlia/kademlia.go returns.
use d7024e_lab.Kademlia.Id
use d7024e_lab.Kademlia.RoutingTable
use d7024e_lab.Kademlia.DataStore
use d7024e_lab.Prelude.{
  Option, Option-cases, [], ap, arith, inl, inr, none, refl, some, subst, sym, true, ℕ, ◌∙◌, ◌∷◌,
  ◌≡◌, ◌≢◌, ◌⊎◌,
}
use d7024e_lab.Kademlia.Contact.{Contact}
use d7024e_lab.Kademlia.DataLookup.{
  Answer, DataNetwork, Retrieval, get_local, lookup_data_by_id, lookup_latest_pointer, no_target,
  parse_answer, retrieved, value_not_found,
}
use d7024e_lab.Kademlia.DataLookup.Genuine.{IsGenuine, addressed, consented}
use d7024e_lab.Kademlia.DataLookup.Honest.{IsHonest, lookup_data_by_id-IsHonest}
use d7024e_lab.Kademlia.DataStore.{DataStore, store}
use d7024e_lab.Kademlia.DataStore.Validated.{IsAcceptedBy, validate-IsAcceptedBy}
use d7024e_lab.Kademlia.Id.{KademliaId}
use d7024e_lab.Kademlia.RoutingTable.{RoutingTable}
use d7024e_lab.Prelude.Bytes.{Bytes}
use d7024e_lab.Registry.Crypto.{Crypto}
use d7024e_lab.Registry.Domain.{latest_pointer_dht_key_bytes}
use d7024e_lab.Registry.Outcome.{Result, Result-cases, err, failure, ok, ok-injective}
use d7024e_lab.Registry.Record.{Json, LatestPointer, dht_key_bytes, parse_latest_pointer}

equals_self : (x : KademliaId) → Id.equals x x ≡ true
unfolding Id.equals
equals_self [] = refl
equals_self (a ∷ rest) = ground (arith, equals_self rest)

pub equal_hash :
    (cr : Crypto) (k : KademliaId) (v : Bytes)
    → cr.sha256 v ≡ k
    → Id.equals (Id.new_kademlia_id_from_data cr.sha256 v) k ≡ true
unfolding Id.new_kademlia_id_from_data
equal_hash cr k v e = rw e (equals_self k)

module _ (cr : Crypto) (js : Json) (store : Option DataStore.DataStore) where
  -- The pointer was parsed from a value that was found: one in the local store, or one whose hash
  -- is the key, or one that the local store accepts for the key.
  pub data IsOrigin (k : KademliaId) (lp : LatestPointer) : Type 0 where
    own :
        (value : Bytes)
        → get_local store k ≡ some value
        → parse_latest_pointer js value ≡ ok lp
        → IsOrigin k lp
    hashed :
        (value : Bytes)
        → Id.equals (Id.new_kademlia_id_from_data cr.sha256 value) k ≡ true
        → parse_latest_pointer js value ≡ ok lp
        → IsOrigin k lp
    accepted :
        (ds : DataStore.DataStore)
        → store ≡ some ds
        → dht_key_bytes cr js lp ≡ k
        → IsAcceptedBy cr js ds k lp
        → IsOrigin k lp

  genuine-IsOrigin :
      (k : KademliaId) (kept : Option DataStore.DataStore) (v : Bytes) (lp : LatestPointer)
      → IsGenuine cr js store k kept v
      → parse_latest_pointer js v ≡ ok lp
      → IsOrigin k lp
  genuine-IsOrigin k kept v lp (addressed e c) p = hashed v e p
  genuine-IsOrigin k kept v lp (consented ds other s d a) p =
      elim (validate-IsAcceptedBy cr js ds k v a) [
        | inl e ↦ hashed v (equal_hash cr k v e) p
        | inr (lp', q, at, acc) ↦
            let o : lp' ≡ lp = ok-injective (sym q ∙ p) in
            subst (IsOrigin k) o (accepted ds s at acc)
      ]

  answer-IsOrigin :
      (me : Contact) (k : KademliaId) (r : Retrieval) (lp : LatestPointer) (from : Contact)
      (answer : Answer)
      → r.answer ≡ answer
      → IsHonest cr js me store k r
      → parse_answer js answer ≡ ok (lp, from)
      → IsOrigin k lp
  unfolding parse_answer
  answer-IsOrigin me k r lp from value_not_found e h p = cc
  answer-IsOrigin me k r lp from no_target e h p = cc
  answer-IsOrigin me k r lp from (retrieved v source) e h p =
      elim (Result-cases (parse_latest_pointer js v)) [
        | inl (x, q) ↦
            let z : Path (Result (LatestPointer × Contact)) (err failure) (ok (lp, from)) =
              rw (parse_answer, q) at p in
            cc
        | inr (lp', q) ↦
            let z : Path (Result (LatestPointer × Contact)) (ok (lp', source)) (ok (lp, from)) =
              rw (parse_answer, q) at p in
            let o : lp' ≡ lp = cc in
            let q' : parse_latest_pointer js v ≡ ok lp = q ∙ ap ok o in
            let h' : ((get_local store k ≡ some v) × (source ≡ me) × (r.store ≡ store))
                ⊎ (IsGenuine cr js store k r.store v × (v ≢ [])) =
              rw e at h in
            elim h' [
              | inl (l, m, n) ↦ own v l q'
              | inr (g, n) ↦ genuine-IsOrigin k r.store v lp g q'
            ]
      ]

  -- A latest pointer that `LookupLatestPointer` gives for a package is the one of the local store; or
  -- it belongs at the package's key and is accepted by the local store, so that it is signed by the
  -- owner that the resolver names and heads a proper chain of records; or the hash of the text that
  -- it was read from is the package's key. No answer of another node can bring it about otherwise.
  pub lookup_latest_pointer-IsOrigin :
      (me : Contact) (network : Option DataNetwork) (fuel alpha : ℕ)
      (table : Option RoutingTable.RoutingTable) (domain pkg : Bytes) {r : Retrieval}
      {lp : LatestPointer} {from : Contact}
      → lookup_latest_pointer cr js me store network fuel alpha table domain pkg
        ≡ some (r, ok (lp, from))
      → IsOrigin (latest_pointer_dht_key_bytes cr.sha256 domain pkg) lp
  unfolding lookup_latest_pointer
  lookup_latest_pointer-IsOrigin me network fuel alpha table domain pkg {r} {lp} {from} h =
      let k = latest_pointer_dht_key_bytes cr.sha256 domain pkg in
      elim (Option-cases (lookup_data_by_id cr js me store network fuel alpha table (some k))) [
        | inl e ↦
            let z : Path (Option (Retrieval × Result (LatestPointer × Contact))) none
                (some (r, ok (lp, from))) =
              rw (lookup_latest_pointer, e) at h in
            cc
        | inr (r', e) ↦
            let z : Path (Option (Retrieval × Result (LatestPointer × Contact)))
                (some (r', parse_answer js r'.answer)) (some (r, ok (lp, from))) =
              rw (lookup_latest_pointer, e) at h in
            answer-IsOrigin me k r' lp from r'.answer refl
              (lookup_data_by_id-IsHonest cr js me store k network fuel alpha table e) (cc)
      ]

-- ===== src/Kademlia/DataStore/Validated.antt =====
-- What `Validate` of kademlia/datastore.go says of a value that it accepts.
use d7024e_lab.Prelude.{List, Option, Option-cases, inl, inr, none, refl, some, ◌≡◌, ◌⊎◌}
use d7024e_lab.Kademlia.DataStore.{
  DataStore, check_key, forget_saves, get_record, parse_existing, validate,
  validate_latest_pointer_with_existing,
}
use d7024e_lab.Kademlia.DataStore.Sound.{IsPointerAt}
use d7024e_lab.Kademlia.DataStore.Steps.{check_key-cases}
use d7024e_lab.Kademlia.Id.{KademliaId}
use d7024e_lab.Prelude.Bytes.{Bytes}
use d7024e_lab.Prelude.Bytes.Dict.{lookup}
use d7024e_lab.Registry.Crypto.{Crypto}
use d7024e_lab.Registry.Outcome.{Result, Result-cases, err, ok}
use d7024e_lab.Registry.Record.{Json, LatestPointer, Resolver, dht_key_bytes, parse_latest_pointer}
use d7024e_lab.Registry.Validator.{default_max_chain_depth, validate_latest_pointer_chain}
use d7024e_lab.Registry.Validator.Acceptance.{
  validate_latest_pointer_chain_with_depth-Accepted,
  validate_latest_pointer_chain_with_depth-needs_resolver,
}
use d7024e_lab.Registry.Validator.Accepted.{Accepted}

-- The pointer is accepted by the resolver of the store, over the pointer that is at the key, with
-- the records of the store and of its fetcher.
pub record IsAcceptedBy (cr : Crypto) (js : Json) (ds : DataStore) (k : KademliaId)
    (lp : LatestPointer) : Type 0 where
  pub resolver : Resolver
  pub saves : List (Bytes × Bytes)
  pub has_resolver : ds.dns_resolver ≡ some resolver
  pub is_accepted :
      Accepted cr js lp
        (parse_existing js (lookup k ds.entries))
        resolver
        (get_record ds.entries ds.record_fetcher)
        saves

forget_saves-ok :
    (r : Option (Result (List (Bytes × Bytes))))
    → forget_saves r ≡ some (ok tt)
    → (saves : List (Bytes × Bytes)) × (r ≡ some (ok saves))
unfolding forget_saves
forget_saves-ok none h = cc
forget_saves-ok (some (err x)) h = cc
forget_saves-ok (some (ok saves)) h = (saves, refl)

module _ (cr : Crypto) (js : Json) (ds : DataStore) (k : KademliaId) (lp : LatestPointer) where
  validation-IsAcceptedBy :
      (saves : List (Bytes × Bytes))
      → validate_latest_pointer_with_existing cr js ds lp (parse_existing js (lookup k ds.entries))
        ≡ some (ok saves)
      → IsAcceptedBy cr js ds k lp
  unfolding validate_latest_pointer_with_existing validate_latest_pointer_chain
  validation-IsAcceptedBy saves h =
      let existing = parse_existing js (lookup k ds.entries) in
      let getter = get_record ds.entries ds.record_fetcher in
      elim (Option-cases ds.dns_resolver) [
        | inl e ↦ absurd (
            validate_latest_pointer_chain_with_depth-needs_resolver cr js (some lp) existing
              (some getter) default_max_chain_depth saves (rw e at h))
        | inr (resolver, e) ↦ record {
          resolver = resolver;
          saves = saves;
          has_resolver = e;
          is_accepted =
              validate_latest_pointer_chain_with_depth-Accepted cr js lp existing resolver getter
                default_max_chain_depth saves (rw e at h);
        }
      ]

-- A value that `Validate` accepts for a key has the key as its hash; or it is a latest pointer
-- whose key this is, signed by the owner that the store's resolver names and heading a proper chain
-- of records down to the pointer that the store has at the key.
pub validate-IsAcceptedBy :
    (cr : Crypto) (js : Json) (ds : DataStore) (k : KademliaId) (v : Bytes)
    → validate cr js ds k v ≡ some (ok tt)
    → (cr.sha256 v ≡ k)
      ⊎ ((lp : LatestPointer) × (parse_latest_pointer js v ≡ ok lp)
          × (dht_key_bytes cr js lp ≡ k)
          × IsAcceptedBy cr js ds k lp)
unfolding validate IsPointerAt
validate-IsAcceptedBy cr js ds k v h = elim (Result-cases (check_key cr js ds.max_val_size k v)) [
  | inl (x, e) ↦
      let p : Path (Option (Result (Unit {0}))) (some (err x)) (some (ok tt)) =
        rw (validate, e) at h in
      cc
  | inr (r, e) ↦ elim (check_key-cases cr js ds.dns_resolver ds.max_val_size k v r e) [
    | inl (n, q) ↦ inl q
    | inr (lp, n, q) ↦
        let s =
          forget_saves-ok
            (validate_latest_pointer_with_existing cr js ds lp
              (parse_existing js (lookup k ds.entries)))
            (rw (validate, e, n) at h) in
        inr (lp, q.0, q.1, validation-IsAcceptedBy cr js ds k lp s.0 s.1)
  ]
]

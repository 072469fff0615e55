-- ===== src/Kademlia/DataStore/Settled.antt =====
-- `Validate` and `Store` of kademlia/datastore.go on a value that is no latest pointer of its key:
-- both end before the chain of records is walked, so that no fetcher is asked, whichever it is.
use d7024e_lab.Prelude.{
  Bool-cases, Option, false, inl, inr, none, refl, some, some-injective, true, ℕ, ◌≡◌, ◌⊎◌,
}
use d7024e_lab.Kademlia.DataStore.{DataStore, check_key, store, too_large, validate}
use d7024e_lab.Kademlia.DataStore.Wired.{
  is_missing, node_store, node_store-ok, node_store-settled, node_validate, node_validate-ok,
  node_validate-settled,
}
use d7024e_lab.Kademlia.Id.{KademliaId}
use d7024e_lab.Prelude.Bytes.{Bytes, bytes_eq}
use d7024e_lab.Prelude.Bytes.Dict.{insert}
use d7024e_lab.Registry.Crypto.{Crypto}
use d7024e_lab.Registry.Outcome.{
  Error, Result, Result-cases, err, err-ne-ok, key_mismatch, ok, value_too_large,
}
use d7024e_lab.Registry.Record.{Json, LatestPointer, dht_key_bytes, parse_latest_pointer}

-- If the value reads as a latest pointer at all, then as one of another key.
unfoldable pub IsPlain : Crypto → Json → KademliaId → Bytes → Type 0
IsPlain cr js key value =
    (lp : LatestPointer)
    → parse_latest_pointer js value ≡ ok lp
    → bytes_eq (dht_key_bytes cr js lp) key ≡ false

module _ (cr : Crypto) (js : Json) (size : ℕ) (key : KademliaId) (value : Bytes)
    (plain : IsPlain cr js key value) where
  -- The tests settle the value: it is rejected, or its hash is the key.
  pub check_key-IsPlain :
      ((e : Error) × (check_key cr js size key value ≡ err e) × (is_missing e ≡ false))
      ⊎ ((check_key cr js size key value ≡ ok none)
          × (bytes_eq (cr.sha256 value) key ≡ true)
          × (too_large size value ≡ false))
  unfolding check_key IsPlain is_missing
  check_key-IsPlain = elim (Bool-cases (too_large size value)) [
    | inl l ↦ inl (value_too_large, rw (check_key, l) refl, refl)
    | inr l ↦ elim (Bool-cases (bytes_eq (cr.sha256 value) key)) [
      | inl h ↦ inr (rw (check_key, l, h) refl, h, l)
      | inr h ↦ elim (Result-cases (parse_latest_pointer js value)) [
        | inl (e, p) ↦ inl (key_mismatch, rw (check_key, l, h, p) refl, refl)
        | inr (lp, p) ↦ inl (key_mismatch, rw (check_key, l, h, p, plain lp p) refl, refl)
      ]
    ]
  ]

module _ (cr : Crypto) (js : Json) (ds : DataStore) (key : KademliaId) (value : Bytes)
    (plain : IsPlain cr js key value) where
  -- `Store` rejects the value and leaves the store as it was, or puts it under its hash.
  pub store-IsPlain :
      ((e : Error) × (store cr js ds key value ≡ some (ds, err e)) × (is_missing e ≡ false))
      ⊎ ((store cr js ds key value
            ≡ some (record ds { entries = insert key value ds.entries }, ok tt))
          × (bytes_eq (cr.sha256 value) key ≡ true)
          × (too_large ds.max_val_size value ≡ false))
  unfolding store
  store-IsPlain = elim (check_key-IsPlain cr js ds.max_val_size key value plain) [
    | inl (e, p, m) ↦ inl (e, rw (store, p) refl, m)
    | inr (p, h, l) ↦ inr (rw (store, p) refl, h, l)
  ]

  -- So it is in a node.
  pub node_store-IsPlain :
      ((e : Error) × (node_store cr js ds key value ≡ some (ds, err e)))
      ⊎ ((node_store cr js ds key value
            ≡ some (record ds { entries = insert key value ds.entries }, ok tt))
          × (bytes_eq (cr.sha256 value) key ≡ true)
          × (too_large ds.max_val_size value ≡ false))
  node_store-IsPlain = elim store-IsPlain [
    | inl (e, p, m) ↦ inl (e, node_store-settled cr js ds key value ds e m p)
    | inr (p, h, l) ↦ inr (node_store-ok cr js ds key value _ p, h, l)
  ]

  -- `Validate` has an answer, and what it accepts is a value whose hash is the key.
  pub node_validate-IsPlain :
      ((e : Error) × (node_validate cr js ds key value ≡ some (err e)))
      ⊎ ((node_validate cr js ds key value ≡ some (ok tt))
          × (bytes_eq (cr.sha256 value) key ≡ true))
  unfolding validate
  node_validate-IsPlain = elim (check_key-IsPlain cr js ds.max_val_size key value plain) [
    | inl (e, p, m) ↦ inl (e, node_validate-settled cr js ds key value e m (rw (validate, p) refl))
    | inr (p, h, l) ↦ inr (node_validate-ok cr js ds key value (rw (validate, p) refl), h)
  ]

  pub validate-accepts :
      validate cr js ds key value ≡ some (ok tt) → bytes_eq (cr.sha256 value) key ≡ true
  unfolding validate
  validate-accepts h = elim (check_key-IsPlain cr js ds.max_val_size key value plain) [
    | inl (e, p, m) ↦ absurd (
        let q : Path (Option (Result (Unit {0}))) (some (err e)) (some (ok tt)) =
          rw (validate, p) at h in
        err-ne-ok e tt (some-injective q))
    | inr (p, g, l) ↦ g
  ]

-- ===== src/Kademlia/DataStore/Round.antt =====
-- A call of `Store` that runs alone (kademlia/datastore.go): two rounds of its loop are enough.
use d7024e_lab.Prelude.{
  Bool, Bool-cases, List, Option, Option-cases, [], ap, false, inl, inr, none, refl, some, subst,
  sym, true, ◌∙◌, ◌∷◌, ◌≡◌, ◌≢◌,
}
use d7024e_lab.Kademlia.DataStore.{
  DataStore, after_validation, check_key, commit, forget_saves, get, get_record, key_of_hash,
  save_record, save_records, store, store_loop, store_round, unchanged, validate,
  validate_latest_pointer_with_existing,
}
use d7024e_lab.Kademlia.Id.{KademliaId}
use d7024e_lab.Prelude.Bytes.{Bytes, bytes_eq, bytes_eq_iff, bytes_eq_self}
use d7024e_lab.Prelude.Bytes.Dict.{Dict, has, has-lookup, lookup, lookup-insert}
use d7024e_lab.Registry.Crypto.{Crypto}
use d7024e_lab.Registry.Outcome.{Result, Result-cases, err, err-ne-ok, ok}
use d7024e_lab.Registry.Record.{Json, LatestPointer}
use d7024e_lab.Registry.Validator.{default_max_chain_depth, validate_latest_pointer_chain}
use d7024e_lab.Registry.Validator.Fuel.{validate_latest_pointer_chain_with_depth-total}

unchanged_self : (o : Option Bytes) → unchanged o o ≡ true
unfolding unchanged
unchanged_self none = refl
unchanged_self (some v) = bytes_eq_self v

changed-ne : (a b : Option Bytes) → unchanged a b ≡ false → b ≢ a
changed-ne a b h e =
    let t : unchanged a a ≡ false = subst (λ x. unchanged a x ≡ false) e h in
    let u : unchanged a a ≡ true = unchanged_self a in cc

-- What is there stays when records are saved.
lookup-save_record :
    (key v : Bytes) (r : Bytes × Bytes) (entries : Dict Bytes)
    → lookup key entries ≡ some v
    → lookup key (save_record r entries) ≡ some v
unfolding save_record has
lookup-save_record key v (hash, data') entries h = elim (Option-cases (key_of_hash hash)) [
  | inl e ↦ rw (save_record, e) h
  | inr (k, e) ↦ elim (Bool-cases (has k entries)) [
    | inl f ↦ rw (save_record, e, f) h
    | inr f ↦
        rw (save_record, e, f, lookup-insert k key data' entries)
          (elim (Bool-cases (bytes_eq k key)) [
            | inl q ↦ absurd (
                let t : has key entries ≡ true = has-lookup key v entries h in
                let u : has key entries ≡ false =
                  subst (λ x. has x entries ≡ false) ((bytes_eq_iff k key).0 q) f in
                cc)
            | inr q ↦ rw q h
          ])
  ]
]

lookup-save_records :
    (key v : Bytes) (rs : List (Bytes × Bytes)) (entries : Dict Bytes)
    → lookup key entries ≡ some v
    → lookup key (save_records rs entries) ≡ some v
unfolding save_records
lookup-save_records key v [] entries h = h
lookup-save_records key v (r ∷ rs) entries h =
    lookup-save_records key v rs (save_record r entries) (lookup-save_record key v r entries h)

module _ (cr : Crypto) (js : Json) (key : KademliaId) (value : Bytes) (lp : LatestPointer) where
  -- A round fails, or stores the value, or finds another value at a key that was free.
  unfoldable RoundEnds : DataStore → Option (DataStore × Result Bool) → Type 0
  RoundEnds ds r =
      (ds' : DataStore) × (x : Result Bool) × (r ≡ some (ds', x))
      × (x ≡ ok true → lookup key ds'.entries ≡ some value)
      × (x ≡ ok false → (lookup key ds.entries ≡ none) × (lookup key ds'.entries ≢ none))

  changed :
      (ds : DataStore) (saves : List (Bytes × Bytes))
      → unchanged (lookup key ds.entries) (lookup key (save_records saves ds.entries)) ≡ false
      → (lookup key ds.entries ≡ none) × (lookup key (save_records saves ds.entries) ≢ none)
  changed ds saves e = elim (Option-cases (lookup key ds.entries)) [
    | inl n ↦ (n, λ m. changed-ne _ _ e (m ∙ sym n))
    | inr (v, l) ↦ absurd (changed-ne _ _ e (lookup-save_records key v saves ds.entries l ∙ sym l))
  ]

  after_validation-RoundEnds :
      (ds : DataStore) (r : Option (Result (List (Bytes × Bytes))))
      → r ≢ none
      → RoundEnds ds (after_validation ds key value r)
  unfolding after_validation RoundEnds commit
  after_validation-RoundEnds ds none h = absurd (h refl)
  after_validation-RoundEnds ds (some (err e)) h = (ds, err e, refl, (λ q. cc), (λ q. cc))
  after_validation-RoundEnds ds (some (ok saves)) h =
      elim (Bool-cases
        (unchanged (lookup key ds.entries) (lookup key (save_records saves ds.entries)))) [
          | inl e ↦
              rw (commit, e)
                (
                  _,
                  ok true,
                  refl,
                  (λ q.
                      rw
                        (
                          lookup-insert key key value (save_records saves ds.entries),
                          bytes_eq_self key,
                        )
                        refl),
                  (λ q. cc),
                )
          | inr e ↦ rw (commit, e) (_, ok false, refl, (λ q. cc), (λ q. changed ds saves e))
        ]

  validation-returns :
      (ds : DataStore) (existing : Option LatestPointer)
      → validate_latest_pointer_with_existing cr js ds lp existing ≢ none
  unfolding validate_latest_pointer_with_existing validate_latest_pointer_chain
  validation-returns ds existing =
      validate_latest_pointer_chain_with_depth-total cr js (some lp) existing ds.dns_resolver
        (some (get_record ds.entries ds.record_fetcher)) default_max_chain_depth

  store_round-RoundEnds : (ds : DataStore) → RoundEnds ds (store_round cr js ds key value lp)
  unfolding store_round
  store_round-RoundEnds ds = after_validation-RoundEnds ds _ (validation-returns ds _)

  -- The call returns, and the value is there if it succeeded.
  unfoldable Returns : Option (DataStore × Result (Unit {0})) → Type 0
  Returns r =
      (ds : DataStore) × (x : Result (Unit {0})) × (r ≡ some (ds, x))
      × (x ≡ ok tt → lookup key ds.entries ≡ some value)

  second_round :
      (ds : DataStore) → lookup key ds.entries ≢ none → Returns (store_loop cr js 1 ds key value lp)
  unfolding store_loop RoundEnds Returns
  second_round ds taken =
      let (ds', x, r, put, free) = store_round-RoundEnds ds in
      elim (Result-cases x) [
        | inl (e, q) ↦
            rw (store_loop, r ∙ ap (λ y. some (ds', y)) q)
              (ds', err e, refl, (λ p. absurd (err-ne-ok e tt p)))
        | inr (true, q) ↦
            rw (store_loop, r ∙ ap (λ y. some (ds', y)) q) (ds', ok tt, refl, (λ p. put q))
        | inr (false, q) ↦ absurd (taken (free q).0)
      ]

  two_rounds : (ds : DataStore) → Returns (store_loop cr js 2 ds key value lp)
  unfolding store_loop RoundEnds Returns
  two_rounds ds =
      let (ds', x, r, put, free) = store_round-RoundEnds ds in
      elim (Result-cases x) [
        | inl (e, q) ↦
            rw (store_loop, r ∙ ap (λ y. some (ds', y)) q)
              (ds', err e, refl, (λ p. absurd (err-ne-ok e tt p)))
        | inr (true, q) ↦
            rw (store_loop, r ∙ ap (λ y. some (ds', y)) q) (ds', ok tt, refl, (λ p. put q))
        | inr (false, q) ↦
            rw (store_loop, r ∙ ap (λ y. some (ds', y)) q) (second_round ds' (free q).1)
      ]

forget_saves-ne-none :
    (r : Option (Result (List (Bytes × Bytes)))) → r ≢ none → forget_saves r ≢ none
unfolding forget_saves
forget_saves-ne-none none h = λ e. h refl
forget_saves-ne-none (some (err x)) h = λ e. cc
forget_saves-ne-none (some (ok saves)) h = λ e. cc

-- `Validate` returns, whatever the fetcher and the resolver answer.
pub validate-returns :
    (cr : Crypto) (js : Json) (ds : DataStore) (key : KademliaId) (value : Bytes)
    → validate cr js ds key value ≢ none
unfolding validate
validate-returns cr js ds key value =
    elim (Result-cases (check_key cr js ds.max_val_size key value)) [
      | inl (x, e) ↦ λ h.
          (let p : Path (Option (Result (Unit {0}))) (some (err x)) none = rw (validate, e) at h in
            cc)
      | inr (none, e) ↦ λ h.
          (let p : Path (Option (Result (Unit {0}))) (some (ok tt)) none = rw (validate, e) at h in
            cc)
      | inr (some lp, e) ↦
          rw (validate, e) (forget_saves-ne-none _ (validation-returns cr js key value lp ds _))
    ]

-- A call of `Store` that runs alone returns, whatever the fetcher and the resolver answer, and after
-- a success `Get` gives the value that was stored.
pub store-returns :
    (cr : Crypto) (js : Json) (ds : DataStore) (key : KademliaId) (value : Bytes)
    → (ds' : DataStore) × (x : Result (Unit {0})) × (store cr js ds key value ≡ some (ds', x))
      × (x ≡ ok tt → get ds' key ≡ some value)
unfolding get Returns store
store-returns cr js ds key value = elim (Result-cases (check_key cr js ds.max_val_size key value)) [
  | inl (x, e) ↦ rw (store, e) (ds, err x, refl, (λ q. absurd (err-ne-ok x tt q)))
  | inr (none, e) ↦
      rw (store, e)
        (_, ok tt, refl, (λ q. rw (lookup-insert key key value ds.entries, bytes_eq_self key) refl))
  | inr (some lp, e) ↦ rw (store, e) (two_rounds cr js key value lp ds)
]

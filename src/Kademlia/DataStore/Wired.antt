-- ===== src/Kademlia/DataStore/Wired.antt =====
-- `Validate` and `Store` of kademlia/datastore.go for the store of a node of kademlia/kademlia.go.
-- `NewKademlia` leaves a store its fetcher, and gives a store that has none a lookup of the node
-- itself. Such a lookup changes the node and may never end; it is not followed here: the result is
-- `none` where a record of the chain is not in the store, so that it would be looked up.
use d7024e_lab.Prelude.{
  Bool, Bool-cases, Option, Option-cases, ap, false, if◌then◌else◌, inl, inr, none, refl, some,
  some-injective, subst, sym, true, ◌∙◌, ◌≡◌,
}
use d7024e_lab.Kademlia.DataStore.{DataStore, get, store, validate}
use d7024e_lab.Kademlia.DataStore.Round.{store-returns}
use d7024e_lab.Kademlia.Id.{KademliaId}
use d7024e_lab.Prelude.Bytes.{Bytes}
use d7024e_lab.Registry.Crypto.{Crypto}
use d7024e_lab.Registry.Outcome.{Error, Result, err, missing_version_record, ok}
use d7024e_lab.Registry.Record.{Json}
use d7024e_lab.Registry.Validator.{Getter}

unfoldable pub is_missing : Error → Bool
is_missing missing_version_record = true
is_missing _ = false

-- What a call gives, unless a record was missing and the fetcher is the node's own lookup.
unfoldable pub if_at_hand : {A : Type 0} → Option Getter → Result (Unit {0}) → A → Option A
unfolding is_missing
if_at_hand (some fetcher) r a = some a
if_at_hand none (ok done) a = some a
if_at_hand none (err e) a = if is_missing e then none else some a

unfoldable pub node_validate :
    Crypto → Json → DataStore → KademliaId → Bytes → Option (Result (Unit {0}))
unfolding if_at_hand
node_validate cr js ds key value = elim (validate cr js ds key value) [
  | none ↦ none
  | some r ↦ if_at_hand ds.record_fetcher r r
]

unfoldable pub node_store :
    Crypto → Json → DataStore → KademliaId → Bytes → Option (DataStore × Result (Unit {0}))
unfolding if_at_hand
node_store cr js ds key value = elim (store cr js ds key value) [
  | none ↦ none
  | some (ds', r) ↦ if_at_hand ds.record_fetcher r (ds', r)
]

none-ne-some : {A : Type 0} (a : A) → Path (Option A) none (some a) → ⊥
none-ne-some a h = cc

if_at_hand-some :
    {A : Type 0} (fetcher : Option Getter) (r : Result (Unit {0})) (a b : A)
    → if_at_hand fetcher r a ≡ some b
    → a ≡ b
unfolding if_at_hand
if_at_hand-some (some f) r a b h = some-injective h
if_at_hand-some none (ok done) a b h = some-injective h
if_at_hand-some none (err e) a b h = elim (Bool-cases (is_missing e)) [
  | inl m ↦ absurd (none-ne-some b (rw (if_at_hand, m) at h))
  | inr m ↦ some-injective (rw (if_at_hand, m) at h)
]

if_at_hand-settled :
    {A : Type 0} (fetcher : Option Getter) (e : Error) (a : A)
    → is_missing e ≡ false
    → if_at_hand fetcher (err e) a ≡ some a
unfolding if_at_hand
if_at_hand-settled (some f) e a m = refl
if_at_hand-settled none e a m = rw (if_at_hand, m) refl

if_at_hand-ok :
    {A : Type 0} (fetcher : Option Getter) (a : A) → if_at_hand fetcher (ok tt) a ≡ some a
unfolding if_at_hand
if_at_hand-ok (some f) a = refl
if_at_hand-ok none a = refl

module _ (cr : Crypto) (js : Json) (ds : DataStore) (key : KademliaId) (value : Bytes) where
  -- What comes back is what the store alone says.
  pub node_validate-some :
      (r : Result (Unit {0}))
      → node_validate cr js ds key value ≡ some r
      → validate cr js ds key value ≡ some r
  unfolding node_validate
  node_validate-some r h = elim (Option-cases (validate cr js ds key value)) [
    | inl e ↦ absurd (none-ne-some r (rw (node_validate, e) at h))
    | inr (x, e) ↦
        e ∙ ap some (if_at_hand-some ds.record_fetcher x x r (rw (node_validate, e) at h))
  ]

  pub node_store-some :
      (r : DataStore × Result (Unit {0}))
      → node_store cr js ds key value ≡ some r
      → store cr js ds key value ≡ some r
  unfolding node_store
  node_store-some r h = elim (Option-cases (store cr js ds key value)) [
    | inl e ↦ absurd (none-ne-some r (rw (node_store, e) at h))
    | inr (x, e) ↦ e ∙ ap some (if_at_hand-some ds.record_fetcher x.1 x r (rw (node_store, e) at h))
  ]

  pub node_validate-settled :
      (e : Error)
      → is_missing e ≡ false
      → validate cr js ds key value ≡ some (err e)
      → node_validate cr js ds key value ≡ some (err e)
  unfolding node_validate
  node_validate-settled e m h =
      rw (node_validate, h) (if_at_hand-settled ds.record_fetcher e (err e) m)

  pub node_validate-ok :
      validate cr js ds key value ≡ some (ok tt) → node_validate cr js ds key value ≡ some (ok tt)
  unfolding node_validate
  node_validate-ok h = rw (node_validate, h) (if_at_hand-ok ds.record_fetcher (ok tt))

  pub node_store-settled :
      (ds' : DataStore) (e : Error)
      → is_missing e ≡ false
      → store cr js ds key value ≡ some (ds', err e)
      → node_store cr js ds key value ≡ some (ds', err e)
  unfolding node_store
  node_store-settled ds' e m h =
      rw (node_store, h) (if_at_hand-settled ds.record_fetcher e (ds', err e) m)

  pub node_store-ok :
      (ds' : DataStore)
      → store cr js ds key value ≡ some (ds', ok tt)
      → node_store cr js ds key value ≡ some (ds', ok tt)
  unfolding node_store
  node_store-ok ds' h = rw (node_store, h) (if_at_hand-ok ds.record_fetcher (ds', ok tt))

  -- After a success `Get` gives the value that was stored.
  pub node_store-get :
      (r : DataStore × Result (Unit {0}))
      → node_store cr js ds key value ≡ some r
      → r.1 ≡ ok tt
      → get r.0 key ≡ some value
  node_store-get r h o =
      let (ds', x, q, g) = store-returns cr js ds key value in
      let e : (ds', x) ≡ r = some-injective (sym q ∙ node_store-some r h) in
      subst (λ y. y.1 ≡ ok tt → get y.0 key ≡ some value) e g o

-- ===== src/Kademlia/DataStore/Sound.antt =====
-- What the entries of a store are, whatever calls of `Store` run side by side
-- (kademlia/datastore.go).
use d7024e_lab.Kademlia.DataStore.Writers
use d7024e_lab.Prelude.{All, Bool-cases, List, Option, inl, inr, refl, some, subst, sym, ◌≡◌, ◌⊎◌}
use d7024e_lab.Kademlia.DataStore.{key_of_hash, parse_existing, save_record}
use d7024e_lab.Kademlia.DataStore.Writers.{Writer, reading, saving, validating}
use d7024e_lab.Kademlia.Id.{KademliaId}
use d7024e_lab.Prelude.Bytes.{Bytes, Bytes-cases, bytes_eq, bytes_eq_iff, bytes_eq_ne}
use d7024e_lab.Prelude.Bytes.Dict.{Dict, has, insert, lookup, lookup-insert, lookup-remove, remove}
use d7024e_lab.Prelude.Bytes.Hex.{hex_decode-hex_encode, hex_encode}
use d7024e_lab.Registry.Crypto.{Crypto, HasSizes}
use d7024e_lab.Registry.Outcome.{ok}
use d7024e_lab.Registry.Record.{Json, LatestPointer, Resolver, dht_key_bytes, parse_latest_pointer}
use d7024e_lab.Registry.Validator.{Getter}
use d7024e_lab.Registry.Validator.Accepted.{Accepted}

key_of_hash-hashed :
    (cr : Crypto)
    → HasSizes cr
    → (hash rec_bytes : Bytes) → hex_encode (cr.sha256 rec_bytes) ≡ hash
    → key_of_hash hash ≡ some (cr.sha256 rec_bytes)
unfolding key_of_hash
key_of_hash-hashed cr sizes hash rec_bytes h =
    rw
      (
        sym h,
        hex_decode-hex_encode (cr.sha256 rec_bytes) (sizes.sha256_bytes rec_bytes),
        sizes.sha256_size rec_bytes,
      )
      refl

unfoldable pub IsHashed : Crypto → Bytes × Bytes → Type 0
IsHashed cr (hash, rec_bytes) = hex_encode (cr.sha256 rec_bytes) ≡ hash

module _ (cr : Crypto) (js : Json) where
  -- The value is a latest pointer, and the key is its own.
  unfoldable pub IsPointerAt : KademliaId → Bytes → LatestPointer → Type 0
  IsPointerAt key value lp =
      (parse_latest_pointer js value ≡ ok lp) × (dht_key_bytes cr js lp ≡ key)

module _ (cr : Crypto) (js : Json) (resolver : Option Resolver) where
  -- The pointer was accepted, over the existing one.
  pub record WasAccepted (lp : LatestPointer) (existing : Option LatestPointer) : Type 0 where
    pub lookup_owner_key : Resolver
    pub getter : Getter
    pub saves : List (Bytes × Bytes)
    pub configured : resolver ≡ some lookup_owner_key
    pub accepted : Accepted cr js lp existing lookup_owner_key getter saves

  unfoldable pub IsEntry : KademliaId → Bytes → Type 0
  IsEntry key value =
      (cr.sha256 value ≡ key)
      ⊎ ((lp : LatestPointer) × (existing : Option LatestPointer) × IsPointerAt cr js key value lp
          × WasAccepted lp existing)

  unfoldable pub IsWriter : Writer → Type 0
  IsWriter (reading key value lp) = IsPointerAt cr js key value lp
  IsWriter (validating key value lp snapshot) = IsPointerAt cr js key value lp
  IsWriter (saving key value lp snapshot saves) =
      IsPointerAt cr js key value lp
      × All (IsHashed cr) saves
      × WasAccepted lp (parse_existing js snapshot)

  unfoldable pub AreEntries : Dict Bytes → Type 0
  AreEntries entries =
      (key : KademliaId) (value : Bytes) → lookup key entries ≡ some value → IsEntry key value

  pub record IsSound (s : Writers.System) : Type 0 where
    pub entries_sound : AreEntries s.entries
    pub writers_sound : All IsWriter s.writers

  pub insert-AreEntries :
      (key : KademliaId) (value : Bytes) (entries : Dict Bytes)
      → IsEntry key value
      → AreEntries entries
      → AreEntries (insert key value entries)
  unfolding AreEntries
  insert-AreEntries key value entries e a k v = elim (Bytes-cases key k) [
    | inl p ↦
        rw (lookup-insert key k value entries, (bytes_eq_iff key k).1 p)
          (λ h. let q : value ≡ v = cc in subst (λ x. IsEntry x v) p (subst (IsEntry key) q e))
    | inr p ↦ rw (lookup-insert key k value entries, bytes_eq_ne key k p) (λ h. a k v h)
  ]

  pub remove-AreEntries :
      (key : KademliaId) (entries : Dict Bytes)
      → AreEntries entries
      → AreEntries (remove key entries)
  unfolding AreEntries
  remove-AreEntries key entries a k v = elim (Bool-cases (bytes_eq key k)) [
    | inl p ↦ rw (lookup-remove key k entries, p) (λ h. cc)
    | inr p ↦ rw (lookup-remove key k entries, p) (λ h. a k v h)
  ]

  pub save_record-AreEntries :
      (hash rec_bytes : Bytes) (entries : Dict Bytes)
      → HasSizes cr
      → IsHashed cr (hash, rec_bytes)
      → AreEntries entries
      → AreEntries (save_record (hash, rec_bytes) entries)
  unfolding save_record IsHashed IsEntry
  save_record-AreEntries hash rec_bytes entries sizes h a =
      elim (Bool-cases (has (cr.sha256 rec_bytes) entries)) [
        | inl p ↦ rw (save_record, key_of_hash-hashed cr sizes hash rec_bytes h, p) a
        | inr p ↦
            rw (save_record, key_of_hash-hashed cr sizes hash rec_bytes h, p)
              (insert-AreEntries (cr.sha256 rec_bytes) rec_bytes entries (inl refl) a)
      ]

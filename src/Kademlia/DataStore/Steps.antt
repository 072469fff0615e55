-- ===== src/Kademlia/DataStore/Steps.antt =====
-- Each critical section of `Store` keeps the store sound (kademlia/datastore.go).
use d7024e_lab.Kademlia.DataStore.Writers
use d7024e_lab.Prelude.{
  All, Bool-cases, List, Option, [], inl, inr, none, refl, some, sym, ℕ, ◌∷◌, ◌≡◌, ◌⊎◌,
}
use d7024e_lab.Kademlia.DataStore.{check_key, commit, parse_existing, too_large, unchanged}
use d7024e_lab.Kademlia.DataStore.Sound.{
  AreEntries, IsEntry, IsHashed, IsPointerAt, IsWriter, WasAccepted, insert-AreEntries,
  save_record-AreEntries,
}
use d7024e_lab.Kademlia.DataStore.Writers.{
  Writer, committed, open_store, opened, reading, saving, validated, validating,
}
use d7024e_lab.Kademlia.Id.{KademliaId}
use d7024e_lab.Prelude.Bytes.{Bytes, bytes_eq, bytes_eq_iff}
use d7024e_lab.Prelude.Bytes.Dict.{Dict, lookup}
use d7024e_lab.Registry.Crypto.{Crypto, HasSizes}
use d7024e_lab.Registry.Outcome.{
  Result, Result-cases, bind-ok, err, err-ne-ok, key_mismatch, ok, ok-injective, or_else,
  or_else-ok, then-ok, value_too_large,
}
use d7024e_lab.Registry.Record.{Json, LatestPointer, Resolver, parse_latest_pointer}
use d7024e_lab.Registry.Validator.{Getter, validate_latest_pointer_chain}
use d7024e_lab.Registry.Validator.Acceptance.{
  validate_latest_pointer_chain_with_depth-Accepted,
  validate_latest_pointer_chain_with_depth-needs_resolver,
}
use d7024e_lab.Registry.Validator.Sound.{Chain-hashed}

module _ (cr : Crypto) (js : Json) (resolver : Option Resolver) where
  -- What a critical section leaves: sound entries, and writers that are sound.
  unfoldable pub Leaves : Dict Bytes × List Writer → Type 0
  Leaves r = AreEntries cr js resolver r.0 × All (IsWriter cr js resolver) r.1

  pub check_key-cases :
      (max_size : ℕ) (key : KademliaId) (value : Bytes) (lp : Option LatestPointer)
      → check_key cr js max_size key value ≡ ok lp
      → ((lp ≡ none) × (cr.sha256 value ≡ key))
        ⊎ ((p : LatestPointer) × (lp ≡ some p) × IsPointerAt cr js key value p)
  unfolding check_key IsPointerAt
  check_key-cases max_size key value lp = elim (Bool-cases (too_large max_size value)) [
    | inl e ↦ rw (check_key, e) (λ h. absurd (err-ne-ok value_too_large lp h))
    | inr e ↦ elim (Bool-cases (bytes_eq (cr.sha256 value) key)) [
      | inl f ↦ rw (check_key, e, f) (λ h. inl (sym (ok-injective h), (bytes_eq_iff _ _).0 f))
      | inr f ↦
          rw (check_key, e, f)
            (λ h.
              let s1 = bind-ok (or_else (parse_latest_pointer js value) key_mismatch) h in
              let s2 = then-ok key_mismatch s1.2 in
              inr (
                s1.0,
                sym (ok-injective s2.1),
                (or_else-ok key_mismatch s1.1, (bytes_eq_iff _ _).0 s2.0),
              ))
    ]
  ]

  accepted :
      (lp : LatestPointer) (existing : Option LatestPointer) (r : Option Resolver) (getter : Getter)
      (saves : List (Bytes × Bytes))
      → resolver ≡ r
      → validate_latest_pointer_chain cr js (some lp) existing r (some getter) ≡ some (ok saves)
      → All (IsHashed cr) saves × WasAccepted cr js resolver lp existing
  unfolding validate_latest_pointer_chain IsHashed
  accepted lp existing none getter saves e h = absurd (
      validate_latest_pointer_chain_with_depth-needs_resolver cr js (some lp) existing (some getter)
        _ saves h)
  accepted lp existing (some r) getter saves e h =
      let a =
        validate_latest_pointer_chain_with_depth-Accepted cr js lp existing r getter _ saves h in
      (
        Chain-hashed cr js lp a.owner getter saves a.chain,
        record {
          lookup_owner_key = r;
          getter = getter;
          saves = saves;
          configured = e;
          accepted = a;
        },
      )

  -- A validation that succeeds accepts the pointer.
  validated_sound :
      (key : KademliaId) (value : Bytes) (lp : LatestPointer) (snapshot : Option Bytes)
      (getter : Getter) (r : Option (Result (List (Bytes × Bytes))))
      → IsPointerAt cr js key value lp
      → validate_latest_pointer_chain cr js
          (some lp)
          (parse_existing js snapshot)
          resolver
          (some getter)
        ≡ r
      → All (IsWriter cr js resolver) (validated key value lp snapshot r)
  unfolding validated IsWriter
  validated_sound key value lp snapshot getter none p h = tt
  validated_sound key value lp snapshot getter (some (err e)) p h = tt
  validated_sound key value lp snapshot getter (some (ok saves)) p h =
      let a = accepted lp (parse_existing js snapshot) resolver getter saves refl h in
      ((p, a.0, a.1), tt)

  committed-Leaves :
      (key : KademliaId) (value : Bytes) (lp : LatestPointer) (snapshot : Option Bytes)
      (entries : Dict Bytes)
      → IsPointerAt cr js key value lp
      → WasAccepted cr js resolver lp (parse_existing js snapshot)
      → AreEntries cr js resolver entries
      → Leaves (committed key value lp (commit key value snapshot entries))
  unfolding committed commit Leaves IsWriter IsEntry
  committed-Leaves key value lp snapshot entries p w a =
      elim (Bool-cases (unchanged snapshot (lookup key entries))) [
        | inl e ↦
            rw (commit, e)
              (
                insert-AreEntries cr js resolver key value entries
                    (inr (lp, parse_existing js snapshot, p, w)) a,
                tt,
              )
        | inr e ↦ rw (commit, e) (a, (p, tt))
      ]

  pub advance-Leaves :
      (getter : Getter) (w : Writer) (entries : Dict Bytes)
      → HasSizes cr
      → IsWriter cr js resolver w
      → AreEntries cr js resolver entries
      → Leaves (Writers.advance cr js resolver getter w entries)
  unfolding Writers.advance Leaves IsWriter
  advance-Leaves getter (reading key value lp) entries sizes p a = (a, (p, tt))
  advance-Leaves getter (validating key value lp snapshot) entries sizes p a =
      (a, validated_sound key value lp snapshot getter _ p refl)
  advance-Leaves getter (saving key value lp snapshot (r ∷ rs)) entries sizes (p, h, w) a =
      (save_record-AreEntries cr js resolver r.0 r.1 entries sizes h.0 a, ((p, h.1, w), tt))
  advance-Leaves getter (saving key value lp snapshot []) entries sizes (p, h, w) a =
      committed-Leaves key value lp snapshot entries p w a

  pub open_store-Leaves :
      (max_size : ℕ) (key : KademliaId) (value : Bytes) (entries : Dict Bytes)
      → AreEntries cr js resolver entries
      → Leaves (open_store cr js max_size key value entries)
  unfolding open_store opened Leaves IsEntry IsWriter
  open_store-Leaves max_size key value entries a =
      elim (Result-cases (check_key cr js max_size key value)) [
        | inl (x, e) ↦ rw (open_store, e) (a, tt)
        | inr (r, e) ↦ elim (check_key-cases max_size key value r e) [
          | inl (n, h) ↦
              rw (open_store, e, n)
                (insert-AreEntries cr js resolver key value entries (inl h) a, tt)
          | inr (lp, n, h) ↦ rw (open_store, e, n) (a, (h, tt))
        ]
      ]

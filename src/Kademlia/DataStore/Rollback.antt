-- ===== src/Kademlia/DataStore/Rollback.antt =====
-- The latest pointer at a key only moves forward (kademlia/datastore.go).
use d7024e_lab.Kademlia.DataStore.Writers
use d7024e_lab.Kademlia.DataStore.Sound
use d7024e_lab.Prelude.{
  All, Bool-cases, Option, Option-cases, [], ap, false, inl, inr, refl, some, subst, true, ℕ, ◌∙◌,
  ◌∷◌, ◌≡◌, ◌≢◌,
}
use d7024e_lab.Kademlia.DataStore.{
  check_key, commit, key_of_hash, parse_existing, save_record, unchanged,
}
use d7024e_lab.Kademlia.DataStore.Newer.{
  IsNotOlder, IsNotOlder-trans, WasAccepted-IsNewer, parse_existing-ok, unchanged-eq,
}
use d7024e_lab.Kademlia.DataStore.Reachable.{All-around, Writes-IsSound}
use d7024e_lab.Kademlia.DataStore.Sound.{IsPointerAt, IsWriter, WasAccepted}
use d7024e_lab.Kademlia.DataStore.Steps.{check_key-cases}
use d7024e_lab.Kademlia.DataStore.Writers.{
  Writer, committed, open_store, opened, reading, saving, validating,
}
use d7024e_lab.Kademlia.Id.{KademliaId}
use d7024e_lab.Prelude.Bytes.{Bytes, Bytes-cases, bytes_eq_iff, bytes_eq_ne}
use d7024e_lab.Prelude.Bytes.Dict.{
  Dict, has, has-lookup, insert, lookup, lookup-insert, lookup-remove, remove,
}
use d7024e_lab.Registry.Crypto.{Crypto, HasSizes}
use d7024e_lab.Registry.Outcome.{Result-cases, ok}
use d7024e_lab.Registry.Record.{Json, LatestPointer, Resolver, parse_latest_pointer}
use d7024e_lab.Registry.Validator.{Getter}

module _ (js : Json) where
  -- The store holds the pointer `lp` at the key.
  unfoldable pub Holds : Dict Bytes → KademliaId → LatestPointer → Type 0
  Holds entries key lp =
      (v : Bytes) × (lookup key entries ≡ some v) × (parse_latest_pointer js v ≡ ok lp)

  insert-other :
      (k key : KademliaId) (value : Bytes) (entries : Dict Bytes) (lp : LatestPointer)
      → k ≢ key
      → Holds entries key lp
      → Holds (insert k value entries) key lp
  unfolding Holds
  insert-other k key value entries lp ne (v, l, p) =
      (v, rw (lookup-insert k key value entries, bytes_eq_ne k key ne) l, p)

  remove-other :
      (k key : KademliaId) (entries : Dict Bytes) (lp : LatestPointer)
      → k ≢ key
      → Holds entries key lp
      → Holds (remove k entries) key lp
  unfolding Holds
  remove-other k key entries lp ne (v, l, p) =
      (v, rw (lookup-remove k key entries, bytes_eq_ne k key ne) l, p)

  save_record-Holds :
      (r : Bytes × Bytes) (entries : Dict Bytes) (key : KademliaId) (lp : LatestPointer)
      → Holds entries key lp
      → Holds (save_record r entries) key lp
  unfolding save_record Holds
  save_record-Holds (hash, data') entries key lp h = elim (Option-cases (key_of_hash hash)) [
    | inl e ↦ rw (save_record, e) h
    | inr (k, e) ↦ elim (Bool-cases (has k entries)) [
      | inl f ↦ rw (save_record, e, f) h
      | inr f ↦
          rw (save_record, e, f)
            (insert-other k key data' entries lp
              (λ q.
                let t : has key entries ≡ true = has-lookup key h.0 entries h.1 in
                let u : has key entries ≡ false = subst (λ x. has x entries ≡ false) q f in cc)
              h)
    ]
  ]

module _ (cr : Crypto) (js : Json) (resolver : Option Resolver) where
  seen_snapshot :
      (k key : KademliaId) (snapshot : Option Bytes) (entries : Dict Bytes) (old : LatestPointer)
      → k ≡ key
      → unchanged snapshot (lookup k entries) ≡ true
      → Holds js entries key old
      → parse_existing js snapshot ≡ some old
  unfolding Holds
  seen_snapshot k key snapshot entries old q e (v, l, p) =
      ap (parse_existing js)
        (unchanged-eq snapshot (lookup k entries) e ∙ ap (λ x. lookup x entries) q ∙ l)
      ∙ parse_existing-ok js v old p

  -- The store still holds the pointer at the key, or a newer one.
  unfoldable pub Forward : Dict Bytes → KademliaId → LatestPointer → Type 0
  Forward entries key old = (new : LatestPointer) × Holds js entries key new × IsNotOlder old new

  stays :
      (entries : Dict Bytes) (key : KademliaId) (old : LatestPointer)
      → Holds js entries key old
      → Forward entries key old
  unfolding Forward IsNotOlder
  stays entries key old h = (old, h, inl refl)

  -- A commit replaces exactly the pointer that the validation saw.
  commit-Forward :
      (k key : KademliaId) (value : Bytes) (lp : LatestPointer) (snapshot : Option Bytes)
      (entries : Dict Bytes) (old : LatestPointer)
      → IsPointerAt cr js k value lp
      → WasAccepted cr js resolver lp (parse_existing js snapshot)
      → Holds js entries key old
      → Forward (committed k value lp (commit k value snapshot entries)).0 key old
  unfolding Forward committed commit Holds IsNotOlder IsPointerAt
  commit-Forward k key value lp snapshot entries old p w h =
      elim (Bool-cases (unchanged snapshot (lookup k entries))) [
        | inr e ↦ rw (commit, e) (old, h, inl refl)
        | inl e ↦
            rw (commit, e)
              (elim (Bytes-cases k key) [
                | inr ne ↦ (old, insert-other js k key value entries old ne h, inl refl)
                | inl q ↦ (
                  lp,
                  (
                    value,
                    rw (lookup-insert k key value entries, (bytes_eq_iff k key).1 q) refl,
                    p.0,
                  ),
                  inr (
                      WasAccepted-IsNewer cr js resolver lp old (
                        subst (WasAccepted cr js resolver lp)
                          (seen_snapshot k key snapshot entries old q e h) w)),
                )
              ])
      ]

  advance-Forward :
      (getter : Getter) (w : Writer) (entries : Dict Bytes) (key : KademliaId) (old : LatestPointer)
      → IsWriter cr js resolver w
      → Holds js entries key old
      → Forward (Writers.advance cr js resolver getter w entries).0 key old
  unfolding Writers.advance IsWriter
  advance-Forward getter (reading k value lp) entries key old p h = stays entries key old h
  advance-Forward getter (validating k value lp snapshot) entries key old p h =
      stays entries key old h
  advance-Forward getter (saving k value lp snapshot (r ∷ rs)) entries key old p h =
      stays (save_record r entries) key old (save_record-Holds js r entries key old h)
  advance-Forward getter (saving k value lp snapshot []) entries key old (p, a, w) h =
      commit-Forward k key value lp snapshot entries old p w h

  open_store-forward :
      (max_size : ℕ) (k : KademliaId) (value : Bytes) (entries : Dict Bytes) (key : KademliaId)
      (old : LatestPointer)
      → (cr.sha256 value ≡ k → k ≢ key)
      → Holds js entries key old
      → Holds js (open_store cr js max_size k value entries).0 key old
  unfolding open_store opened
  open_store-forward max_size k value entries key old other h =
      elim (Result-cases (check_key cr js max_size k value)) [
        | inl (x, e) ↦ rw (open_store, e) h
        | inr (r, e) ↦ elim (check_key-cases cr js resolver max_size k value r e) [
          | inl (n, q) ↦ rw (open_store, e, n) (insert-other js k key value entries old (other q) h)
          | inr (lp, n, q) ↦ rw (open_store, e, n) h
        ]
      ]

module _ (cr : Crypto) (js : Json) (resolver : Option Resolver) (max_size : ℕ)
    (IsOpen : KademliaId → Type 0) (sizes : HasSizes cr) (key : KademliaId)
    (closed : ¬ IsOpen key) where
  other_key : {k : KademliaId} → IsOpen k → k ≢ key
  other_key {k} o e = closed (subst IsOpen e o)

  Write-Forward :
      {s u : Writers.System} (old : LatestPointer)
      → Sound.IsSound cr js resolver s
      → Holds js s.entries key old
      → Writers.Write cr js resolver max_size IsOpen s u
      → Forward cr js resolver u.entries key old
  Write-Forward {s} old sound h (Writers.call k value own) = stays cr js resolver _ key old (
      open_store-forward cr js resolver max_size k value s.entries key old (λ e. other_key (own e))
        h)
  Write-Forward {s} old sound h (Writers.move getter before w after e) =
      advance-Forward cr js resolver getter w s.entries key old
        (All-around (IsWriter cr js resolver) before w after
          (subst (All (IsWriter cr js resolver)) e sound.writers_sound)).1.0
        h
  Write-Forward {s} old sound h (Writers.erase k own) =
      stays cr js resolver _ key old (remove-other js k key s.entries old (other_key own) h)

  -- While nobody deletes a key or stores there a value that has the key as its hash, a latest pointer
  -- at the key is never lost and never replaced by one of the same or a lower version, however
  -- concurrent calls of `Store` interleave: what the store holds later is that pointer, or one for
  -- the same package with a greater version.
  pub Writes-Forward :
      {s u : Writers.System} (old : LatestPointer)
      → Sound.IsSound cr js resolver s
      → Holds js s.entries key old
      → Writers.Writes cr js resolver max_size IsOpen s u
      → Forward cr js resolver u.entries key old
  unfolding Forward
  Writes-Forward old sound h Writers.here = stays cr js resolver _ key old h
  Writes-Forward old sound h (Writers.next r st) =
      let (mid, hm, n) = Writes-Forward old sound h r in
      let (new, hn, n') =
        Write-Forward mid (Writes-IsSound cr js resolver max_size IsOpen sizes sound r) hm st in
      (new, hn, IsNotOlder-trans old mid new n n')

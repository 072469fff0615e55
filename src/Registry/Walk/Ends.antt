-- ===== src/Registry/Walk/Ends.antt =====
-- `WalkVersionChain` (registry/validator.go) ends, and what it returns is a chain.
use d7024e_lab.Prelude.{
  Bool-cases, List, Option, [], arith, inl, inr, leb→≤, length, refl, some, suc, true, zero, ℕ, ◌+◌,
  ◌<◌, ◌∷◌, ◌≡◌, ◌≤◌,
}
use d7024e_lab.Prelude.Bytes.{Bytes, bytes_eq_iff}
use d7024e_lab.Prelude.Bytes.Hex.{hex_encode}
use d7024e_lab.Registry.Crypto.{Crypto}
use d7024e_lab.Registry.Outcome.{
  Result, Result-cases, bind-ok, corrupt_record, err, err-ne-ok, invalid_history_chain,
  missing_version_record, ok, or_else, or_else-ok, then-ok,
}
use d7024e_lab.Registry.Record.{Json, VersionRecord, parse_version_record}
use d7024e_lab.Registry.Validator.{Getter, effective_depth, next_hash, norm_hash}
use d7024e_lab.Registry.Walk.{is_end, read_record, records, step, walk_version_chain_with_depth}

module _ (cr : Crypto) (js : Json) (getter : Getter) where
  -- The records from the hash `h` to the first one, each found under its hash.
  unfoldable pub IsChain : Bytes → List VersionRecord → Type 0
  IsChain h [] = is_end h ≡ true
  IsChain h (vr ∷ vrs) =
      (rec_bytes : Bytes) × (getter h ≡ ok rec_bytes)
      × (hex_encode (cr.sha256 rec_bytes) ≡ h)
      × (parse_version_record js rec_bytes ≡ ok vr)
      × IsChain (next_hash vr) vrs

  step-ok :
      (max_depth : ℕ) (h : Bytes) (visited : List Bytes) {vr : VersionRecord}
      → step cr js getter max_depth h visited ≡ ok vr
      → (length (h ∷ visited) ≤ max_depth)
        × (rec_bytes : Bytes) × (getter h ≡ ok rec_bytes)
        × (hex_encode (cr.sha256 rec_bytes) ≡ h)
        × (parse_version_record js rec_bytes ≡ ok vr)
  unfolding step read_record
  step-ok max_depth h visited e =
      let s1 = then-ok invalid_history_chain e in
      let s2 = then-ok invalid_history_chain s1.1 in
      let s3 = bind-ok (or_else (getter h) missing_version_record) s2.1 in
      let s4 = then-ok missing_version_record s3.2 in
      let s5 = then-ok corrupt_record s4.1 in
      (
        leb→≤ _ _ s2.0,
        s3.0,
        or_else-ok missing_version_record s3.1,
        (bytes_eq_iff _ _).0 s5.0,
        or_else-ok corrupt_record s5.1,
      )

  -- The loop returns, and a list without an error is a chain of bounded length.
  Ended : ℕ → Bytes → List Bytes → Option (List VersionRecord × Result (Unit {0})) → Type 0
  Ended max_depth h visited r =
      (vrs : List VersionRecord) × (e : Result (Unit {0})) × (r ≡ some (vrs, e))
      × (length visited + length vrs ≤ max_depth)
      × (e ≡ ok tt → IsChain h vrs)

  records-Ended :
      (max_depth n : ℕ) (h : Bytes) (visited : List Bytes)
      → length visited ≤ max_depth
      → suc max_depth < length visited + n
      → Ended max_depth h visited (records cr js getter max_depth n h visited)
  unfolding records Ended IsChain
  records-Ended max_depth zero h visited low enough = absurd (omega arith)
  records-Ended max_depth (suc n) h visited low enough = elim (Bool-cases (is_end h)) [
    | inl e ↦ rw (records, e) ([], ok tt, refl, omega arith, (λ q. e))
    | inr e ↦ elim (Result-cases (step cr js getter max_depth h visited)) [
      | inl (x, f) ↦
          rw (records, e, f) ([], err x, refl, omega arith, (λ q. absurd (err-ne-ok x tt q)))
      | inr (vr, f) ↦
          let s = step-ok max_depth h visited f in
          let (vrs, x, r, l, c) =
            records-Ended max_depth n (next_hash vr) (h ∷ visited) s.0 (omega arith) in
          rw (records, e, f, r) (vr ∷ vrs, x, refl, omega arith, (λ q. (s.1, s.2, s.3, s.4, c q)))
    ]
  ]

-- Whatever the getter answers, `WalkVersionChain` returns: at most as many records as the depth
-- allows, and if it reports no error they are the chain from the head to a first version, each
-- record stored under its hash and named by its successor.
pub walk_version_chain_with_depth_lem :
    (cr : Crypto) (js : Json) (head_hash : Bytes) (getter : Getter) (max_depth : ℕ)
    → (vrs : List VersionRecord) × (e : Result (Unit {0})) × (walk_version_chain_with_depth cr js
          head_hash
          (some getter)
          max_depth
        ≡ some (vrs, e))
      × (length vrs ≤ effective_depth max_depth)
      × (e ≡ ok tt → IsChain cr js getter (norm_hash head_hash) vrs)
unfolding walk_version_chain_with_depth Ended
walk_version_chain_with_depth_lem cr js head_hash getter max_depth =
    let d = effective_depth max_depth in
    let (vrs, e, r, l, c) =
      records-Ended cr js getter d (suc (suc d)) (norm_hash head_hash) [] (omega arith)
        (omega arith) in
    (vrs, e, r, omega arith, c)

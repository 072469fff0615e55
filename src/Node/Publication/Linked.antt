-- ===== src/Node/Publication/Linked.antt =====
-- What a publication that is not forced follows (cmd/node/cli.go).
use d7024e_lab.Registry.Version
use d7024e_lab.Prelude.{
  Bool, Bool-cases, List, Option, [], false, inl, inr, none, refl, some, sym, true, ◌∙◌, ◌≡◌, ◌⊎◌,
}
use d7024e_lab.Node.Publication.{
  check_rollback, choose_previous, find_in_chain, is_no_record, is_record_hash, link_first,
  link_to_latest, unless_forced,
}
use d7024e_lab.Prelude.Bytes.{Bytes, bytes_eq, bytes_eq_iff}
use d7024e_lab.Prelude.Bytes.Text.{to_lower}
use d7024e_lab.Registry.Crypto.{Crypto}
use d7024e_lab.Registry.Outcome.{Result, Result-cases, err, err-ne-ok, failure, ok, ok-injective}
use d7024e_lab.Registry.Record.{Json, LatestPointer, VersionRecord, zero_hash}
use d7024e_lab.Registry.Version.{Comparison, Version, above, below, parse_version, same}

unforced : (test : Bool) (p h : Bytes) → unless_forced false test p ≡ ok h → (test ≡ true) × (p ≡ h)
unfolding unless_forced
unforced true p h e = (refl, ok-injective e)
unforced false p h e = absurd (err-ne-ok failure h e)

unforced_same : (p cur h : Bytes) → unless_forced false (bytes_eq p cur) p ≡ ok h → h ≡ cur
unforced_same p cur h e =
    let (t, q) = unforced (bytes_eq p cur) p h e in sym q ∙ (bytes_eq_iff p cur).0 t

module _ (cr : Crypto) (js : Json) where
  link_to_latest-same :
      (lp : LatestPointer) (prev : Option Bytes) (chain : Result (List VersionRecord)) (h : Bytes)
      → link_to_latest cr js false lp prev chain ≡ ok h
      → h ≡ lp.version_record_hash
  unfolding link_to_latest
  link_to_latest-same lp none chain h e = sym (ok-injective e)
  link_to_latest-same lp (some prev) chain h e = elim (Bool-cases (is_no_record prev)) [
    | inl a ↦ absurd (
        let p : unless_forced false false zero_hash ≡ ok h = rw (link_to_latest, a) at e in
        let q : false ≡ true = (unforced false zero_hash h p).0 in cc)
    | inr a ↦ elim (Bool-cases (is_record_hash prev)) [
      | inl b ↦
          unforced_same (to_lower prev) lp.version_record_hash h (rw (link_to_latest, a, b) at e)
      | inr b ↦ elim (Bool-cases (bytes_eq (find_in_chain cr js prev chain) [])) [
        | inl c ↦ absurd (
            let p : err failure ≡ ok h = rw (link_to_latest, a, b, c) at e in err-ne-ok failure h p)
        | inr c ↦
            unforced_same (find_in_chain cr js prev chain) lp.version_record_hash h
              (rw (link_to_latest, a, b, c) at e)
      ]
    ]
  ]

  link_first-zero : (prev : Option Bytes) (h : Bytes) → link_first false prev ≡ ok h → h ≡ zero_hash
  unfolding link_first
  link_first-zero none h e = sym (ok-injective e)
  link_first-zero (some prev) h e = elim (Bool-cases (is_no_record prev)) [
    | inl a ↦ sym (ok-injective (let p : ok zero_hash ≡ ok h = rw (link_first, a) at e in p))
    | inr a ↦ absurd (let p : err failure ≡ ok h = rw (link_first, a) at e in err-ne-ok failure h p)
  ]

  check_rollback-above :
      (version : Bytes) (lp : LatestPointer) (v w : Version.Version)
      → check_rollback false version lp ≡ ok tt
      → parse_version version ≡ ok v
      → parse_version lp.version ≡ ok w
      → Version.compare v w ≡ above
  unfolding check_rollback
  check_rollback-above version lp v w e p q =
      by_outcome (Version.compare v w) (rw (check_rollback, p, q) at e)
    where
      by_outcome :
          (c : Comparison)
          → Path
              (Result (Unit {0}))
              (elim c [ above ↦ ok tt | same ↦ err failure | below ↦ err failure ])
              (ok tt)
          → c ≡ above
      by_outcome below h = absurd (err-ne-ok failure tt h)
      by_outcome same h = absurd (err-ne-ok failure tt h)
      by_outcome above h = refl

  -- A publication that is not forced, and is not refused, follows the record of the current latest
  -- pointer, whatever previous version it asks for, and its version, if both can be read, is above
  -- the current one; the first publication of a package follows no record. So it makes neither a
  -- fork nor a rollback.
  pub choose_previous-latest :
      (version : Bytes) (current : Option LatestPointer) (prev : Option Bytes)
      (chain : Result (List VersionRecord)) (h : Bytes)
      → choose_previous cr js false version current prev chain ≡ ok h
      → ((current ≡ none) × (h ≡ zero_hash))
        ⊎ ((lp : LatestPointer) × (current ≡ some lp)
            × (h ≡ lp.version_record_hash)
            × ((v w : Version.Version)
                → parse_version version ≡ ok v
                → parse_version lp.version ≡ ok w
                → Version.compare v w ≡ above))
  unfolding choose_previous
  choose_previous-latest version none prev chain h e = inl (refl, link_first-zero prev h e)
  choose_previous-latest version (some lp) prev chain h e =
      elim (Result-cases (check_rollback false version lp)) [
        | inl (x, q) ↦
            absurd (let p : err x ≡ ok h = rw (choose_previous, q) at e in err-ne-ok x h p)
        | inr (done, q) ↦ inr (
          lp,
          refl,
          link_to_latest-same lp prev chain h (rw (choose_previous, q) at e),
          λ v w. check_rollback-above version lp v w q,
        )
      ]

-- ===== src/Registry/Validator/Sound.antt =====
-- What an accepted latest pointer guarantees (registry/validator.go).
use d7024e_lab.Registry.Version
use mathlib.Core.List.{append_assoc, reverse-cons}
use d7024e_lab.Prelude.{
  All, Bool, Bool-cases, List, [], ap, false, if◌then◌else◌, inl, inr, refl, reverse, some, subst,
  suc, sym, true, zero, ℕ, ◌++◌, ◌∙◌, ◌∷◌, ◌≡◌, ◌⊎◌,
}
use d7024e_lab.Prelude.Bytes.{Bytes, bytes_eq, bytes_eq_iff}
use d7024e_lab.Prelude.Bytes.Hex.{hex_encode}
use d7024e_lab.Registry.Crypto.{Crypto}
use d7024e_lab.Registry.Outcome.{Result-cases, err, history_fork, ok}
use d7024e_lab.Registry.Record.{Json, LatestPointer, VersionRecord, zero_hash}
use d7024e_lab.Registry.Validator.{Getter, Walk, next_hash, visit, walk}
use d7024e_lab.Registry.Validator.Chain.{Authentic, Follows, Visited, visit-Visited}
use d7024e_lab.Registry.Version.{Version, above}

module _ (cr : Crypto) (js : Json) (lp : LatestPointer) (owner : Bytes) (getter : Getter) where
  -- A chain of the owner's records from the hash `hash` to `target`: the versions fall, `last` is
  -- that of the last record, and the list has each record's hash and bytes. Without an existing
  -- pointer it may also end at the zero hash.
  pub data Chain (target : Bytes) (has_existing : Bool)
      : Bool → Version.Version → Bytes → Version.Version → List (Bytes × Bytes) → Type 0 where
    ends :
        {head : Bool} {last : Version.Version} {hash : Bytes}
        → (hash ≡ target) ⊎ ((has_existing ≡ false) × (hash ≡ zero_hash))
        → Chain target has_existing head last hash last []
    link :
        {head : Bool} {above : Version.Version} {hash rec_bytes : Bytes} {vr : VersionRecord}
        {ver last : Version.Version} {rest : List (Bytes × Bytes)}
        → Authentic cr js lp owner getter hash rec_bytes vr ver
        → Follows cr js lp owner getter head above vr ver
        → Chain target has_existing false ver (next_hash vr) last rest
        → Chain target has_existing head above hash last ((hash, rec_bytes) ∷ rest)

  -- The walk from `w` ended at `w'`.
  unfoldable pub Walked : Bytes → Bool → Walk → Walk → Type 0
  Walked target has_existing w w' =
      (rest : List (Bytes × Bytes)) × Chain target has_existing w.head w.last w.current w'.last rest
      × (w'.to_save ≡ reverse rest ++ w.to_save)

  Walked-here :
      (target : Bytes) (has_existing : Bool) (w w' : Walk)
      → w ≡ w'
      → (w.current ≡ target) ⊎ ((has_existing ≡ false) × (w.current ≡ zero_hash))
      → Walked target has_existing w w'
  unfolding Walked
  Walked-here target has_existing w w' unmoved e =
      subst (Walked target has_existing w) unmoved ([], ends e, refl)

  Walked-zero :
      (target : Bytes) (has_existing : Bool) (w w' : Walk)
      → w.current ≡ zero_hash
      → some (if has_existing then err history_fork else ok w) ≡ some (ok w')
      → Walked target has_existing w w'
  Walked-zero target true w w' e h = cc
  Walked-zero target false w w' e h = Walked-here target false w w' (cc) (inr (refl, e))

  Walked-next :
      (max_depth : ℕ) (target : Bytes) (has_existing : Bool) (w w₁ w' : Walk)
      → Visited cr js lp owner getter max_depth w w₁
      → Walked target has_existing w₁ w'
      → Walked target has_existing w w'
  unfolding Walked
  Walked-next max_depth target has_existing w w₁ w' v (rest, chain, saves) = (
    (w.current, v.rec_bytes) ∷ rest,
    link v.authentic v.follows (
        subst (λ q. Chain target has_existing q w₁.last (next_hash v.vr) w'.last rest) v.goes_on
          (subst (λ q. Chain target has_existing w₁.head w₁.last q w'.last rest) v.links chain)),
    saves
        ∙ ap (λ q. reverse rest ++ q) v.saves
        ∙ sym (append_assoc (reverse rest) ((w.current, v.rec_bytes) ∷ []) w.to_save)
        ∙ ap (λ q. q ++ w.to_save) (sym (reverse-cons (w.current, v.rec_bytes) rest)),
  )

  pub walk-Chain :
      (max_depth n : ℕ) (target : Bytes) (has_existing : Bool) (w : Walk) {w' : Walk}
      → walk cr js lp owner getter max_depth n target has_existing w ≡ some (ok w')
      → Walked target has_existing w w'
  unfolding walk
  walk-Chain max_depth zero target has_existing w = λ h. cc
  walk-Chain max_depth (suc n) target has_existing w {w'} =
      elim (Bool-cases (bytes_eq w.current target)) [
        | inl e ↦
            rw (walk, e)
              (λ h. Walked-here target has_existing w w' (cc) (inl ((bytes_eq_iff _ _).0 e)))
        | inr e ↦ elim (Bool-cases (bytes_eq w.current zero_hash)) [
          | inl f ↦ rw (walk, e, f) (Walked-zero target has_existing w w' ((bytes_eq_iff _ _).0 f))
          | inr f ↦ elim (Result-cases (visit cr js lp owner getter max_depth w)) [
            | inl (x, g) ↦ rw (walk, e, f, g) (λ h. cc)
            | inr (w₁, g) ↦
                rw (walk, e, f, g)
                  (λ h.
                    Walked-next max_depth target has_existing w w₁ w'
                      (visit-Visited cr js lp owner getter max_depth w g)
                      (walk-Chain max_depth n target has_existing w₁ h))
          ]
        ]
      ]

  -- What is saved are records under their hashes.
  pub Chain-hashed :
      (saves : List (Bytes × Bytes)) {target : Bytes} {has_existing head : Bool}
      {from last : Version.Version} {hash : Bytes}
      → Chain target has_existing head from hash last saves
      → All (λ s. hex_encode (cr.sha256 s.1) ≡ s.0) saves
  Chain-hashed [] c = tt
  Chain-hashed (s ∷ ss) (link a f c) = (a.hashed, Chain-hashed ss c)

-- ===== src/Registry/Validator/Fuel.antt =====
-- The walk along the chain (registry/validator.go) ends: the visited hashes are bounded.
use d7024e_lab.Prelude.{
  Bool, Bool-cases, Option, ap, arith, inl, inr, length, none, refl, some, suc, zero, ℕ, ◌+◌, ◌<◌,
  ◌≢◌, ◌≤◌,
}
use d7024e_lab.Prelude.Bytes.{Bytes, bytes_eq}
use d7024e_lab.Registry.Crypto.{Crypto}
use d7024e_lab.Registry.Outcome.{Result, Result-cases, err, ok}
use d7024e_lab.Registry.Record.{Json, LatestPointer, Resolver, zero_hash}
use d7024e_lab.Registry.Validator.{
  Getter, Walk, after_checks, conclude, effective_depth, start_walk,
  validate_latest_pointer_chain_with_depth, visit, walk, walk_from,
}
use d7024e_lab.Registry.Validator.Chain.{visit-Visited}

module _ (cr : Crypto) (js : Json) (lp : LatestPointer) (owner : Bytes) (getter : Getter) where
  walk_enough :
      (max_depth n : ℕ) (target : Bytes) (has_existing : Bool) (w : Walk)
      → length w.visited ≤ max_depth
      → suc max_depth < length w.visited + n
      → walk cr js lp owner getter max_depth n target has_existing w ≢ none
  unfolding walk
  walk_enough max_depth zero target has_existing w low enough = omega arith
  walk_enough max_depth (suc n) target has_existing w low enough =
      elim (Bool-cases (bytes_eq w.current target)) [
        | inl e ↦ rw (walk, e) (λ h. cc)
        | inr e ↦ elim (Bool-cases (bytes_eq w.current zero_hash)) [
          | inl f ↦ rw (walk, e, f) (λ h. cc)
          | inr f ↦ elim (Result-cases (visit cr js lp owner getter max_depth w)) [
            | inl (x, g) ↦ rw (walk, e, f, g) (λ h. cc)
            | inr (w', g) ↦
                let v = visit-Visited cr js lp owner getter max_depth w g in
                rw (walk, e, f, g)
                  (walk_enough max_depth n target has_existing w' v.bounded
                    (grind (arith, ap length v.marks)))
          ]
        ]
      ]

  -- `suc (suc depth)` rounds are enough.
  pub walk_from-total :
      (existing : Option LatestPointer) (target : Bytes) (depth : ℕ)
      → walk_from cr js lp existing owner target getter depth ≢ none
  unfolding walk_from start_walk
  walk_from-total existing target depth =
      walk_enough depth (suc (suc depth)) _ _ (start_walk lp) (omega arith) (omega arith)

conclude-total :
    (existing : Option LatestPointer) (r : Option (Result Walk))
    → r ≢ none
    → conclude existing r ≢ none
unfolding conclude
conclude-total existing none h = λ e. h refl
conclude-total existing (some (err x)) h = λ e. cc
conclude-total existing (some (ok w)) h = λ e. cc

after_checks-total :
    (cr : Crypto) (js : Json) (lp : LatestPointer) (existing : Option LatestPointer)
    (getter : Option Getter) (max_depth : ℕ) (r : Result (Bytes × Bytes))
    → after_checks cr js lp existing getter max_depth r ≢ none
unfolding after_checks
after_checks-total cr js lp existing getter max_depth (err e) = λ h. cc
after_checks-total cr js lp existing none max_depth (ok (owner, target)) = λ h. cc
after_checks-total cr js lp existing (some get) max_depth (ok (owner, target)) =
    conclude-total existing _
      (walk_from-total cr js lp owner get existing target (effective_depth max_depth))

-- Whatever the getter answers, cycles and chains without end included, the validation of a latest
-- pointer ends: it gives a result or an error.
pub validate_latest_pointer_chain_with_depth-total :
    (cr : Crypto) (js : Json) (lp existing : Option LatestPointer) (resolver : Option Resolver)
    (getter : Option Getter) (max_depth : ℕ)
    → validate_latest_pointer_chain_with_depth cr js lp existing resolver getter max_depth ≢ none
unfolding validate_latest_pointer_chain_with_depth
validate_latest_pointer_chain_with_depth-total cr js none existing resolver getter max_depth =
    λ h. cc
validate_latest_pointer_chain_with_depth-total cr js (some lp) existing resolver getter max_depth =
    after_checks-total cr js lp existing getter max_depth _

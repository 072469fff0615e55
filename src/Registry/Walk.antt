-- ===== src/Registry/Walk.antt =====
-- registry/validator.go: `WalkVersionChain`, the records of a chain from its head to the first one.
pub mod Ends
use d7024e_lab.Prelude.{
  Bool, List, Option, [], false, leb, length, none, not, some, suc, true, zero, ℕ, ◌||◌, ◌∷◌,
}
use d7024e_lab.Prelude.Bytes.{Bytes, bytes_eq}
use d7024e_lab.Prelude.Bytes.Hex.{hex_encode}
use d7024e_lab.Registry.Crypto.{Crypto}
use d7024e_lab.Registry.Outcome.{
  Result, corrupt_record, err, failure, invalid_history_chain, missing_version_record, ok, or_else,
  require, ◌>>=◌, ◌>>◌,
}
use d7024e_lab.Registry.Record.{Json, VersionRecord, parse_version_record, zero_hash}
use d7024e_lab.Registry.Validator.{
  Getter, default_max_chain_depth, effective_depth, next_hash, norm_hash, seen,
}

-- The test of the loop: no record has this hash.
abbrev pub is_end : Bytes → Bool
is_end h = bytes_eq h [] || bytes_eq h zero_hash

module _ (cr : Crypto) (js : Json) (getter : Getter) where
  -- The record with the hash.
  unfoldable pub read_record : Bytes → Result VersionRecord
  read_record hash = do
    data' ← or_else (getter hash) missing_version_record
    require (not (bytes_eq data' [])) missing_version_record
    require (bytes_eq (hex_encode (cr.sha256 data')) hash) corrupt_record
    or_else (parse_version_record js data') corrupt_record

  -- One round of the loop: `visited` has the hash already.
  unfoldable pub step : ℕ → Bytes → List Bytes → Result VersionRecord
  unfolding read_record
  step max_depth hash visited = do
    require (not (seen hash visited)) invalid_history_chain
    require (leb (length (hash ∷ visited)) max_depth) invalid_history_chain
    read_record hash

  -- The records found, and the error that ended the loop early, if any. The outer `none` means that
  -- the fuel ran out.
  unfoldable pub records :
      ℕ → ℕ → Bytes → List Bytes → Option (List VersionRecord × Result (Unit {0}))
  unfolding step
  records max_depth zero hash visited = none
  records max_depth (suc n) hash visited = elim (is_end hash) [
    | true ↦ some ([], ok tt)
    | false ↦ elim (step max_depth hash visited) [
      | err e ↦ some ([], err e)
      | ok vr ↦ elim (records max_depth n (next_hash vr) (hash ∷ visited)) [
        | none ↦ none
        | some (vrs, e) ↦ some (vr ∷ vrs, e)
      ]
    ]
  ]

-- One round more than the records that may be visited, and one for the end.
unfoldable pub walk_version_chain_with_depth :
    Crypto → Json → Bytes → Option Getter → ℕ → Option (List VersionRecord × Result (Unit {0}))
unfolding records
walk_version_chain_with_depth cr js head_hash none max_depth = some ([], err failure)
walk_version_chain_with_depth cr js head_hash (some getter) max_depth =
    records cr js getter (effective_depth max_depth) (suc (suc (effective_depth max_depth)))
      (norm_hash head_hash) []

unfoldable pub walk_version_chain :
    Crypto → Json → Bytes → Option Getter → Option (List VersionRecord × Result (Unit {0}))
unfolding walk_version_chain_with_depth
walk_version_chain cr js head_hash getter =
    walk_version_chain_with_depth cr js head_hash getter default_max_chain_depth

-- ===== src/Registry/Validator/Package.antt =====
-- `PackageValidator` of registry/validator.go. The records to save come with the verdict; without a
-- saver none is saved.
use d7024e_lab.Prelude.{Bool, List, Option, [], if◌then◌else◌, none, refl, some, ℕ, ◌≢◌}
use d7024e_lab.Prelude.Bytes.{Bytes}
use d7024e_lab.Registry.Crypto.{Crypto}
use d7024e_lab.Registry.Outcome.{Result, err, failure, ok}
use d7024e_lab.Registry.Record.{Json, LatestPointer, Resolver}
use d7024e_lab.Registry.Validator.{
  Getter, default_max_chain_depth, effective_depth, validate_latest_pointer_chain_with_depth,
}
use d7024e_lab.Registry.Validator.Fuel.{validate_latest_pointer_chain_with_depth-total}

-- `saves` says that `Saver` is not nil; `max_chain_depth` is 0 for what is not positive.
pub record PackageValidator : Type 0 where
  pub resolver : Option Resolver
  pub getter : Option Getter
  pub saves : Bool
  pub max_chain_depth : ℕ

unfoldable pub new_package_validator : Option Resolver → Option Getter → Bool → PackageValidator
new_package_validator resolver getter saves = record {
  resolver = resolver;
  getter = getter;
  saves = saves;
  max_chain_depth = default_max_chain_depth;
}

-- What is saved.
unfoldable pub saved_by :
    PackageValidator
    → Option (Result (List (Bytes × Bytes)))
    → Option (Result (List (Bytes × Bytes)))
saved_by pv none = none
saved_by pv (some (err e)) = some (err e)
saved_by pv (some (ok records)) = some (ok (if pv.saves then records else []))

unfoldable pub validate_publication :
    Crypto
    → Json
    → Option PackageValidator
    → Option LatestPointer
    → Option LatestPointer
    → Option (Result (List (Bytes × Bytes)))
unfolding saved_by
validate_publication cr js none lp existing = some (err failure)
validate_publication cr js (some pv) lp existing = saved_by pv (
    validate_latest_pointer_chain_with_depth cr js lp existing pv.resolver pv.getter
      (effective_depth pv.max_chain_depth))

-- `ValidatePublication` of a validator returns, whatever its resolver and getter answer.
pub validate_publication-total :
    (cr : Crypto) (js : Json) (pv : Option PackageValidator) (lp existing : Option LatestPointer)
    → validate_publication cr js pv lp existing ≢ none
unfolding validate_publication saved_by
validate_publication-total cr js none lp existing = λ e. cc
validate_publication-total cr js (some pv) lp existing =
    saved
      (validate_latest_pointer_chain_with_depth cr js lp existing pv.resolver pv.getter
        (effective_depth pv.max_chain_depth))
      (validate_latest_pointer_chain_with_depth-total cr js lp existing pv.resolver pv.getter
        (effective_depth pv.max_chain_depth))
  where
    saved : (r : Option (Result (List (Bytes × Bytes)))) → r ≢ none → saved_by pv r ≢ none
    saved none h = λ e. h refl
    saved (some (err x)) h = λ e. cc
    saved (some (ok records)) h = λ e. cc

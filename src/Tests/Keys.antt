-- ===== src/Tests/Keys.antt =====
-- Keys of the domain a.se, saved in a directory, loaded and deleted.
use d7024e_lab.Registry.KeyManager
use d7024e_lab.Node.Resolver
use d7024e_lab.Prelude.{
  All-replicate, [], arith, if◌then◌else◌, none, refl, replicate, some, true, ◌∷◌, ◌≡◌,
}
use d7024e_lab.Node.Resolver.Remembered.{deleted, lookup_owner_key-delete, remembering}
use d7024e_lab.Prelude.Bytes.{IsByte, bytes_eq}
use d7024e_lab.Prelude.Bytes.Text.{
  contains, has_prefix, is_space, lower_byte, split, split_parts, text, to_lower, trim_left,
  trim_right, trim_space,
}
use d7024e_lab.Registry.Dns.{new_mock_dns_resolver}
use d7024e_lab.Registry.Domain.{is_valid_domain, normalize_domain}
use d7024e_lab.Registry.KeyManager.{
  DomainKeyPair, FileSystem, KeyJson, KeyManager, save_to_file, to_dto,
}
use d7024e_lab.Registry.KeyManager.Kept.{HasKeySizes}
use d7024e_lab.Registry.KeyManager.Loaded.{load-delete, load-save}
use d7024e_lab.Registry.Outcome.{err, key_not_found, ok}
use d7024e_lab.Tests.Chains.{toy_crypto}
use d7024e_lab.Tests.Signatures.{zero_key, zero_key_bytes}

abbrev toy_pair : DomainKeyPair
toy_pair = record {
  domain = text "a.se";
  public_key = zero_key;
  private_key = replicate 64 7;
  created_at = 1;
}

-- Every file is that of the pair.
abbrev pair_json : KeyJson
pair_json = record { marshal_key = λ d. 1 ∷ []; unmarshal_key = λ s. some (to_dto toy_pair) }

abbrev usual_files : FileSystem
usual_files = record { writable = λ name. true; removable = λ name. true }

abbrev no_keys : KeyManager.KeyManager
no_keys = KeyManager.new_key_manager true []

abbrev one_pair : KeyManager.KeyManager
one_pair = (KeyManager.save pair_json usual_files no_keys (some toy_pair)).0

toy_pair-HasKeySizes : HasKeySizes toy_pair
toy_pair-HasKeySizes = record {
  public_size = refl;
  public_bytes = zero_key_bytes;
  private_size = refl;
  private_bytes = All-replicate IsByte 64 7 (omega arith);
}

pair_is_saved : (KeyManager.save pair_json usual_files no_keys (some toy_pair)).1 ≡ ok tt
unfolding KeyManager.save KeyManager.save_under save_to_file is_valid_domain normalize_domain
    trim_right trim_left to_lower trim_space contains split split_parts bytes_eq is_space lower_byte
    has_prefix
pair_is_saved = refl

same_domain : normalize_domain (text "A.se") ≡ normalize_domain (text "a.se")
unfolding normalize_domain trim_right trim_left to_lower trim_space is_space lower_byte
same_domain = refl

load-save_example :
    (KeyManager.load pair_json usual_files toy_crypto one_pair (text "A.se")).1 ≡ ok toy_pair
load-save_example =
    load-save toy_crypto pair_json usual_files no_keys toy_pair (text "A.se") toy_pair-HasKeySizes
      refl same_domain pair_is_saved

domain_is_valid : is_valid_domain (normalize_domain (text "a.se")) ≡ true
unfolding is_valid_domain normalize_domain trim_right trim_left to_lower trim_space contains split
    split_parts bytes_eq is_space lower_byte has_prefix
domain_is_valid = refl

load-delete_example :
    ((KeyManager.delete pair_json usual_files one_pair (text "a.se")).1 ≡ ok tt)
    × ((KeyManager.load pair_json usual_files toy_crypto
          (KeyManager.delete pair_json usual_files one_pair (text "a.se")).0
          (text "A.se")).1
        ≡ (if bytes_eq (normalize_domain (text "a.se")) (normalize_domain (text "A.se"))
            then err key_not_found
            else (KeyManager.load pair_json usual_files toy_crypto one_pair (text "A.se")).1))
load-delete_example =
    load-delete toy_crypto pair_json usual_files one_pair (text "a.se") (text "A.se")
      domain_is_valid refl

domain_is_normal : normalize_domain (text "a.se") ≡ text "a.se"
unfolding normalize_domain trim_right trim_left to_lower trim_space is_space lower_byte
domain_is_normal = refl

lookup_owner_key-delete_example :
    (Resolver.lookup_owner_key pair_json usual_files toy_crypto
        (record { mock = some new_mock_dns_resolver; system = none; km = some one_pair })
        (text "a.se")
      ≡ (
        remembering pair_json usual_files toy_crypto new_mock_dns_resolver none one_pair
            (text "a.se")
            toy_pair,
        ok zero_key,
      ))
    × ((KeyManager.load pair_json usual_files toy_crypto
          (KeyManager.delete pair_json usual_files
            (KeyManager.load pair_json usual_files toy_crypto one_pair (text "a.se")).0
            (text "a.se")).0
          (text "a.se")).1
        ≡ err key_not_found)
    × ((Resolver.lookup_owner_key pair_json usual_files toy_crypto
          (deleted pair_json usual_files toy_crypto new_mock_dns_resolver none one_pair
            (text "a.se")
            toy_pair)
          (text "a.se")).1
        ≡ ok zero_key)
lookup_owner_key-delete_example =
    lookup_owner_key-delete pair_json usual_files toy_crypto new_mock_dns_resolver none one_pair
      (text "a.se") toy_pair domain_is_normal
      (load-save toy_crypto pair_json usual_files no_keys toy_pair (text "a.se")
        toy_pair-HasKeySizes refl refl pair_is_saved)
      refl refl

-- A name that ends in a space and a dot is accepted, and filed with the space.
odd_name : (normalize_domain (text "a .") ≡ text "a ") × (is_valid_domain (text "a ") ≡ true)
unfolding is_valid_domain normalize_domain trim_right trim_left to_lower trim_space contains split
    split_parts bytes_eq is_space lower_byte has_prefix
odd_name = (refl, refl)

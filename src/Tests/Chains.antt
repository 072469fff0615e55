-- ===== src/Tests/Chains.antt =====
-- A chain of one record that is accepted, with a hash and signatures made for the test.
use d7024e_lab.Registry.Version
use d7024e_lab.Prelude.{
  [], if◌then◌else◌, map, none, refl, replicate, some, take, true, ◌%◌, ◌++◌, ◌∷◌, ◌≡◌, ◌≢◌,
}
use d7024e_lab.Prelude.Bytes.{Bytes, bytes_eq}
use d7024e_lab.Prelude.Bytes.Hex.{hex_decode, hex_encode}
use d7024e_lab.Prelude.Bytes.Text.{
  contains, equal_fold, has_prefix, is_space, lower_byte, split, split_parts, text, to_lower,
  trim_left, trim_right, trim_space,
}
use d7024e_lab.Registry.Crypto.{Crypto, clean_hex, decode_signature_hex, verify}
use d7024e_lab.Registry.Domain.{is_valid_domain, is_valid_package_name, normalize_domain}
use d7024e_lab.Registry.Outcome.{ok}
use d7024e_lab.Registry.Record.{
  Json, LatestPointer, Resolver, VersionRecord, compare_pointers, parse_version_record,
  pointer_payload_bytes, record_payload_bytes, tag_latest_pointer, tag_version_record,
  validate_pointer, validate_record, verify_pointer, verify_record, zero_hash,
}
use d7024e_lab.Registry.Validator.{
  Getter, after_checks, check_arguments, check_existing, check_last, check_pointer, check_version,
  conclude, effective_depth, fetch, finish, next_hash, norm_hash, seen, start_walk,
  validate_latest_pointer_chain_with_depth, visit, walk, walk_from,
}
use d7024e_lab.Registry.Validator.Acceptance.{validate_latest_pointer_chain_with_depth-Accepted}
use d7024e_lab.Registry.Validator.Accepted.{Accepted}
use d7024e_lab.Registry.Validator.Fuel.{validate_latest_pointer_chain_with_depth-total}
use d7024e_lab.Registry.Version.{Version, parse_part, parse_parts, parse_version}

-- The hash pads with zeros, and every signature of the right size verifies.
abbrev pub toy_crypto : Crypto
toy_crypto = record {
  sha256 = λ s. take 32 (map (λ b. b % 256) s ++ replicate 32 0);
  ed25519_verify = λ pub' msg sig. true;
  ed25519_sign = λ priv msg. replicate 64 0;
  new_key_from_seed = λ seed. seed ++ seed;
}

abbrev pub some_signature : Bytes
some_signature = replicate 128 b'0'

-- The hash of the bytes 1 alone.
abbrev pub hash_of_one : Bytes
hash_of_one = text "01" ++ replicate 62 b'0'

abbrev pub toy_record : VersionRecord
toy_record = record {
  tag = tag_version_record;
  domain = text "a.se";
  package_name = text "p";
  version = text "1.0.0";
  blob_hash = hash_of_one;
  previous_version_record = zero_hash;
  signature = some_signature;
}

abbrev pub toy_pointer : LatestPointer
toy_pointer = record {
  tag = tag_latest_pointer;
  domain = text "a.se";
  package_name = text "p";
  version = text "1.0.0";
  version_record_hash = hash_of_one;
  signature = some_signature;
}

-- The byte 1 is the record, the byte 2 the pointer.
abbrev pub toy_json : Json
toy_json = record {
  marshal_record = λ vr. 1 ∷ [];
  unmarshal_record = λ s. if bytes_eq s (1 ∷ []) then some toy_record else none;
  marshal_pointer = λ lp. 2 ∷ [];
  unmarshal_pointer = λ s. if bytes_eq s (2 ∷ []) then some toy_pointer else none;
  unmarshal_tag = λ s. none;
}

abbrev pub toy_resolver : Resolver
toy_resolver domain = ok (replicate 32 0)

abbrev pub toy_getter : Getter
toy_getter hash = ok (1 ∷ [])

pub toy_pointer_is_accepted :
    validate_latest_pointer_chain_with_depth toy_crypto toy_json
      (some toy_pointer)
      none
      (some toy_resolver)
      (some toy_getter)
      3
    ≡ some (ok ((hash_of_one, 1 ∷ []) ∷ []))
unfolding validate_latest_pointer_chain_with_depth after_checks check_arguments check_pointer
    check_existing validate_pointer bytes_eq is_valid_domain trim_right trim_left to_lower
    trim_space contains split split_parts is_valid_package_name parse_version equal_fold zero_hash
    verify_pointer decode_signature_hex hex_decode clean_hex verify norm_hash hex_encode has_prefix
    is_space lower_byte normalize_domain compare_pointers parse_version_record pointer_payload_bytes
    record_payload_bytes validate_record verify_record check_version conclude effective_depth fetch
    finish next_hash seen start_walk visit walk walk_from Version.compare parse_part parse_parts
    check_last
toy_pointer_is_accepted = refl

validate_latest_pointer_chain_with_depth-Accepted_example :
    Accepted toy_crypto toy_json toy_pointer none toy_resolver toy_getter
      ((hash_of_one, 1 ∷ []) ∷ [])
validate_latest_pointer_chain_with_depth-Accepted_example =
    validate_latest_pointer_chain_with_depth-Accepted toy_crypto toy_json toy_pointer none
      toy_resolver toy_getter 3 ((hash_of_one, 1 ∷ []) ∷ []) toy_pointer_is_accepted

-- A record that names itself as its predecessor.
validate_latest_pointer_chain_with_depth-total_example :
    validate_latest_pointer_chain_with_depth toy_crypto toy_json
      (some toy_pointer)
      none
      (some toy_resolver)
      (some toy_getter)
      1
    ≢ none
validate_latest_pointer_chain_with_depth-total_example =
    validate_latest_pointer_chain_with_depth-total toy_crypto toy_json (some toy_pointer) none
      (some toy_resolver) (some toy_getter) 1

pub toy_pointer-Accepted :
    Accepted toy_crypto toy_json toy_pointer none toy_resolver toy_getter
      ((hash_of_one, 1 ∷ []) ∷ [])
toy_pointer-Accepted =
    validate_latest_pointer_chain_with_depth-Accepted toy_crypto toy_json toy_pointer none
      toy_resolver toy_getter 3 ((hash_of_one, 1 ∷ []) ∷ []) toy_pointer_is_accepted

-- ===== src/Tests/Signatures.antt =====
-- Records, signatures and keys: the properties at concrete ones.
use d7024e_lab.Registry.Version
use d7024e_lab.Prelude.{
  All, All-replicate, List, [], arith, length, refl, replicate, some, ◌∷◌, ◌≡◌, ◌≤◌,
}
use d7024e_lab.Prelude.Bytes.{Bytes, IsByte, bytes_eq}
use d7024e_lab.Prelude.Bytes.Dict.{insert}
use d7024e_lab.Prelude.Bytes.Hex.{hex_encode}
use d7024e_lab.Prelude.Bytes.Text.{
  contains, has_prefix, is_space, lower_byte, split, split_parts, text, to_lower, trim_left,
  trim_right, trim_space,
}
use d7024e_lab.Registry.Crypto.{encode_signature_hex, sign}
use d7024e_lab.Registry.Dns.{
  MockDnsResolver, format_dns_txt_record, new_mock_dns_resolver, parse_owner_key_from_txt_records,
  set_key,
}
use d7024e_lab.Registry.Dns.KeysFound.{parse_owner_key_from_txt_records-format_dns_txt_record}
use d7024e_lab.Registry.Domain.{is_valid_domain, is_valid_package_name, normalize_domain}
use d7024e_lab.Registry.Outcome.{Result, ok}
use d7024e_lab.Registry.Record.{
  VersionRecord, new_version_record, record_payload_bytes, sign_record, validate_record,
  verify_record, zero_hash,
}
use d7024e_lab.Registry.Record.Signed.{IsKeyPair, verify_record-sign_record}
use d7024e_lab.Registry.Validator.{effective_depth, norm_hash}
use d7024e_lab.Registry.Version.{Version, parse_part, parse_parts, parse_version}
use d7024e_lab.Registry.Walk.{walk_version_chain_with_depth}
use d7024e_lab.Registry.Walk.Ends.{IsChain, walk_version_chain_with_depth_lem}
use d7024e_lab.Tests.Chains.{hash_of_one, toy_crypto, toy_getter, toy_json, toy_record}
use d7024e_lab.Tests.Stores.{toy_crypto-HasSizes}

abbrev pub zero_key : Bytes
zero_key = replicate 32 0

pub zero_key_bytes : All IsByte zero_key
zero_key_bytes = All-replicate IsByte 32 0 (omega arith)

toy_record_is_signed : sign_record toy_crypto toy_json toy_record zero_key ≡ ok toy_record
unfolding new_version_record sign_record record_payload_bytes bytes_eq is_valid_domain trim_right
    trim_left to_lower trim_space contains split split_parts is_valid_package_name parse_version
    zero_hash hex_encode encode_signature_hex sign has_prefix is_space lower_byte normalize_domain
    validate_record parse_part parse_parts Version.string set_key insert
toy_record_is_signed = refl

verify_record-sign_record_example : verify_record toy_crypto toy_json toy_record zero_key ≡ ok tt
unfolding IsKeyPair
verify_record-sign_record_example =
    verify_record-sign_record toy_crypto toy_json toy_crypto-HasSizes zero_key zero_key toy_record
      toy_record refl (λ msg. refl) toy_record_is_signed

new_record_is_made :
    new_version_record (text " A.se.") (text "p") (text "v1") hash_of_one []
    ≡ ok (record toy_record { signature = [] })
unfolding new_version_record sign_record record_payload_bytes bytes_eq is_valid_domain trim_right
    trim_left to_lower trim_space contains split split_parts is_valid_package_name parse_version
    zero_hash hex_encode encode_signature_hex sign has_prefix is_space lower_byte normalize_domain
    validate_record parse_part parse_parts Version.string set_key insert
new_record_is_made = refl

parse_owner_key_from_txt_records-format_dns_txt_record_example :
    parse_owner_key_from_txt_records (format_dns_txt_record zero_key ∷ []) [] ≡ ok zero_key
parse_owner_key_from_txt_records-format_dns_txt_record_example =
    parse_owner_key_from_txt_records-format_dns_txt_record zero_key zero_key_bytes refl

abbrev one_key : MockDnsResolver
one_key = record { records = (text "a.se", zero_key) ∷ [] }

key_is_set : set_key new_mock_dns_resolver (text "A.se") zero_key ≡ ok one_key
unfolding new_version_record sign_record record_payload_bytes bytes_eq is_valid_domain trim_right
    trim_left to_lower trim_space contains split split_parts is_valid_package_name parse_version
    zero_hash hex_encode encode_signature_hex sign has_prefix is_space lower_byte normalize_domain
    validate_record parse_part parse_parts Version.string set_key insert
key_is_set = refl

walk_version_chain_with_depth_lem_example :
    (vrs : List VersionRecord) × (e : Result (Unit {0})) × (walk_version_chain_with_depth toy_crypto
        toy_json hash_of_one
        (some toy_getter)
        3
      ≡ some (vrs, e))
    × (length vrs ≤ effective_depth 3)
    × (e ≡ ok tt → IsChain toy_crypto toy_json toy_getter (norm_hash hash_of_one) vrs)
walk_version_chain_with_depth_lem_example =
    walk_version_chain_with_depth_lem toy_crypto toy_json hash_of_one toy_getter 3

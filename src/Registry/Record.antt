-- ===== src/Registry/Record.antt =====
-- registry/record.go: version records and latest pointers, their validation and signatures.
-- A method on a pointer stands for its call on a pointer that is not nil. JSON is the operations
-- of a record.
pub mod Signed
use d7024e_lab.Registry.Version
use d7024e_lab.Prelude.{
  Bool, Option, [], if◌then◌else◌, length, none, not, replicate, some, ℕ, ◌&&◌, ◌==◌, ◌||◌, ◌∷◌,
  ◌≡◌,
}
use d7024e_lab.Prelude.Bytes.{Bytes, bytes_eq}
use d7024e_lab.Prelude.Bytes.Hex.{hex_encode}
use d7024e_lab.Prelude.Bytes.Text.{equal_fold, text, to_lower, trim_space}
use d7024e_lab.Registry.Crypto.{Crypto, decode_signature_hex, encode_signature_hex, sign, verify}
use d7024e_lab.Registry.Domain.{
  is_valid_domain, is_valid_package_name, latest_pointer_dht_key, latest_pointer_dht_key_bytes,
  normalize_domain,
}
use d7024e_lab.Registry.Outcome.{
  Result, err, failure, invalid_blob_hash, invalid_domain, invalid_package_name,
  invalid_record_hash, invalid_record_tag, missing_signature, ok, require, ◌>>=◌, ◌>>◌,
}
use d7024e_lab.Registry.Version.{Comparison, Version, parse_version}

pub record VersionRecord : Type 0 where
  pub tag : Bytes
  pub domain : Bytes
  pub package_name : Bytes
  pub version : Bytes
  pub blob_hash : Bytes
  pub previous_version_record : Bytes
  pub signature : Bytes

pub record LatestPointer : Type 0 where
  pub tag : Bytes
  pub domain : Bytes
  pub package_name : Bytes
  pub version : Bytes
  pub version_record_hash : Bytes
  pub signature : Bytes

-- `encoding/json` on the two types, and on the field `tag` alone.
pub record Json : Type 0 where
  pub marshal_record : VersionRecord → Bytes
  pub unmarshal_record : Bytes → Option VersionRecord
  pub marshal_pointer : LatestPointer → Bytes
  pub unmarshal_pointer : Bytes → Option LatestPointer
  pub unmarshal_tag : Bytes → Option Bytes

-- What was marshalled is read back.
pub record RoundTrips (js : Json) : Type 0 where
  pub records : (vr : VersionRecord) → js.unmarshal_record (js.marshal_record vr) ≡ some vr
  pub pointers : (lp : LatestPointer) → js.unmarshal_pointer (js.marshal_pointer lp) ≡ some lp

abbrev pub tag_version_record : Bytes
tag_version_record = text "version-record"

abbrev pub tag_latest_pointer : Bytes
tag_latest_pointer = text "latest-pointer"

abbrev pub hash_length : ℕ
hash_length = 64

unfoldable pub zero_hash : Bytes
zero_hash = replicate 64 b'0'

abbrev pub or_zero_hash : Bytes → Bytes
or_zero_hash [] = zero_hash
or_zero_hash (c ∷ cs) = c ∷ cs

unfoldable pub new_version_record : Bytes → Bytes → Bytes → Bytes → Bytes → Result VersionRecord
new_version_record domain pkg version blob_hash prev_vr = do
  let norm_domain = normalize_domain domain
  require (is_valid_domain norm_domain) invalid_domain
  let norm_pkg = trim_space pkg
  require (is_valid_package_name norm_pkg) invalid_package_name
  v ← parse_version version
  let norm_blob_hash = to_lower (trim_space blob_hash)
  require (length norm_blob_hash == hash_length) invalid_blob_hash
  let norm_prev = or_zero_hash (to_lower (trim_space prev_vr))
  require (length norm_prev == hash_length) invalid_record_hash
  ok (record {
    tag = tag_version_record;
    domain = norm_domain;
    package_name = norm_pkg;
    version = Version.string v;
    blob_hash = norm_blob_hash;
    previous_version_record = norm_prev;
    signature = [];
  })

unfoldable pub new_initial_version_record : Bytes → Bytes → Bytes → Bytes → Result VersionRecord
unfolding new_version_record
new_initial_version_record domain pkg version blob_hash =
    new_version_record domain pkg version blob_hash zero_hash

-- The record comes back: an empty link to the previous record is filled in.
unfoldable pub validate_record : VersionRecord → Result VersionRecord
validate_record vr = do
  require (bytes_eq vr.tag tag_version_record) invalid_record_tag
  require (is_valid_domain vr.domain) invalid_domain
  require (is_valid_package_name vr.package_name) invalid_package_name
  v ← parse_version vr.version
  require (length vr.blob_hash == hash_length) invalid_blob_hash
  let previous = or_zero_hash vr.previous_version_record
  require (length previous == hash_length) invalid_record_hash
  ok (record vr { previous_version_record = previous })

unfoldable pub new_latest_pointer : Bytes → Bytes → Bytes → Bytes → Result LatestPointer
new_latest_pointer domain pkg version vr_hash = do
  let norm_domain = normalize_domain domain
  require (is_valid_domain norm_domain) invalid_domain
  let norm_pkg = trim_space pkg
  require (is_valid_package_name norm_pkg) invalid_package_name
  v ← parse_version version
  let norm_hash = to_lower (trim_space vr_hash)
  require (length norm_hash == hash_length) invalid_record_hash
  ok (record {
    tag = tag_latest_pointer;
    domain = norm_domain;
    package_name = norm_pkg;
    version = Version.string v;
    version_record_hash = norm_hash;
    signature = [];
  })

unfoldable pub validate_pointer : LatestPointer → Result (Unit {0})
validate_pointer lp = do
  require (bytes_eq lp.tag tag_latest_pointer) invalid_record_tag
  require (is_valid_domain lp.domain) invalid_domain
  require (is_valid_package_name lp.package_name) invalid_package_name
  v ← parse_version lp.version
  require (length lp.version_record_hash == hash_length) invalid_record_hash

-- A record whose previous record is none.
unfoldable pub is_initial_version : VersionRecord → Bool
is_initial_version vr =
    bytes_eq vr.previous_version_record [] || bytes_eq vr.previous_version_record zero_hash

unfoldable pub compare_pointers : LatestPointer → LatestPointer → Result Comparison
compare_pointers lp other = do
  v1 ← parse_version lp.version
  v2 ← parse_version other.version
  ok (Version.compare v1 v2)

unfoldable pub compare_records : VersionRecord → VersionRecord → Result Comparison
compare_records vr other = do
  v1 ← parse_version vr.version
  v2 ← parse_version other.version
  ok (Version.compare v1 v2)

pub data RecordType : Type 0 where
  unknown version_record latest_pointer : RecordType

-- `DNSResolver`
abbrev pub Resolver : Type 0
Resolver = Bytes → Result Bytes

module _ (cr : Crypto) (js : Json) where
  unfoldable pub record_payload_bytes : VersionRecord → Result Bytes
  record_payload_bytes vr = do
    valid ← validate_record vr
    ok (js.marshal_record (record valid { signature = [] }))

  -- The signature is over the hash of the payload.
  unfoldable pub sign_record : VersionRecord → Bytes → Result VersionRecord
  unfolding record_payload_bytes
  sign_record vr priv = do
    valid ← validate_record vr
    data' ← record_payload_bytes vr
    ok (record valid { signature = encode_signature_hex (sign cr priv (cr.sha256 data')) })

  unfoldable pub verify_record : VersionRecord → Bytes → Result (Unit {0})
  unfolding record_payload_bytes
  verify_record vr pub' = do
    require (not (bytes_eq vr.signature [])) missing_signature
    sig ← decode_signature_hex vr.signature
    data' ← record_payload_bytes vr
    verify cr pub' (cr.sha256 data') sig

  unfoldable pub verify_record_with_resolver : VersionRecord → Resolver → Result (Unit {0})
  verify_record_with_resolver vr resolver = do pub' ← resolver vr.domain; verify_record vr pub'

  unfoldable pub record_hash : VersionRecord → Result Bytes
  record_hash vr = do
    require (not (bytes_eq vr.signature [])) missing_signature
    ok (hex_encode (cr.sha256 (js.marshal_record vr)))

  unfoldable pub pointer_of_record : VersionRecord → Result LatestPointer
  pointer_of_record vr = do
    h ← record_hash vr
    new_latest_pointer vr.domain vr.package_name vr.version h

  unfoldable pub pointer_payload_bytes : LatestPointer → Result Bytes
  pointer_payload_bytes lp = do
    validate_pointer lp
    ok (js.marshal_pointer (record lp { signature = [] }))

  unfoldable pub sign_pointer : LatestPointer → Bytes → Result LatestPointer
  unfolding pointer_payload_bytes
  sign_pointer lp priv = do
    data' ← pointer_payload_bytes lp
    ok (record lp { signature = encode_signature_hex (sign cr priv (cr.sha256 data')) })

  unfoldable pub verify_pointer : LatestPointer → Bytes → Result (Unit {0})
  unfolding pointer_payload_bytes
  verify_pointer lp pub' = do
    require (not (bytes_eq lp.signature [])) missing_signature
    sig ← decode_signature_hex lp.signature
    data' ← pointer_payload_bytes lp
    verify cr pub' (cr.sha256 data') sig

  unfoldable pub verify_pointer_with_resolver : LatestPointer → Resolver → Result (Unit {0})
  verify_pointer_with_resolver lp resolver = do pub' ← resolver lp.domain; verify_pointer lp pub'

  unfoldable pub matches_record : LatestPointer → VersionRecord → Result Bool
  matches_record lp vr = do
    h ← record_hash vr
    ok (
        bytes_eq lp.domain vr.domain
        && (bytes_eq lp.package_name vr.package_name
            && (bytes_eq lp.version vr.version && bytes_eq lp.version_record_hash h)))

  unfoldable pub dht_key_bytes : LatestPointer → Bytes
  dht_key_bytes lp = latest_pointer_dht_key_bytes cr.sha256 lp.domain lp.package_name

  unfoldable pub matches_key : LatestPointer → Bytes → Bool
  matches_key lp key' =
      equal_fold (trim_space key') (latest_pointer_dht_key cr.sha256 lp.domain lp.package_name)

  unfoldable pub matches_key_bytes : LatestPointer → Bytes → Bool
  unfolding dht_key_bytes
  matches_key_bytes lp key' = bytes_eq (dht_key_bytes lp) key'

unfoldable pub detect_record_type : Json → Bytes → RecordType
detect_record_type js data' = elim (js.unmarshal_tag data') [
  | none ↦ unknown
  | some tag ↦
      if bytes_eq tag tag_version_record
      then version_record
      else if bytes_eq tag tag_latest_pointer
      then latest_pointer
      else unknown
]

unfoldable pub parse_version_record : Json → Bytes → Result VersionRecord
parse_version_record js data' = elim (js.unmarshal_record data') [
  | none ↦ err failure
  | some vr ↦ validate_record vr
]

unfoldable pub parse_latest_pointer : Json → Bytes → Result LatestPointer
parse_latest_pointer js data' = elim (js.unmarshal_pointer data') [
  | none ↦ err failure
  | some lp ↦ do validate_pointer lp; ok lp
]

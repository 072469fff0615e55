-- ===== src/Registry/Record/Signed.antt =====
-- What is signed verifies (registry/record.go).
use d7024e_lab.Registry.Version
use d7024e_lab.Prelude.{
  All-replicate, [], ap, arith, false, length, refl, replicate, subst, sym, true, ◌==◌, ◌∙◌, ◌∷◌,
  ◌≡◌,
}
use d7024e_lab.Prelude.Bytes.{Bytes, IsByte, bytes_eq, bytes_eq_self}
use d7024e_lab.Prelude.Bytes.Hex.{hex_encode}
use d7024e_lab.Prelude.Bytes.Text.{to_lower, trim_space}
use d7024e_lab.Registry.Crypto.{
  Crypto, HasSizes, decode_signature_hex, encode_signature_hex, public_key_size, sign, verify,
}
use d7024e_lab.Registry.Crypto.Encode.{decode-encode}
use d7024e_lab.Registry.Domain.{is_valid_domain, is_valid_package_name, normalize_domain}
use d7024e_lab.Registry.Outcome.{
  bind-ok, invalid_blob_hash, invalid_domain, invalid_package_name, invalid_record_hash,
  invalid_record_tag, ok, ok-injective, then-ok,
}
use d7024e_lab.Registry.Record.{
  Json, VersionRecord, hash_length, new_version_record, or_zero_hash, record_payload_bytes,
  sign_record, tag_version_record, validate_record, verify_record, zero_hash,
}
use d7024e_lab.Registry.Version.{Version, parse_version}
use d7024e_lab.Registry.Version.Read.{parse_version-canonical}

or_zero_hash_idem : (h : Bytes) → or_zero_hash (or_zero_hash h) ≡ or_zero_hash h
unfolding zero_hash
or_zero_hash_idem [] = refl
or_zero_hash_idem (c ∷ cs) = refl

-- A record with another signature.
abbrev pub with_signature : VersionRecord → Bytes → VersionRecord
with_signature vr sig = record vr { signature = sig }

-- A valid record stays valid under another signature, and its validation changes nothing more.
validate_record-with_signature :
    (vr valid : VersionRecord) (sig : Bytes)
    → validate_record vr ≡ ok valid
    → validate_record (with_signature valid sig) ≡ ok (with_signature valid sig)
unfolding validate_record
validate_record-with_signature vr valid sig h =
    let s1 = then-ok invalid_record_tag h in
    let s2 = then-ok invalid_domain s1.1 in
    let s3 = then-ok invalid_package_name s2.1 in
    let s4 = bind-ok (parse_version vr.version) s3.1 in
    let s5 = then-ok invalid_blob_hash s4.2 in
    let s6 = then-ok invalid_record_hash s5.1 in
    let t1 : bytes_eq vr.tag tag_version_record ≡ true = s1.0 in
    let t2 : is_valid_domain vr.domain ≡ true = s2.0 in
    let t3 : is_valid_package_name vr.package_name ≡ true = s3.0 in
    let t5 : (length vr.blob_hash == hash_length) ≡ true = s5.0 in
    let t6 : (length (or_zero_hash vr.previous_version_record) == hash_length) ≡ true = s6.0 in
    let filled = record vr { previous_version_record = or_zero_hash vr.previous_version_record } in
    let eq : filled ≡ valid = ok-injective s6.1 in
    let p : validate_record (with_signature filled sig) ≡ ok (with_signature filled sig) =
      rw (validate_record, t1, t2, t3, s4.1, t5, or_zero_hash_idem vr.previous_version_record, t6)
        refl in
    subst (λ v. validate_record (with_signature v sig) ≡ ok (with_signature v sig)) eq p

-- What `NewVersionRecord` gives passes validation as it is: its names are valid, its version is
-- canonical, and its hashes have 64 characters.
pub new_version_record-validate_record :
    (domain pkg version blob_hash prev_vr : Bytes) (vr : VersionRecord)
    → new_version_record domain pkg version blob_hash prev_vr ≡ ok vr
    → validate_record vr ≡ ok vr
unfolding new_version_record validate_record
new_version_record-validate_record domain pkg version blob_hash prev_vr vr h =
    let s1 = then-ok invalid_domain h in
    let s2 = then-ok invalid_package_name s1.1 in
    let s3 = bind-ok (parse_version version) s2.1 in
    let s4 = then-ok invalid_blob_hash s3.2 in
    let s5 = then-ok invalid_record_hash s4.1 in
    let t1 : is_valid_domain (normalize_domain domain) ≡ true = s1.0 in
    let t2 : is_valid_package_name (trim_space pkg) ≡ true = s2.0 in
    let t4 : (length (to_lower (trim_space blob_hash)) == hash_length) ≡ true = s4.0 in
    let t5 : (length (or_zero_hash (to_lower (trim_space prev_vr))) == hash_length) ≡ true = s5.0 in
    let made : VersionRecord = record {
      tag = tag_version_record;
      domain = normalize_domain domain;
      package_name = trim_space pkg;
      version = Version.string s3.0;
      blob_hash = to_lower (trim_space blob_hash);
      previous_version_record = or_zero_hash (to_lower (trim_space prev_vr));
      signature = [];
    } in
    let eq : made ≡ vr = ok-injective s5.1 in
    let p : validate_record made ≡ ok made =
      rw
        (
          validate_record,
          bytes_eq_self tag_version_record,
          t1,
          t2,
          parse_version-canonical version s3.0 s3.1,
          t4,
          or_zero_hash_idem (to_lower (trim_space prev_vr)),
          t5,
        )
        refl in
    subst (λ v. validate_record v ≡ ok v) eq p

module _ (cr : Crypto) (js : Json) (sizes : HasSizes cr) (priv pub' : Bytes) where
  -- The keys belong together: what one signs the other verifies.
  unfoldable pub IsKeyPair : Type 0
  IsKeyPair = (msg : Bytes) → cr.ed25519_verify pub' msg (cr.ed25519_sign priv msg) ≡ true

  verify-sign :
      length pub' ≡ public_key_size
      → IsKeyPair
      → (msg : Bytes) → verify cr pub' msg (sign cr priv msg) ≡ ok tt
  unfolding verify sign IsKeyPair
  verify-sign lp pair msg = rw (lp, sizes.sign_size priv msg, pair msg) refl

  not_empty : (sig : Bytes) → length sig ≡ 64 → bytes_eq (encode_signature_hex sig) [] ≡ false
  unfolding encode_signature_hex hex_encode bytes_eq
  not_empty [] l = absurd (omega arith)
  not_empty (b ∷ bs) l = refl

  -- A signature over the hash of the payload verifies.
  signature_is_read :
      (msg : Bytes)
      → decode_signature_hex (encode_signature_hex (sign cr priv msg)) ≡ ok (sign cr priv msg)
  unfolding sign
  signature_is_read msg =
      (decode-encode (cr.ed25519_sign priv msg) (replicate 32 0) (sizes.sign_bytes priv msg)
        (sizes.sign_size priv msg) (All-replicate IsByte 32 0 (omega arith)) refl).0

  sign_record-parts :
      (vr signed : VersionRecord)
      → sign_record cr js vr priv ≡ ok signed
      → (valid : VersionRecord) × (validate_record vr ≡ ok valid)
        × (signed
            ≡ with_signature valid (
                encode_signature_hex
                  (sign cr priv (cr.sha256 (js.marshal_record (with_signature valid []))))))
  unfolding sign_record record_payload_bytes
  sign_record-parts vr signed h =
      let s1 = bind-ok (validate_record vr) h in
      let s2 = bind-ok (record_payload_bytes cr js vr) s1.2 in
      let s3 = bind-ok (validate_record vr) s2.1 in
      let agree : s3.0 ≡ s1.0 = ok-injective (sym s3.1 ∙ s1.1) in
      (
        s1.0,
        s1.1,
        sym (ok-injective s2.2)
            ∙ ap (λ d. with_signature s1.0 (encode_signature_hex (sign cr priv (cr.sha256 d))))
                (sym (ok-injective s3.2) ∙ ap (λ v. js.marshal_record (with_signature v [])) agree),
      )

  -- A record that was signed with the private key of a pair verifies under its public key, of 32
  -- bytes, whatever the record and its former signature were.
  pub verify_record-sign_record :
      (vr signed : VersionRecord)
      → length pub' ≡ public_key_size
      → IsKeyPair
      → sign_record cr js vr priv ≡ ok signed
      → verify_record cr js signed pub' ≡ ok tt
  unfolding verify_record record_payload_bytes
  verify_record-sign_record vr signed lp pair h =
      let (valid, v, e) = sign_record-parts vr signed h in
      let msg = cr.sha256 (js.marshal_record (with_signature valid [])) in
      let sig = encode_signature_hex (sign cr priv msg) in
      subst (λ x. verify_record cr js x pub' ≡ ok tt) (sym e)
        (rw
          (
            verify_record,
            not_empty (sign cr priv msg) (unfold sign in sizes.sign_size priv msg),
            signature_is_read msg,
            record_payload_bytes,
            validate_record-with_signature vr valid sig v,
          )
          (verify-sign lp pair msg))

-- ===== src/Registry/KeyManager/Kept.antt =====
-- What a key manager loads after it saved and deleted keys (registry/keymanager.go).
use d7024e_lab.Prelude.{All, arith, length, refl, some, ◌≡◌}
use d7024e_lab.Prelude.Bytes.{Bytes, IsByte}
use d7024e_lab.Registry.Crypto.{
  Crypto, decode_private_key_hex, decode_public_key_hex, encode_private_key_hex,
  encode_public_key_hex, of_size, private_key_size, public_key_size,
}
use d7024e_lab.Registry.Crypto.Encode.{decoded-hex_encode}
use d7024e_lab.Registry.KeyManager.{
  DomainKeyPair, FileSystem, KeyJson, load_domain_key_pair, to_dto,
}
use d7024e_lab.Registry.Outcome.{ok}

-- The sizes that the types of Ed25519 keys have.
pub record HasKeySizes (dkp : DomainKeyPair) : Type 0 where
  pub public_size : length dkp.public_key ≡ public_key_size
  pub public_bytes : All IsByte dkp.public_key
  pub private_size : length dkp.private_key ≡ private_key_size
  pub private_bytes : All IsByte dkp.private_key

decode_private_key_hex-encode_private_key_hex :
    (cr : Crypto) (priv : Bytes)
    → All IsByte priv
    → length priv ≡ private_key_size
    → decode_private_key_hex cr (encode_private_key_hex priv) ≡ ok priv
unfolding decode_private_key_hex encode_private_key_hex
decode_private_key_hex-encode_private_key_hex cr priv h l =
    ground (arith, decoded-hex_encode priv h, l)

decode_public_key_hex-encode_public_key_hex :
    (pub' : Bytes)
    → All IsByte pub'
    → length pub' ≡ public_key_size
    → decode_public_key_hex (encode_public_key_hex pub') ≡ ok pub'
unfolding decode_public_key_hex encode_public_key_hex of_size
decode_public_key_hex-encode_public_key_hex pub' h l = ground (arith, decoded-hex_encode pub' h, l)

module _ (cr : Crypto) (js : KeyJson) (fs : FileSystem) where
  -- A file that was written is read back.
  pub load_domain_key_pair-to_dto :
      (dkp : DomainKeyPair)
      → HasKeySizes dkp
      → js.unmarshal_key (js.marshal_key (to_dto dkp)) ≡ some (to_dto dkp)
      → load_domain_key_pair js fs cr (some (js.marshal_key (to_dto dkp))) ≡ ok dkp
  unfolding load_domain_key_pair to_dto
  load_domain_key_pair-to_dto dkp h r =
      rw
        (
          load_domain_key_pair,
          r,
          decode_public_key_hex-encode_public_key_hex dkp.public_key h.public_bytes h.public_size,
          decode_private_key_hex-encode_private_key_hex cr dkp.private_key h.private_bytes
              h.private_size,
        )
        refl

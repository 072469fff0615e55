-- ===== src/Registry/Crypto.antt =====
-- registry/crypto.go: keys and signatures. SHA-256 and Ed25519 are the operations of a record.
pub mod Encode
use d7024e_lab.Prelude.{
  All, Bool, false, if◌then◌else◌, length, true, ℕ, ◌&&◌, ◌==◌, ◌||◌, ◌∷◌, ◌≡◌,
}
use d7024e_lab.Prelude.Bytes.{Bytes, IsByte}
use d7024e_lab.Prelude.Bytes.Hex.{hex_decode, hex_encode}
use d7024e_lab.Prelude.Bytes.Text.{trim_left, trim_right, trim_space}
use d7024e_lab.Registry.Outcome.{
  Result, err, invalid_encoding, ok, require, signature_verification_failed, ◌>>=◌, ◌>>◌,
}

-- `crypto/sha256` and `crypto/ed25519`.
pub record Crypto : Type 0 where
  pub sha256 : Bytes → Bytes
  pub ed25519_verify : Bytes → Bytes → Bytes → Bool
  pub ed25519_sign : Bytes → Bytes → Bytes
  pub new_key_from_seed : Bytes → Bytes

-- The documented sizes.
pub record HasSizes (cr : Crypto) : Type 0 where
  pub sha256_size : (s : Bytes) → length (cr.sha256 s) ≡ 32
  pub sha256_bytes : (s : Bytes) → All IsByte (cr.sha256 s)
  pub sign_size : (priv msg : Bytes) → length (cr.ed25519_sign priv msg) ≡ 64
  pub sign_bytes : (priv msg : Bytes) → All IsByte (cr.ed25519_sign priv msg)

abbrev pub public_key_size : ℕ
public_key_size = 32

abbrev pub private_key_size : ℕ
private_key_size = 64

abbrev pub seed_size : ℕ
seed_size = 32

abbrev pub signature_size : ℕ
signature_size = 64

unfoldable pub is_quote : ℕ → Bool
is_quote c = c == 34 || c == 39

-- `strings.TrimPrefix` of `0` and the letter `x`.
unfoldable pub trim_0x : ℕ → Bytes → Bytes
trim_0x x (c ∷ d ∷ cs) = if c == b'0' && d == x then cs else c ∷ d ∷ cs
trim_0x x s = s

unfoldable pub clean_hex : Bytes → Bytes
unfolding is_quote trim_0x
clean_hex s = trim_0x b'X' (trim_0x b'x' (trim_right is_quote (trim_left is_quote (trim_space s))))

-- The decoded bytes, if there was no error.
unfoldable pub decoded : Bytes × Bool → Result Bytes
decoded (b, true) = ok b
decoded (b, false) = err invalid_encoding

unfoldable pub of_size : ℕ → Bytes → Result Bytes
of_size n b = if length b == n then ok b else err invalid_encoding

unfoldable pub encode_public_key_hex : Bytes → Bytes
encode_public_key_hex pub' = hex_encode pub'

unfoldable pub decode_public_key_hex : Bytes → Result Bytes
unfolding decoded of_size
decode_public_key_hex s = do b ← decoded (hex_decode (clean_hex s)); of_size public_key_size b

unfoldable pub encode_private_key_hex : Bytes → Bytes
encode_private_key_hex priv = hex_encode priv

unfoldable pub encode_signature_hex : Bytes → Bytes
encode_signature_hex sig = hex_encode sig

unfoldable pub decode_signature_hex : Bytes → Result Bytes
unfolding decoded of_size
decode_signature_hex s = do b ← decoded (hex_decode (clean_hex s)); of_size signature_size b

module _ (cr : Crypto) where
  -- A seed is expanded to a private key.
  unfoldable pub decode_private_key_hex : Bytes → Result Bytes
  unfolding decoded
  decode_private_key_hex s = do
    b ← decoded (hex_decode (clean_hex s))
    if length b == seed_size
        then ok (cr.new_key_from_seed b)
        else if length b == private_key_size
        then ok b
        else err invalid_encoding

  unfoldable pub sign : Bytes → Bytes → Bytes
  sign priv data' = cr.ed25519_sign priv data'

  unfoldable pub verify : Bytes → Bytes → Bytes → Result (Unit {0})
  verify pub' data' sig =
      require
        (length pub' == public_key_size
          && (length sig == signature_size && cr.ed25519_verify pub' data' sig))
        signature_verification_failed

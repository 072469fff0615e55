-- ===== src/Registry/Crypto/Encode.antt =====
-- The hex encodings of registry/crypto.go are read back.
use d7024e_lab.Prelude.{All, List, [], ap, arith, false, length, refl, ℕ, ◌∙◌, ◌∷◌, ◌≡◌, ◌≢◌}
use d7024e_lab.Prelude.Bytes.{Bytes, IsByte}
use d7024e_lab.Prelude.Bytes.Hex.{
  IsHexDigit, hex_decode, hex_decode-hex_encode, hex_encode, hex_encode-IsHexDigit,
}
use d7024e_lab.Prelude.Bytes.Text.{
  is_space, trim_left, trim_left_clean, trim_right, trim_right_clean, trim_space_clean,
}
use d7024e_lab.Registry.Crypto.{
  clean_hex, decode_public_key_hex, decode_signature_hex, decoded, encode_public_key_hex,
  encode_signature_hex, is_quote, of_size, public_key_size, signature_size, trim_0x,
}
use d7024e_lab.Registry.Outcome.{ok}

pub All-map_to {ℓ κ} :
    {A : Type ℓ} (P Q : A → Type κ) → ((a : A) → P a → Q a) → (xs : List A) → All P xs → All Q xs
All-map_to P Q f [] h = tt
All-map_to P Q f (x ∷ xs) h = (f x h.0, All-map_to P Q f xs h.1)

pub not_space : (c : ℕ) → IsHexDigit c → is_space c ≡ false
unfolding is_space
not_space c h = let a = h.0 in let b = h.1 in ground arith

pub not_quote : (c : ℕ) → IsHexDigit c → is_quote c ≡ false
unfolding is_quote
not_quote c h = let a = h.0 in ground arith

trim_0x_clean :
    (x : ℕ) (s : Bytes) → ((c : ℕ) → IsHexDigit c → c ≢ x) → All IsHexDigit s → trim_0x x s ≡ s
unfolding trim_0x
trim_0x_clean x [] ne h = refl
trim_0x_clean x (c ∷ []) ne h = refl
trim_0x_clean x (c ∷ d ∷ cs) ne h = let n : d ≢ x = ne d h.1.0 in ground arith

clean_hex-hex_encode : (bs : Bytes) → All IsByte bs → clean_hex (hex_encode bs) ≡ hex_encode bs
unfolding clean_hex
clean_hex-hex_encode bs h =
    let s = hex_encode bs in
    let d = hex_encode-IsHexDigit bs h in
    let q = All-map_to IsHexDigit (λ c. is_quote c ≡ false) not_quote s d in
    ap (λ t. trim_0x b'X' (trim_0x b'x' (trim_right is_quote (trim_left is_quote t))))
      (trim_space_clean s (All-map_to IsHexDigit (λ c. is_space c ≡ false) not_space s d))
    ∙ ap (λ t. trim_0x b'X' (trim_0x b'x' (trim_right is_quote t))) (trim_left_clean is_quote s q)
    ∙ ap (λ t. trim_0x b'X' (trim_0x b'x' t)) (trim_right_clean is_quote s q)
    ∙ ap (trim_0x b'X') (trim_0x_clean b'x' s (λ c k e. let u = k.1 in omega arith) d)
    ∙ trim_0x_clean b'X' s (λ c k. k.2) d

pub decoded-hex_encode :
    (bs : Bytes) → All IsByte bs → decoded (hex_decode (clean_hex (hex_encode bs))) ≡ ok bs
unfolding decoded
decoded-hex_encode bs h =
    ap (λ s. decoded (hex_decode s)) (clean_hex-hex_encode bs h)
    ∙ ap decoded (hex_decode-hex_encode bs h)

-- A signature is read back from its hex form, and so is a public key.
pub decode-encode :
    (sig pub' : Bytes)
    → All IsByte sig
    → length sig ≡ signature_size
    → All IsByte pub'
    → length pub' ≡ public_key_size
    → (decode_signature_hex (encode_signature_hex sig) ≡ ok sig)
      × (decode_public_key_hex (encode_public_key_hex pub') ≡ ok pub')
unfolding decode_signature_hex encode_signature_hex decode_public_key_hex encode_public_key_hex
    of_size
decode-encode sig pub' hs ls hp lp =
    (ground (arith, decoded-hex_encode sig hs, ls), ground (arith, decoded-hex_encode pub' hp, lp))

-- ===== src/Prelude/Bytes/Hex.antt =====
-- `hex.EncodeToString` and `hex.DecodeString` of the Go library.
use d7024e_lab.Prelude.Bytes.Defs.{Bytes, IsByte}
use Prim.Native.Nat.{ℕ, ◌+◌, ◌-◌, ◌*◌, ◌/◌, ◌%◌, ◌<◌}
use mathlib.Core.Path.{◌≡◌, refl}
use mathlib.Core.Logic.{◌≢◌}
use mathlib.Core.Bool.{Bool, true, false, ◌&&◌}
use mathlib.Core.Option.{Option, none, some}
use mathlib.Core.List.{[], ◌∷◌}
use native.Mathlib.Omega.{arith}
use d7024e_lab.Prelude.Tests.{ltb, leb, if◌then◌else◌}
use d7024e_lab.Prelude.Lists.{length, All}

hex_digit : ℕ → ℕ
hex_digit d = if ltb d 10 then b'0' + d else b'a' + (d - 10)

-- Both cases of the letters are read.
from_hex : ℕ → Option ℕ
from_hex c =
    if leb b'0' c && leb c b'9'
    then some (c - b'0')
    else if leb b'a' c && leb c b'f'
    then some (c - b'a' + 10)
    else if leb b'A' c && leb c b'F'
    then some (c - b'A' + 10)
    else none

unfoldable pub hex_encode : Bytes → Bytes
unfolding hex_digit
hex_encode [] = []
hex_encode (b ∷ bs) = hex_digit (b / 16) ∷ hex_digit (b % 16) ∷ hex_encode bs

push : Option ℕ → Option ℕ → Bytes × Bool → Bytes × Bool
push (some hi) (some lo) (bs, done) = ((hi * 16 + lo) ∷ bs, done)
push _ _ _ = ([], false)

-- The bytes decoded before the first error, and whether there was none.
unfoldable pub hex_decode : Bytes → Bytes × Bool
unfolding from_hex push
hex_decode [] = ([], true)
hex_decode (p ∷ []) = ([], false)
hex_decode (p ∷ q ∷ rest) = push (from_hex p) (from_hex q) (hex_decode rest)

from_hex-hex_digit : (d : ℕ) → d < 16 → from_hex (hex_digit d) ≡ some d
unfolding from_hex hex_digit
from_hex-hex_digit d h = ground arith

-- Decoding what was encoded gives the bytes back.
pub hex_decode-hex_encode : (bs : Bytes) → All IsByte bs → hex_decode (hex_encode bs) ≡ (bs, true)
unfolding hex_encode hex_decode push
hex_decode-hex_encode [] h = refl
hex_decode-hex_encode (b ∷ bs) h = ground (
  arith,
  from_hex-hex_digit (b / 16) (omega arith),
  from_hex-hex_digit (b % 16) (omega arith),
  hex_decode-hex_encode bs h.1,
)

pub length-hex_encode : (bs : Bytes) → length (hex_encode bs) ≡ 2 * length bs
unfolding hex_encode
length-hex_encode [] = refl
length-hex_encode (b ∷ bs) = omega (arith, length-hex_encode bs)

from_hex-lt : (c d : ℕ) → from_hex c ≡ some d → d < 16
unfolding from_hex
from_hex-lt c d h = ground arith

push_bytes :
    (hi lo : Option ℕ) (r : Bytes × Bool)
    → ((d : ℕ) → hi ≡ some d → d < 16)
    → ((d : ℕ) → lo ≡ some d → d < 16)
    → All IsByte r.0
    → All IsByte (push hi lo r).0
unfolding push
push_bytes none lo r hh hl hr = tt
push_bytes (some a) none r hh hl hr = tt
push_bytes (some a) (some b) r hh hl hr =
    let ha : a < 16 = hh a refl in let hb : b < 16 = hl b refl in (omega arith, hr)

-- What is decoded is a list of bytes, also before an error.
pub hex_decode_bytes : (s : Bytes) → All IsByte (hex_decode s).0
unfolding hex_decode
hex_decode_bytes [] = tt
hex_decode_bytes (p ∷ []) = tt
hex_decode_bytes (p ∷ q ∷ rest) =
    push_bytes (from_hex p) (from_hex q) (hex_decode rest) (from_hex-lt p) (from_hex-lt q)
      (hex_decode_bytes rest)

-- A digit of a hex text: no white space, no quote, no letter x and no semicolon.
abbrev pub IsHexDigit : ℕ → Type 0
IsHexDigit c = (47 < c) × (c < 103) × (c ≢ 88) × (c ≢ 59)

hex_digit-IsHexDigit : (d : ℕ) → d < 16 → IsHexDigit (hex_digit d)
unfolding hex_digit
hex_digit-IsHexDigit d h =
    (ground arith, ground arith, (λ e. absurd (ground arith)), (λ e. absurd (ground arith)))

pub hex_encode-IsHexDigit : (bs : Bytes) → All IsByte bs → All IsHexDigit (hex_encode bs)
unfolding hex_encode
hex_encode-IsHexDigit [] h = tt
hex_encode-IsHexDigit (b ∷ bs) h = (
  hex_digit-IsHexDigit (b / 16) (omega arith),
  (hex_digit-IsHexDigit (b % 16) (omega arith), hex_encode-IsHexDigit bs h.1),
)
